-- ===== src/Config/Csv.antt =====
-- controller/internal/config/config.go: `splitCSV`, which reads the lists of the suppression.
pub mod Listed
use Prim.Native.Char.{Char, code}
use anomaly_detection.Suppression.{SuppressionConfig}
use anomaly_detection.Prelude.{
  String, Bool, ◌&&◌, ◌||◌, List, [], ◌∷◌, ◌==◌, nat_beq, leb, if◌then◌else◌,
}

abbrev pub is_comma : Char → Bool
is_comma c = nat_beq (code c) b','

-- unicode.IsSpace
unfoldable pub is_space : Char → Bool
is_space c =
    let n = code c in
    (leb 9 n && leb n 13)
    || (nat_beq n 32
        || (nat_beq n 133
            || (nat_beq n 160
                || (nat_beq n 5760
                    || ((leb 8192 n && leb n 8202)
                        || (nat_beq n 8232
                            || (nat_beq n 8233
                                || (nat_beq n 8239 || (nat_beq n 8287 || nat_beq n 12288)))))))))

-- one more character at the front of the first part
abbrev pub onto : Char → List String → List String
onto c [] = []
onto c (p ∷ parts) = String.◌∷◌ c p ∷ parts

-- strings.Split(s, ",")
unfoldable pub split_commas : String → List String
split_commas String.[] = "" ∷ []
split_commas (String.◌∷◌ c s) =
    let parts = split_commas s in if is_comma c then "" ∷ parts else onto c parts

-- strings.TrimSpace, from the left and from the right
unfoldable pub trim_left : String → String
trim_left String.[] = ""
trim_left (String.◌∷◌ c s) = let rest = trim_left s in if is_space c then rest else String.◌∷◌ c s

unfoldable pub trim_right : String → String
trim_right String.[] = ""
trim_right (String.◌∷◌ c s) =
    let rest = trim_right s in if is_space c && rest == "" then "" else String.◌∷◌ c rest

-- the loop over the parts: trimmed, without the empty ones
unfoldable pub trimmed_parts : List String → List String
unfolding trim_left trim_right
trimmed_parts [] = []
trimmed_parts (p ∷ parts) =
    let rest = trimmed_parts parts in
    let v = trim_left (trim_right p) in if v == "" then rest else v ∷ rest

-- `splitCSV`
unfoldable pub split_csv : String → List String
unfolding split_commas trimmed_parts
split_csv s = if s == "" then [] else trimmed_parts (split_commas s)

-- the part of `setDefaults` that parses the lists of the suppression
unfoldable pub suppression_of : String → String → String → SuppressionConfig
unfolding split_csv
suppression_of namespaces static_only adaptive_workloads = record {
  exclude_namespaces = split_csv namespaces;
  exclude_static_only = split_csv static_only;
  exclude_adaptive_workloads = split_csv adaptive_workloads;
}
