-- ===== src/Config/Csv/Listed.antt =====
-- controller/internal/config/config.go and controller/internal/suppression/suppression.go: what the
-- names listed in the configuration silence.
use Prim.Native.Char.{Char}
use Prim.Native.String.{◌++◌}
use text.Mathlib.TextLemmas.{nil-append, cons-append}
use anomaly_detection.Prelude.{
  ◌≡◌, ◌≢◌, refl, ap, ◌∙◌, String, Bool, true, false, not, ◌&&◌, List, [], ◌∷◌, ◌==◌, All, arith,
  Bool-cases, eq_iff, inl, inr,
}
use anomaly_detection.Labels.{get, contains}
use anomaly_detection.Detection.{Anomaly}
use anomaly_detection.Correlation.Workload.{every}
use anomaly_detection.Enrichment.Identity.{join_commas}
use anomaly_detection.Suppression.{new_filter, should_suppress}
use anomaly_detection.Suppression.Silenced.{should_suppress_iff}
use anomaly_detection.Config.Csv.{
  is_comma, is_space, onto, split_commas, trim_left, trim_right, trimmed_parts, split_csv,
  suppression_of,
}

-- neither a comma nor a space
abbrev pub is_plain : Char → Bool
is_plain c = not (is_comma c) && not (is_space c)

-- a name that is not empty and has plain characters only
abbrev pub IsPlain : String → Type 0
IsPlain s = ((s == "") ≡ false) × (every is_plain s ≡ true)

trim_left_plain : (s : String) → every is_plain s ≡ true → trim_left s ≡ s
unfolding trim_left every
trim_left_plain String.[] h = refl
trim_left_plain (String.◌∷◌ c s) h =
    let solid : is_space c ≡ false = ground (arith, h) in rw solid refl

trim_right_plain : (s : String) → every is_plain s ≡ true → trim_right s ≡ s
unfolding trim_right every
trim_right_plain String.[] h = refl
trim_right_plain (String.◌∷◌ c s) h =
    let solid : is_space c ≡ false = ground (arith, h) in
    let rest : every is_plain s ≡ true = ground (arith, h) in
    rw solid (ap (String.◌∷◌ c) (trim_right_plain s rest))

-- a plain text before a comma is the first part, and on its own the only one
split_commas_first :
    (s rest : String)
    → every is_plain s ≡ true
    → split_commas (s ++ ("," ++ rest)) ≡ s ∷ split_commas rest
unfolding split_commas every
split_commas_first String.[] rest h = rw (nil-append, cons-append, nil-append) refl
split_commas_first (String.◌∷◌ c s) rest h =
    let other : is_comma c ≡ false = ground (arith, h) in
    let plain : every is_plain s ≡ true = ground (arith, h) in
    rw (cons-append, other) (ap (onto c) (split_commas_first s rest plain))

split_commas_only : (s : String) → every is_plain s ≡ true → split_commas s ≡ s ∷ []
unfolding split_commas every
split_commas_only String.[] h = refl
split_commas_only (String.◌∷◌ c s) h =
    let other : is_comma c ≡ false = ground (arith, h) in
    let plain : every is_plain s ≡ true = ground (arith, h) in
    rw other (ap (onto c) (split_commas_only s plain))

trimmed_parts_plain : (names : List String) → All IsPlain names → trimmed_parts names ≡ names
unfolding trimmed_parts
trimmed_parts_plain [] h = refl
trimmed_parts_plain (n ∷ names) ((full, plain), rest) =
    rw (trim_right_plain n plain, trim_left_plain n plain, full)
      (ap (λ (ns : List String). n ∷ ns) (trimmed_parts_plain names rest))

split_commas-join_commas :
    (n : String) (names : List String)
    → All IsPlain (n ∷ names)
    → split_commas (join_commas (n ∷ names)) ≡ n ∷ names
unfolding join_commas
split_commas-join_commas n [] ((full, plain), rest) = split_commas_only n plain
split_commas-join_commas n (m ∷ names) ((full, plain), rest) =
    split_commas_first n (join_commas (m ∷ names)) plain
    ∙ ap (λ (ns : List String). n ∷ ns) (split_commas-join_commas m names rest)

-- the guard for the empty text makes no difference
split_csv_parts : (s : String) → split_csv s ≡ trimmed_parts (split_commas s)
unfolding split_csv trimmed_parts split_commas trim_left trim_right
split_csv_parts s = elim (Bool-cases (s == "")) [
  | inl e ↦ rw ((eq_iff s "").0 e) refl
  | inr e ↦ rw e refl
]

split_csv-join_commas :
    (names : List String) → All IsPlain names → split_csv (join_commas names) ≡ names
unfolding split_csv join_commas
split_csv-join_commas [] h = refl
split_csv-join_commas (n ∷ names) h =
    split_csv_parts (join_commas (n ∷ names))
    ∙ ap trimmed_parts (split_commas-join_commas n names h)
    ∙ trimmed_parts_plain (n ∷ names) h

-- The namespaces that are listed in the configuration, plain names joined by commas, are read back,
-- and each of them silences every anomaly of that namespace.
pub listed_silences :
    {F : Type 0} (names : List String) (static_only workloads : String) (a : Anomaly F)
    → All IsPlain names
    → get a.labels "namespace" ≢ ""
    → contains names (get a.labels "namespace") ≡ true
    → let cfg = suppression_of (join_commas names) static_only workloads in
      (cfg.exclude_namespaces ≡ names) × (should_suppress (new_filter cfg) a ≡ true)
unfolding suppression_of
listed_silences names static_only workloads a plain full listed =
    let cfg = suppression_of (join_commas names) static_only workloads in
    let back = split_csv-join_commas names plain in
    (back, (should_suppress_iff cfg a).1 (inr (full, inl (rw back listed))))
