-- ===== src/Baseline/Keys.antt =====
-- controller/internal/baseline/store.go: the keys of the series. SHA-256 is no part of the
-- repository: `digest` is the hexadecimal form of the first eight bytes of the hash of a text.
use Prim.Native.String.{◌++◌, compare}
use Prim.Native.Nat.{Ordering}
use anomaly_detection.Prelude.{String, not, ◌&&◌, List, [], ◌∷◌, map, ◌==◌, if◌then◌else◌}
use anomaly_detection.Labels.{Labels, get, contains}
use anomaly_detection.Correlation.Workload.{
  deployment_pattern, stateful_set_pattern, daemon_set_pattern, or_else,
}

-- `extractWorkload`, with the regular expressions of correlation/workload.go once more
unfoldable pub extract_workload : String → String
extract_workload pod =
    if pod == ""
    then ""
    else or_else (deployment_pattern pod)
        (or_else (stateful_set_pattern pod) (or_else (daemon_set_pattern pod) pod))

-- `normalizeLabels`; an empty map comes back as it is
unfoldable pub normalize_labels : List String → Labels → Labels
normalize_labels ephemeral [] = []
normalize_labels ephemeral ((k, v) ∷ labels) =
    let rest = normalize_labels ephemeral labels in
    if contains ephemeral k
    then rest
    else if k == "pod" && not (v == "")
    then ("pod", extract_workload v) ∷ rest
    else (k, v) ∷ rest

-- sort.Strings
unfoldable pub insert_string : String → List String → List String
insert_string x [] = x ∷ []
insert_string x (y ∷ ys) = elim (compare y x) [
  | Ordering.lt ↦ y ∷ insert_string x ys
  | _ ↦ x ∷ y ∷ ys
]

unfoldable pub sort_strings : List String → List String
unfolding insert_string
sort_strings [] = []
sort_strings (x ∷ xs) = insert_string x (sort_strings xs)

-- the text "k=v," for each key, in order
unfoldable pub write_labels : Labels → List String → String
write_labels labels [] = ""
write_labels labels (k ∷ keys) = k ++ ("=" ++ (get labels k ++ ("," ++ write_labels labels keys)))

module _ (digest : String → String) where
  unfoldable pub labels_hash : Labels → String
  labels_hash [] = "none"
  labels_hash (l ∷ labels) =
      let all = l ∷ labels in digest (write_labels all (sort_strings (map (λ e. e.0) all)))

  unfoldable pub baseline_key : String → Labels → String
  baseline_key metric labels = "baseline:" ++ (metric ++ (":" ++ labels_hash labels))
