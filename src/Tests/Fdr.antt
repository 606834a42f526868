-- ===== src/Tests/Fdr.antt =====
-- The theorems on the FDR filter on three anomalies: a strong and a weak adaptive one and a static one.
use anomaly_detection.Prelude.{
  ℕ, ◌+◌, ◌≤◌, ◌≡◌, refl, String, Bool, not, ◌&&◌, List, [], ◌∷◌, map, length, select, count_if,
  All, arith, leb→le,
}
use anomaly_detection.Float64.{max_int}
use anomaly_detection.Float64.Nano.{Nano, nano, Nano-IsOrdered, Nano-IsMonotone}
use anomaly_detection.Labels.{Labels}
use anomaly_detection.Detection.{Anomaly}
use anomaly_detection.Detection.Fdr.{
  is_adaptive, zscore_to_pvalue, rank, sort_ranked, threshold, apply_fdr,
}
use anomaly_detection.Detection.Fdr.Sorting.{AreNumbers, length-sort_ranked}
use anomaly_detection.Detection.Fdr.Cutoff.{threshold_antitone}
use anomaly_detection.Detection.Fdr.Apply.{HasNumber, apply_fdr_accounts}
use anomaly_detection.Detection.Fdr.Accepted.{family}
use anomaly_detection.Detection.Fdr.Bound.{IsCorrected, apply_fdr-IsCorrected}

abbrev pub anomaly_of : String → Labels → ℕ → ℕ → Anomaly Nano
anomaly_of detector labels value score = record {
  metric_name = "cpu";
  labels = labels;
  value = nano.lit value 1;
  mean = nano.lit 10 1;
  stddev = nano.lit 1 1;
  score = nano.lit score 1;
  severity = "warning";
  signal = "metrics";
  detector = detector;
  timestamp = 0;
}

abbrev three : List (Anomaly Nano)
three =
    anomaly_of "adaptive" [] 90 9 ∷ anomaly_of "static" [] 50 1 ∷ anomaly_of "adaptive" [] 13 3 ∷ []

abbrev ranked : List (Anomaly Nano × Nano)
ranked = sort_ranked (map rank three)

abbrev target : Nano
target = nano.lit 1 20

numbers : AreNumbers (map rank three)
unfolding zscore_to_pvalue
numbers = (refl, (refl, (refl, tt)))

candidate_numbers : All HasNumber (select is_adaptive three)
unfolding zscore_to_pvalue
candidate_numbers = (refl, (refl, tt))

ranked_few : length ranked ≤ max_int
ranked_few =
    rw (length-sort_ranked (map rank three)) (leb→le (length (map rank three)) max_int refl)

threshold_antitone_example : threshold 40 target ranked ≤ threshold 3 target ranked
threshold_antitone_example =
    threshold_antitone Nano-IsOrdered Nano-IsMonotone 39 2 target ranked (omega arith) ranked_few
      (leb→le 40 max_int refl) refl refl

apply_fdr_accounts_example :
    let (accepted, rejected) = apply_fdr target three 40 in
    (length accepted + rejected ≡ 3)
    × ((q : Anomaly Nano → Bool) → count_if q accepted ≤ count_if q three)
    × ((q : Anomaly Nano → Bool)
        → count_if (λ a. q a && not (is_adaptive a)) accepted
          ≡ count_if (λ a. q a && not (is_adaptive a)) three)
apply_fdr_accounts_example = apply_fdr_accounts target three 40

apply_fdr-IsCorrected_example :
    let candidates = select is_adaptive three in
    IsCorrected (family 40 candidates) target candidates (apply_fdr target three 40).0
apply_fdr-IsCorrected_example =
    apply_fdr-IsCorrected Nano-IsOrdered Nano-IsMonotone target refl refl three 40 refl
      (leb→le 40 max_int refl) candidate_numbers
