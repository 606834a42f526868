-- ===== src/Replay/Inject/Scorer/Counts.antt =====
-- controller/internal/replay/inject/scorer.go: what the counts of `Score` count.
use anomaly_detection.Prelude.{
  ℕ, suc, ◌+◌, ◌-◌, ◌≤◌, ◌≡◌, refl, sym, ap, ◌∙◌, Bool, false, not, ◌||◌, List, [], ◌∷◌, length,
  map, count_if, arith, Bool-cases, inl, inr,
}
use anomaly_detection.Float64.{Float64}
use anomaly_detection.Replay.Inject.{GroundTruth, target_fingerprint}
use anomaly_detection.Replay.Inject.Scorer.{
  DetectedAnomaly, Tracked, undetected, matches_truth, mark, classify, is_detected, detected_only,
  share, score,
}
use anomaly_detection.Replay.Inject.Scorer.Missed.{missed, count_if-missed}

module _ {F : Type 0} where
  -- some truth has the target of the anomaly, and its time in the window with the grace
  abbrev pub is_true_positive : ℕ → List (GroundTruth F) → DetectedAnomaly → Bool
  is_true_positive grace [] a = false
  is_true_positive grace (gt ∷ truths) a =
      matches_truth (target_fingerprint a.metric a.labels) a.timestamp grace gt
      || is_true_positive grace truths a

  abbrev truths_of : List (Tracked F) → List (GroundTruth F)
  truths_of [] = []
  truths_of (x ∷ xs) = x.0 ∷ truths_of xs

  mark_lem :
      (a : DetectedAnomaly) (grace : ℕ) (xs : List (Tracked F))
      → let out = mark (target_fingerprint a.metric a.labels) a.timestamp grace xs in
        (out.0 ≡ is_true_positive grace (truths_of xs) a) × (truths_of out.1 ≡ truths_of xs)
  unfolding mark
  mark_lem a grace [] = (refl, refl)
  mark_lem a grace ((gt, s) ∷ xs) =
      let (same, kept) = mark_lem a grace xs in
      elim (Bool-cases
        (matches_truth (target_fingerprint a.metric a.labels) a.timestamp grace gt)) [
          | inl e ↦ rw e (refl, refl)
          | inr e ↦ rw e (same, ap (λ (ts : List (GroundTruth F)). gt ∷ ts) kept)
        ]

  classify_lem :
      (grace : ℕ) (anomalies : List DetectedAnomaly) (xs : List (Tracked F))
      → let out = classify grace anomalies xs in
        (out.0.0 ≡ count_if (is_true_positive grace (truths_of xs)) anomalies)
        × (out.0.0 + out.0.1 ≡ length anomalies)
        × (truths_of out.1 ≡ truths_of xs)
  unfolding classify
  classify_lem grace [] xs = (refl, omega arith, refl)
  classify_lem grace (a ∷ anomalies) xs =
      let fp = target_fingerprint a.metric a.labels in
      let out = mark fp a.timestamp grace xs in
      let (same, kept) = mark_lem a grace xs in
      let (tp, total, last) = classify_lem grace anomalies out.1 in
      let tp' = rw kept at tp in
      elim (Bool-cases out.0) [
        | inl e ↦ rw (e, sym same ∙ e) (ap suc tp', omega (arith, total), last ∙ kept)
        | inr e ↦ rw (e, sym same ∙ e) (tp', omega (arith, total), last ∙ kept)
      ]

  length-truths_of : (xs : List (Tracked F)) → length (truths_of xs) ≡ length xs
  length-truths_of [] = refl
  length-truths_of (x ∷ xs) = ap suc (length-truths_of xs)

  fresh-truths_of : (ts : List (GroundTruth F)) → truths_of (map undetected ts) ≡ ts
  fresh-truths_of [] = refl
  fresh-truths_of (t ∷ ts) = ap (λ (us : List (GroundTruth F)). t ∷ us) (fresh-truths_of ts)

  detected_or_not :
      (xs : List (Tracked F))
      → length (detected_only xs) + count_if (λ x. not (is_detected x)) xs ≡ length xs
  unfolding detected_only
  detected_or_not [] = omega arith
  detected_or_not (x ∷ xs) = ground (arith, detected_or_not xs)

  module _ ⦃fl : Float64 F⦄ where
    -- The true positives of `Score` are the anomalies that some truth matches, and all others are
    -- false positives; the false negatives are exactly the truths that no anomaly matches, where an
    -- anomaly counts for the first truth that it matches only, and the recall is the share of the
    -- other truths among the truths.
    pub score_counts :
        (anomalies : List DetectedAnomaly) (truths : List (GroundTruth F)) (grace : ℕ)
        → let r = score anomalies truths grace in
          (r.tp ≡ count_if (is_true_positive grace truths) anomalies)
          × (r.tp + r.fp ≡ length anomalies)
          × (r.fn ≡ missed grace anomalies truths)
          × (r.fn ≤ length truths)
          × (r.recall ≡ share (length truths - r.fn) (length truths))
    unfolding score
    score_counts anomalies truths grace =
        let start = map undetected truths in
        let marked = (classify grace anomalies start).1 in
        let (tp, total, last) = classify_lem grace anomalies start in
        let same = fresh-truths_of truths in
        let size : length marked ≡ length truths =
          sym (length-truths_of marked) ∙ ap length (last ∙ same) in
        let split = detected_or_not marked in
        (
          tp
              ∙ ap (λ (ts : List (GroundTruth F)). count_if (is_true_positive grace ts) anomalies)
                  same,
          total,
          count_if-missed grace anomalies truths,
          omega (arith, size, split),
          ap (λ (n : ℕ). share n (length truths)) (omega (arith, size, split)),
        )
