-- ===== src/Replay/Inject/Scorer/Missed.antt =====
-- controller/internal/replay/inject/scorer.go: which truths `Score` counts as false negatives.
use anomaly_detection.Prelude.{
  ℕ, suc, ◌≡◌, refl, Bool, true, not, ◌||◌, Option, none, some, List, [], ◌∷◌, map, select,
  count_if, ltb, arith, Bool-cases, inl, inr, if◌then◌else◌,
}
use anomaly_detection.Replay.Inject.{GroundTruth, target_fingerprint}
use anomaly_detection.Replay.Inject.Scorer.{
  DetectedAnomaly, Tracked, earliest, undetected, matches_truth, mark, classify, is_detected,
}

module _ {F : Type 0} where
  abbrev pub hits : ℕ → GroundTruth F → DetectedAnomaly → Bool
  hits grace gt a = matches_truth (target_fingerprint a.metric a.labels) a.timestamp grace gt

  abbrev pub is_hit : ℕ → GroundTruth F → List DetectedAnomaly → Bool
  is_hit grace gt anomalies = ltb 0 (count_if (hits grace gt) anomalies)

  -- how many truths are matched by no anomaly, where an anomaly counts for the first truth that it
  -- matches only
  unfoldable pub missed : ℕ → List DetectedAnomaly → List (GroundTruth F) → ℕ
  missed grace anomalies [] = 0
  missed grace anomalies (gt ∷ truths) =
      let rest = missed grace (select (λ a. not (hits grace gt a)) anomalies) truths in
      if is_hit grace gt anomalies then rest else suc rest

  is_detected-earliest :
      (gt : GroundTruth F) (s : Option ℕ) (t : ℕ) → is_detected (gt, earliest s t) ≡ true
  unfolding is_detected
  is_detected-earliest gt none t = refl
  is_detected-earliest gt (some s) t = refl

  -- the first truth takes the anomalies that match it, the others go on to the truths behind it
  classify_first :
      (grace : ℕ) (anomalies : List DetectedAnomaly) (gt : GroundTruth F) (s : Option ℕ)
      (xs : List (Tracked F))
      → (s' : Option ℕ) × ((classify grace anomalies ((gt, s) ∷ xs)).1
          ≡ (gt, s') ∷ (classify grace (select (λ a. not (hits grace gt a)) anomalies) xs).1)
        × (is_detected (gt, s') ≡ (is_detected (gt, s) || is_hit grace gt anomalies))
  unfolding classify mark
  classify_first grace [] gt s xs = (s, refl, ground arith)
  classify_first grace (a ∷ anomalies) gt s xs = elim (Bool-cases (hits grace gt a)) [
    | inl e ↦
        let (s', left, state) = classify_first grace anomalies gt (earliest s a.timestamp) xs in
        rw e (s', left, ground (arith, state, is_detected-earliest gt s a.timestamp))
    | inr e ↦
        let rest = (mark (target_fingerprint a.metric a.labels) a.timestamp grace xs).1 in
        let (s', left, state) = classify_first grace anomalies gt s rest in rw e (s', left, state)
  ]

  classify-nil :
      (grace : ℕ) (anomalies : List DetectedAnomaly) → (classify {F = F} grace anomalies []).1 ≡ []
  unfolding classify mark
  classify-nil grace [] = refl
  classify-nil grace (a ∷ anomalies) = classify-nil grace anomalies

  pub count_if-missed :
      (grace : ℕ) (anomalies : List DetectedAnomaly) (truths : List (GroundTruth F))
      → count_if (λ x. not (is_detected x)) (classify grace anomalies (map undetected truths)).1
        ≡ missed grace anomalies truths
  unfolding missed is_detected
  count_if-missed grace anomalies [] = rw (classify-nil grace anomalies) refl
  count_if-missed grace anomalies (gt ∷ truths) =
      let (s', left, state) = classify_first grace anomalies gt none (map undetected truths) in
      let rest = count_if-missed grace (select (λ a. not (hits grace gt a)) anomalies) truths in
      rw left (ground (arith, state, rest))
