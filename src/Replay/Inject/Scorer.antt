-- ===== src/Replay/Inject/Scorer.antt =====
-- controller/internal/replay/inject/scorer.go: `Score`.
pub mod Missed
pub mod Counts
use Prim.Native.String.{◌++◌}
use anomaly_detection.Prelude.{
  ℕ, suc, ◌+◌, ◌-◌, ◌*◌, String, Bool, true, false, not, ◌&&◌, ◌||◌, List, [], ◌∷◌, length, map,
  ◌==◌, Option, none, some, leb, ltb, nat_beq, count_if, if◌then◌else◌,
}
use anomaly_detection.Float64.{Float64}
use anomaly_detection.Labels.{Labels, lookup, insert}
use anomaly_detection.Replay.Inject.{GroundTruth, target_fingerprint}

pub record DetectedAnomaly : Type 0 where
  pub metric : String
  pub labels : Labels
  pub timestamp : ℕ

-- Latencies are nanoseconds here, and seconds in the program.
pub record ScoringResult (F : Type 0) : Type 0 where
  pub precision : F
  pub recall : F
  pub f1 : F
  pub tp : ℕ
  pub fp : ℕ
  pub fn : ℕ
  pub recall_by_type : List (String × F)
  pub detection_latency : List (String × ℕ)

-- a truth with its state: the first detection, none while it is not detected
abbrev pub Tracked : Type 0 → Type 0
Tracked F = GroundTruth F × Option ℕ

-- the earlier of the detections
abbrev pub earliest : Option ℕ → ℕ → Option ℕ
earliest none t = some t
earliest (some s) t = some (if ltb t s then t else s)

abbrev count_of : Option ℕ → ℕ
count_of none = 0
count_of (some n) = n

module _ {F : Type 0} where
  abbrev pub undetected : GroundTruth F → Tracked F
  undetected gt = (gt, none)

  -- the target of the truth, inside its window with the grace
  unfoldable pub matches_truth : String → ℕ → ℕ → GroundTruth F → Bool
  matches_truth fp t grace gt = fp == gt.target && (leb gt.start t && leb t (gt.end + grace))

  -- the loop over the truths, which stops at the first match
  unfoldable pub mark : String → ℕ → ℕ → List (Tracked F) → Bool × List (Tracked F)
  unfolding matches_truth
  mark fp t grace [] = (false, [])
  mark fp t grace ((gt, state) ∷ truths) =
      let (matched, rest) = mark fp t grace truths in
      if matches_truth fp t grace gt
      then (true, (gt, earliest state t) ∷ truths)
      else (matched, (gt, state) ∷ rest)

  -- the loop over the anomalies: true and false positives, and the truths with their states
  unfoldable pub classify : ℕ → List DetectedAnomaly → List (Tracked F) → (ℕ × ℕ) × List (Tracked F)
  unfolding mark
  classify grace [] truths = ((0, 0), truths)
  classify grace (a ∷ anomalies) truths =
      let (matched, truths') =
        mark (target_fingerprint a.metric a.labels) a.timestamp grace truths in
      let ((tp, fp), last) = classify grace anomalies truths' in
      (if matched then (suc tp, fp) else (tp, suc fp), last)

  unfoldable pub is_detected : Tracked F → Bool
  is_detected (gt, none) = false
  is_detected (gt, some t) = true

  -- m[k]++ for each of the truths
  unfoldable pub count_types : List (Tracked F) → List (String × ℕ) → List (String × ℕ)
  count_types [] m = m
  count_types ((gt, s) ∷ truths) m =
      count_types truths (insert gt.fault_type (suc (count_of (lookup gt.fault_type m))) m)

  unfoldable pub detected_only : List (Tracked F) → List (Tracked F)
  unfolding is_detected
  detected_only [] = []
  detected_only (x ∷ truths) =
      let rest = detected_only truths in if is_detected x then x ∷ rest else rest

  -- the latency of each detected truth, under its target and type
  unfoldable pub latencies : List (Tracked F) → List (String × ℕ) → List (String × ℕ)
  latencies [] m = m
  latencies ((gt, none) ∷ truths) m = latencies truths m
  latencies ((gt, some t) ∷ truths) m =
      latencies truths (insert (gt.target ++ ("/" ++ gt.fault_type)) (t - gt.start) m)

  module _ ⦃fl : Float64 F⦄ where
    unfoldable pub recalls : List (String × ℕ) → List (String × ℕ) → List (String × F)
    recalls detected [] = []
    recalls detected ((k, total) ∷ totals) =
        let rest = recalls detected totals in
        if ltb 0 total
        then (k, fl.div (fl.lit (count_of (lookup k detected)) 1) (fl.lit total 1)) ∷ rest
        else rest

    -- n / d, or zero for an empty denominator
    unfoldable pub share : ℕ → ℕ → F
    share n d = if ltb 0 d then fl.div (fl.lit n 1) (fl.lit d 1) else fl.lit 0 1

    unfoldable pub f1_of : F → F → F
    f1_of precision recall =
        if fl.lt (fl.lit 0 1) (fl.add precision recall)
        then fl.div (fl.mul (fl.mul (fl.lit 2 1) precision) recall) (fl.add precision recall)
        else fl.lit 0 1

    -- `Score`; its early return for no truths and no anomalies gives the same zeroes
    unfoldable pub score : List DetectedAnomaly → List (GroundTruth F) → ℕ → ScoringResult F
    unfolding classify count_types detected_only latencies recalls share f1_of
    score anomalies truths grace =
        let ((tp, fp), marked) = classify grace anomalies (map undetected truths) in
        let found = detected_only marked in
        let precision = share tp (tp + fp) in
        let recall = share (length found) (length truths) in
        record {
          precision = precision;
          recall = recall;
          f1 = f1_of precision recall;
          tp = tp;
          fp = fp;
          fn = count_if (λ x. not (is_detected x)) marked;
          recall_by_type = recalls (count_types found []) (count_types marked []);
          detection_latency = latencies marked [];
        }
