-- ===== src/Controller/Cycle.antt =====
-- controller/cmd/controller/main.go: `runCycle` from the reply of the workers on.
pub mod Accounts
use anomaly_detection.Prelude.{
  ℕ, ◌*◌, ◌^◌, String, Bool, true, false, ◌&&◌, Option, none, some, List, [], ◌∷◌, ◌==◌, map,
  length, ltb, if◌then◌else◌,
}
use anomaly_detection.Float64.{Float64}
use anomaly_detection.Labels.{Labels}
use anomaly_detection.Detection.{Anomaly}
use anomaly_detection.Detection.Direction.{filter_by_direction}
use anomaly_detection.Detection.Floor.{filter_by_floor}
use anomaly_detection.Detection.Fdr.{new_fdr, apply_fdr}
use anomaly_detection.Config.{DetectionConfig, direction_map, floor_map}
use anomaly_detection.Enrichment.Identity.{Identity}
use anomaly_detection.Controller.{DetectionJob, build_job_batch}
use anomaly_detection.Worker.{Reply, answered, failed}
use anomaly_detection.Worker.Batch.{AnomalyResult, JobResults}
use anomaly_detection.Correlation.Correlator.{CorrelatedAlert, Group, MlDetection}
use anomaly_detection.Correlation.Correlator.Pending.{add}
use anomaly_detection.Correlation.Correlator.Finalize.{DedupStore}
use anomaly_detection.Correlation.Correlator.Flush.{Correlator, flush}

-- What the filters before the correlator do to the anomalies of a cycle.
pub record Filtered (F : Type 0) : Type 0 where
  pub accepted : List (Anomaly F)
  pub direction_dropped : ℕ
  pub floor_dropped : ℕ
  pub rejected : ℕ

-- an anomaly of the workers' reply, read back
unfoldable pub received : {F : Type 0} → AnomalyResult F → Anomaly F
received r = record {
  metric_name = r.metric_name;
  labels = r.labels;
  value = r.current_value;
  mean = r.baseline_mean;
  stddev = r.baseline_stddev;
  score = r.anomaly_score;
  severity = r.severity;
  signal = r.signal;
  detector = r.detector;
  timestamp = r.timestamp * 10 ^ 9;
}

module _ {F : Type 0} ⦃fl : Float64 F⦄ where
  -- direction, then floor, then FDR
  unfoldable pub post_filter : DetectionConfig F → F → List (Anomaly F) → ℕ → Filtered F
  post_filter d target anomalies family =
      let directed = filter_by_direction anomalies (direction_map d) in
      let floored = filter_by_floor directed.0 (floor_map d) in
      let corrected = apply_fdr (new_fdr target) floored.0 family in
      record {
        accepted = corrected.0;
        direction_dropped = directed.1;
        floor_dropped = floored.1;
        rejected = corrected.1;
      }

  -- correlator.Add on each accepted anomaly; one reading of the clock stands for those of the loop
  unfoldable pub add_all : List (Anomaly F) → ℕ → List (String × Group F) → List (String × Group F)
  add_all [] now pending = pending
  add_all (a ∷ anomalies) now pending = add_all anomalies now (add a now pending)

  -- the ML verdict on an alert, which escalates a warning that it confirms
  unfoldable pub confirmed :
      {E : Type 0} → Option (MlDetection F) → CorrelatedAlert F E → CorrelatedAlert F E
  confirmed none ca = ca
  confirmed (some det) ca = record ca {
    severity = if det.is_anomaly && ca.severity == "warning" then "critical" else ca.severity;
    ml_detection = some det;
  }

  module _ {E D : Type 0} (detect : Anomaly F → Option E → Option (MlDetection F))
      (store : DedupStore D) (marshal : Labels → String) (digest : String → String)
      (enricher : Option (Identity → E)) where
    -- the ML step for an alert: `detect` is the service where it is enabled and answers, else none
    unfoldable pub with_ml : CorrelatedAlert F E → CorrelatedAlert F E
    unfolding confirmed
    with_ml ca = elim ca.anomalies [ [] ↦ ca | rep ∷ _ ↦ confirmed (detect rep ca.enrichment) ca ]

    -- `runCycle` from the reply of the workers to the alerts for the dispatcher; `none` is a panic
    unfoldable pub run_cycle :
        DetectionConfig F
        → F
        → List (Anomaly F)
        → ℕ
        → ℕ
        → Correlator F D
        → Option (List (CorrelatedAlert F E) × Correlator F D)
    unfolding with_ml
    run_cycle d target anomalies family now c =
        let filtered = post_filter d target anomalies family in
        let fed = record c { pending = add_all filtered.accepted now c.pending } in
        elim (flush store marshal digest enricher now fed) [
          | none ↦ none
          | some out ↦ some (map with_ml out.0, out.1)
        ]

    -- `runCycle` behind the call of the workers: a call that fails ends the cycle
    unfoldable pub after_call :
        DetectionConfig F
        → F
        → Reply (JobResults F)
        → ℕ
        → Correlator F D
        → Option (List (CorrelatedAlert F E) × Correlator F D)
    unfolding run_cycle
    after_call d target (failed e) now c = some ([], c)
    after_call d target (answered results) now c =
        run_cycle d target (map received results.anomalies) results.adaptive_series_tested now c

    -- `runCycle` on the jobs of the batch: without jobs there is no call
    unfoldable pub cycle_on :
        (List (DetectionJob F) → Reply (JobResults F))
        → DetectionConfig F
        → F
        → ℕ
        → Correlator F D
        → List (DetectionJob F)
        → Option (List (CorrelatedAlert F E) × Correlator F D)
    unfolding after_call
    cycle_on call d target now c [] = some ([], c)
    cycle_on call d target now c (job ∷ jobs) = after_call d target (call (job ∷ jobs)) now c

    -- `runCycle`
    unfoldable pub full_cycle :
        (List (DetectionJob F) → Reply (JobResults F))
        → DetectionConfig F
        → F
        → ℕ
        → Correlator F D
        → Option (List (CorrelatedAlert F E) × Correlator F D)
    unfolding cycle_on
    full_cycle call d target now c = cycle_on call d target now c (build_job_batch d)
