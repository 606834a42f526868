-- ===== src/Controller/Cycle/Accounts.antt =====
-- controller/cmd/controller/main.go: the filters of a cycle account for every anomaly, and a cycle
-- does not panic.
use anomaly_detection.Prelude.{
  ℕ, ◌+◌, ◌≡◌, refl, String, Option, some, List, [], ◌∷◌, map, length, All, arith,
}
use anomaly_detection.Float64.{Float64}
use anomaly_detection.Labels.{Labels}
use anomaly_detection.Detection.{Anomaly}
use anomaly_detection.Detection.Direction.{filter_by_direction}
use anomaly_detection.Detection.Direction.Kept.{filter_by_direction_lem}
use anomaly_detection.Detection.Floor.{filter_by_floor}
use anomaly_detection.Detection.Floor.Kept.{filter_by_floor_lem}
use anomaly_detection.Detection.Fdr.{new_fdr}
use anomaly_detection.Detection.Fdr.Apply.{apply_fdr_accounts}
use anomaly_detection.Config.{DetectionConfig, direction_map, floor_map}
use anomaly_detection.Enrichment.Identity.{Identity}
use anomaly_detection.Correlation.Correlator.{CorrelatedAlert, Group, MlDetection}
use anomaly_detection.Correlation.Correlator.Pending.{IsKeyed, add, add_keeps}
use anomaly_detection.Correlation.Correlator.Finalize.{DedupStore}
use anomaly_detection.Correlation.Correlator.Flush.{Correlator}
use anomaly_detection.Correlation.Correlator.Flush.Total.{flush_total}
use anomaly_detection.Controller.Cycle.{
  post_filter, add_all, received, with_ml, run_cycle, after_call, cycle_on, full_cycle,
}
use anomaly_detection.Controller.{DetectionJob, build_job_batch}
use anomaly_detection.Worker.{Reply, answered, failed}
use anomaly_detection.Worker.Batch.{JobResults}

module _ {F : Type 0} ⦃fl : Float64 F⦄ where
  -- Every anomaly of a cycle is accepted, or counted as dropped by one of the three filters.
  pub post_filter_accounts :
      (d : DetectionConfig F) (target : F) (anomalies : List (Anomaly F)) (family : ℕ)
      → let r = post_filter d target anomalies family in
        length r.accepted + r.direction_dropped + r.floor_dropped + r.rejected ≡ length anomalies
  unfolding post_filter
  post_filter_accounts d target anomalies family =
      let directed = filter_by_direction anomalies (direction_map d) in
      let floored = filter_by_floor directed.0 (floor_map d) in
      omega (
        arith,
        (filter_by_direction_lem anomalies (direction_map d)).1,
        (filter_by_floor_lem directed.0 (floor_map d)).1,
        (apply_fdr_accounts (new_fdr target) floored.0 family).0,
      )

  add_all-IsKeyed :
      (anomalies : List (Anomaly F)) (now : ℕ) (pending : List (String × Group F))
      → All IsKeyed pending
      → All IsKeyed (add_all anomalies now pending)
  unfolding add_all
  add_all-IsKeyed [] now pending h = h
  add_all-IsKeyed (a ∷ anomalies) now pending h =
      add_all-IsKeyed anomalies now (add a now pending) (add_keeps a now pending h).0

  -- A cycle that starts on well-keyed pending groups does not panic, whatever the workers reply and
  -- the ML service and the deduplication store answer, and leaves well-keyed groups for the next.
  pub run_cycle_total :
      {E D : Type 0} (detect : Anomaly F → Option E → Option (MlDetection F)) (store : DedupStore D)
      (marshal : Labels → String) (digest : String → String) (enricher : Option (Identity → E))
      (d : DetectionConfig F) (target : F) (anomalies : List (Anomaly F)) (family now : ℕ)
      (c : Correlator F D)
      → All IsKeyed c.pending
      → (out : List (CorrelatedAlert F E)) × (c' : Correlator F D) × (run_cycle detect store marshal
            digest enricher d target anomalies family now c
          ≡ some (out, c'))
        × All IsKeyed c'.pending
  unfolding run_cycle
  run_cycle_total detect store marshal digest enricher d target anomalies family now c h =
      let filtered = post_filter d target anomalies family in
      let fed = record c { pending = add_all filtered.accepted now c.pending } in
      let (out, c', done, same, keyed) =
        flush_total store marshal digest enricher now fed
          (add_all-IsKeyed filtered.accepted now c.pending h) in
      rw (done, run_cycle) (map (with_ml detect store marshal digest enricher) out, c', refl, keyed)

  after_call_total :
      {E D : Type 0} (detect : Anomaly F → Option E → Option (MlDetection F)) (store : DedupStore D)
      (marshal : Labels → String) (digest : String → String) (enricher : Option (Identity → E))
      (d : DetectionConfig F) (target : F) (reply : Reply (JobResults F)) (now : ℕ)
      (c : Correlator F D)
      → All IsKeyed c.pending
      → (out : List (CorrelatedAlert F E)) × (c' : Correlator F D) × (after_call detect store
            marshal digest enricher d target reply now c
          ≡ some (out, c'))
        × All IsKeyed c'.pending
  unfolding after_call
  after_call_total detect store marshal digest enricher d target (failed e) now c h =
      ([], c, refl, h)
  after_call_total detect store marshal digest enricher d target (answered results) now c h =
      run_cycle_total detect store marshal digest enricher d target (map received results.anomalies)
        results.adaptive_series_tested now c h

  full_cycle_of_jobs :
      {E D : Type 0} (detect : Anomaly F → Option E → Option (MlDetection F)) (store : DedupStore D)
      (marshal : Labels → String) (digest : String → String) (enricher : Option (Identity → E))
      (call : List (DetectionJob F) → Reply (JobResults F)) (d : DetectionConfig F) (target : F)
      (now : ℕ) (c : Correlator F D) (jobs : List (DetectionJob F))
      → All IsKeyed c.pending
      → (out : List (CorrelatedAlert F E)) × (c' : Correlator F D) × (cycle_on detect store marshal
            digest enricher call d target now c jobs
          ≡ some (out, c'))
        × All IsKeyed c'.pending
  unfolding cycle_on
  full_cycle_of_jobs detect store marshal digest enricher call d target now c [] h =
      ([], c, refl, h)
  full_cycle_of_jobs detect store marshal digest enricher call d target now c (job ∷ jobs) h =
      after_call_total detect store marshal digest enricher d target (call (job ∷ jobs)) now c h

  -- A whole cycle that starts on well-keyed pending groups does not panic and leaves well-keyed
  -- groups: on a configuration without jobs, on a call of the workers that fails, and on any reply,
  -- whatever the ML service and the deduplication store answer.
  pub full_cycle_total :
      {E D : Type 0} (detect : Anomaly F → Option E → Option (MlDetection F)) (store : DedupStore D)
      (marshal : Labels → String) (digest : String → String) (enricher : Option (Identity → E))
      (call : List (DetectionJob F) → Reply (JobResults F)) (d : DetectionConfig F) (target : F)
      (now : ℕ) (c : Correlator F D)
      → All IsKeyed c.pending
      → (out : List (CorrelatedAlert F E)) × (c' : Correlator F D) × (full_cycle detect store
            marshal digest enricher call d target now c
          ≡ some (out, c'))
        × All IsKeyed c'.pending
  unfolding full_cycle
  full_cycle_total detect store marshal digest enricher call d target now c h =
      full_cycle_of_jobs detect store marshal digest enricher call d target now c
        (build_job_batch d) h
