-- ===== src/Worker/Batch/Sound.antt =====
-- controller/cmd/worker/main.go: the reply of the worker to a batch.
use anomaly_detection.Prelude.{
  ℕ, ◌≤◌, ◌≡◌, refl, ap, String, Bool, false, List, [], ◌∷◌, ◌==◌, map, count_if, count_if-append,
  count_if-map, All, All-append, All-map, All-implies, arith, Bool-cases, inl, inr,
}
use anomaly_detection.Float64.{Float64}
use anomaly_detection.Detection.{Anomaly}
use anomaly_detection.Detection.Fdr.{is_adaptive}
use anomaly_detection.Suppression.{
  SuppressionConfig, Filter, new_filter, suppress_reason, namespace_reason, workload_identity,
  should_suppress, filter_anomalies,
}
use anomaly_detection.Suppression.Silenced.{IsSilenced, should_suppress_iff}
use anomaly_detection.Baseline.{BaselineConfig, HashStore, Strconv}
use anomaly_detection.Baseline.Store.{StoreState}
use anomaly_detection.Controller.Cycle.{received}
use anomaly_detection.Worker.{Reply, answered, failed, Backends, Job, JobRun, process_job}
use anomaly_detection.Worker.Batch.{
  AnomalyResult, JobResults, BatchState, batch_start, suppress_loop, anomaly_result, conclude,
  process_one, process_all, process_jobs,
}
use anomaly_detection.Worker.Within.{found, process_job-IsWithin}

module _ {F : Type 0} where
  -- the suppression loop keeps what `FilterAnomalies` does
  suppress_loop_lem :
      (f : Filter) (anomalies : List (Anomaly F)) (counted : List (String × String))
      → (suppress_loop f anomalies counted).0 ≡ filter_anomalies f anomalies
  unfolding suppress_loop filter_anomalies should_suppress
  suppress_loop_lem f [] counted = refl
  suppress_loop_lem f (a ∷ anomalies) counted = elim (Bool-cases (suppress_reason f a == "")) [
    | inl e ↦ rw e (ap (λ (xs : List (Anomaly F)). a ∷ xs) (suppress_loop_lem f anomalies counted))
    | inr e ↦ rw e (suppress_loop_lem f anomalies ((a.detector, suppress_reason f a) ∷ counted))
  ]

  filter_anomalies_unsuppressed :
      (f : Filter) (anomalies : List (Anomaly F))
      → All (λ a. should_suppress f a ≡ false) (filter_anomalies f anomalies)
  unfolding filter_anomalies
  filter_anomalies_unsuppressed f [] = tt
  filter_anomalies_unsuppressed f (a ∷ anomalies) = elim (Bool-cases (should_suppress f a)) [
    | inl e ↦ rw e (filter_anomalies_unsuppressed f anomalies)
    | inr e ↦ rw e (e, filter_anomalies_unsuppressed f anomalies)
  ]

  count_if-filter_anomalies :
      (q : Anomaly F → Bool) (f : Filter) (anomalies : List (Anomaly F))
      → count_if q (filter_anomalies f anomalies) ≤ count_if q anomalies
  unfolding filter_anomalies
  count_if-filter_anomalies q f [] = omega arith
  count_if-filter_anomalies q f (a ∷ anomalies) =
      ground (arith, count_if-filter_anomalies q f anomalies)

  -- the filter reads nothing that the wire loses
  should_suppress-received :
      (f : Filter) (id : String) (a : Anomaly F)
      → should_suppress f (received (anomaly_result id a)) ≡ should_suppress f a
  unfolding should_suppress suppress_reason namespace_reason workload_identity received
  should_suppress-received f id a = refl

  abbrev pub adaptive_result : AnomalyResult F → Bool
  adaptive_result r = r.detector == "adaptive"

  -- what holds of the reply so far: no anomaly in it is suppressed, and its adaptive ones are no
  -- more than the tests
  abbrev pub IsClean : Filter → JobResults F → Type 0
  IsClean f r =
      All (λ a. should_suppress f (received a) ≡ false) r.anomalies
      × (count_if adaptive_result r.anomalies ≤ r.adaptive_series_tested)

  kept_results_unsuppressed :
      (f : Filter) (id : String) (kept : List (Anomaly F))
      → All (λ a. should_suppress f a ≡ false) kept
      → All (λ a. should_suppress f (received a) ≡ false) (map (anomaly_result id) kept)
  unfolding should_suppress suppress_reason namespace_reason workload_identity received
  kept_results_unsuppressed f id kept h =
      All-map (λ a. should_suppress f (received a) ≡ false) (anomaly_result id) kept h

  -- what the suppression loop leaves of the anomalies of a job
  kept_of_job :
      ⦃fl : Float64 F⦄ (f : Filter) (id : String) (anomalies : List (Anomaly F))
      (counted : List (String × String))
      → let kept = map (anomaly_result id) (suppress_loop f anomalies counted).0 in
        All (λ a. should_suppress f (received a) ≡ false) kept
        × (count_if adaptive_result kept ≤ count_if is_adaptive anomalies)
  kept_of_job f id anomalies counted =
      let kept = filter_anomalies f anomalies in
      rw (suppress_loop_lem f anomalies counted) (
        kept_results_unsuppressed f id kept (filter_anomalies_unsuppressed f anomalies),
        omega (
          arith,
          count_if-map adaptive_result (anomaly_result id) kept,
          count_if-filter_anomalies is_adaptive f anomalies,
        ),
      )

module _ {F R W : Type 0} ⦃fl : Float64 F⦄ (conv : Strconv F) (hashes : HashStore R)
    (digest : String → String) (slot_of : ℕ → String) (cfg : BaselineConfig F) (filter : Filter)
    (backends : Backends F W) (unknown_job : ℕ → String) (now : ℕ) where
  conclude-IsClean :
      (job : Job F) (run : JobRun F R W) (reply : Reply (List (Anomaly F))) (b : BatchState F R W)
      → count_if is_adaptive (found reply) ≤ run.tested
      → IsClean filter b.results
      → IsClean filter
          (conclude conv hashes digest slot_of cfg filter backends unknown_job now job run reply
            b).results
  unfolding conclude
  conclude-IsClean job run (failed e) b h clean = (clean.0, omega (arith, clean.1))
  conclude-IsClean job run (answered anomalies) b h clean =
      let kept = map (anomaly_result job.id) (suppress_loop filter anomalies b.suppressed).0 in
      let (out, few) = kept_of_job filter job.id anomalies b.suppressed in
      (
        All-append (λ a. should_suppress filter (received a) ≡ false) b.results.anomalies kept
            clean.0 out,
        omega (arith, few, h, clean.1, count_if-append adaptive_result b.results.anomalies kept),
      )

  process_all-IsClean :
      (jobs : List (Job F)) (b : BatchState F R W)
      → IsClean filter b.results
      → IsClean filter
          (process_all conv hashes digest slot_of cfg filter backends unknown_job now jobs
            b).results
  unfolding process_all process_one
  process_all-IsClean [] b clean = clean
  process_all-IsClean (job ∷ jobs) b clean =
      let run =
        process_job conv hashes digest cfg backends unknown_job job.detection now b.cache b.store
          b.outside in
      process_all-IsClean jobs
        (process_one conv hashes digest slot_of cfg filter backends unknown_job now job b)
        (conclude-IsClean job run run.outcome b
          (process_job-IsWithin conv hashes digest cfg backends unknown_job job.detection now
            b.cache b.store b.outside)
          clean)

-- The reply of a worker to any batch, whatever Prometheus, Loki and Redis answer: the configuration
-- silences none of its anomalies as the controller reads them back, and the adaptive ones among
-- them are no more than the family size that it reports.
pub process_jobs_sound :
    {F R W : Type 0} ⦃fl : Float64 F⦄ (conv : Strconv F) (hashes : HashStore R)
    (digest : String → String) (slot_of : ℕ → String) (cfg : BaselineConfig F)
    (silenced : SuppressionConfig) (backends : Backends F W) (unknown_job : ℕ → String) (now : ℕ)
    (jobs : List (Job F)) (s : StoreState R) (w : W)
    → let reply =
        (process_jobs conv hashes digest slot_of cfg
          (new_filter silenced)
          backends
          unknown_job
          now
          jobs
          s
          w).results in
      All (λ a. ¬ IsSilenced silenced (received a)) reply.anomalies
      × (count_if is_adaptive (map received reply.anomalies) ≤ reply.adaptive_series_tested)
unfolding process_jobs received
process_jobs_sound {F = F} conv hashes digest slot_of cfg silenced backends unknown_job now jobs s
      w =
    let (clean, few) =
      process_all-IsClean conv hashes digest slot_of cfg (new_filter silenced) backends unknown_job
        now jobs (batch_start s w) (tt, omega arith) in
    (
      All-implies (λ a. should_suppress (new_filter silenced) (received a) ≡ false)
          (λ a. ¬ IsSilenced silenced (received a)) _
          (λ (a : AnomalyResult F) e silent.
            let hit = (should_suppress_iff silenced (received a)).1 silent in cc)
          clean,
      rw (count_if-map is_adaptive received _) few,
    )
