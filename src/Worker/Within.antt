-- ===== src/Worker/Within.antt =====
-- controller/cmd/worker/main.go: a job raises no more adaptive anomalies than it tests.
use anomaly_detection.Prelude.{
  ℕ, ◌≤◌, ◌≡◌, refl, String, Bool, List, [], ◌∷◌, map, length, length-map, count_if, arith,
  Bool-cases, inl, inr,
}
use anomaly_detection.Float64.{Float64}
use anomaly_detection.Detection.{Anomaly, Sample}
use anomaly_detection.Detection.Static.{StaticRule, breaches, evaluate_static, static_anomaly}
use anomaly_detection.Detection.Adaptive.{as_log, evaluate_adaptive, evaluate_log_rate}
use anomaly_detection.Detection.Adaptive.Family.{
  could_fire, fires, outcomes, evaluate_adaptive_counts,
}
use anomaly_detection.Detection.Fdr.{is_adaptive}
use anomaly_detection.Baseline.{
  BaselineConfig, HashStore, Strconv, Outcome, evaluated, load_failed, save_failed,
}
use anomaly_detection.Baseline.Store.{StoreState}
use anomaly_detection.Controller.{
  JobType, metrics_static, metrics_adaptive, logs, unknown_type, DetectionJob,
}
use anomaly_detection.Worker.{
  Reply, answered, failed, Backends, Cache, JobRun, process_job, process_job_of, run_static,
  run_adaptive, run_logs, store_evaluator, cached_query_vm, loki_after_wait,
}

module _ {F : Type 0} where
  -- the anomalies of a reply; a failed one has none
  abbrev pub found : Reply (List (Anomaly F)) → List (Anomaly F)
  found (answered anomalies) = anomalies
  found (failed e) = []

  length-count_if : (q : Anomaly F → Bool) (xs : List (Anomaly F)) → count_if q xs ≤ length xs
  length-count_if q [] = omega arith
  length-count_if q (x ∷ xs) = ground (arith, length-count_if q xs)

  count_if-fires : (os : List (Outcome F)) → count_if fires os ≤ count_if could_fire os
  count_if-fires [] = omega arith
  count_if-fires (evaluated r ∷ os) = ground (arith, count_if-fires os)
  count_if-fires (load_failed ∷ os) = count_if-fires os
  count_if-fires (save_failed ∷ os) = count_if-fires os

module _ {F : Type 0} ⦃fl : Float64 F⦄ where
  evaluate_static_none :
      (rule : StaticRule F) (now : ℕ) (samples : List (Sample F))
      → count_if is_adaptive (evaluate_static rule now samples) ≡ 0
  unfolding evaluate_static static_anomaly
  evaluate_static_none rule now [] = refl
  evaluate_static_none rule now (s ∷ samples) =
      elim (Bool-cases (breaches s.value rule.threshold rule.operator)) [
        | inl e ↦ rw e (evaluate_static_none rule now samples)
        | inr e ↦ rw e (evaluate_static_none rule now samples)
      ]

  module _ {R W : Type 0} where
    -- a run of a job: no more adaptive anomalies than tests
    abbrev pub IsWithin : JobRun F R W → Type 0
    IsWithin run = count_if is_adaptive (found run.outcome) ≤ run.tested

    run_static-IsWithin :
        (d : DetectionJob F) (now : ℕ) (s : StoreState R)
        (reply : Reply (List (Sample F)) × (Cache F × W))
        → IsWithin (run_static d now s reply)
    unfolding run_static
    run_static-IsWithin d now s (answered samples, rest) =
        omega (arith, evaluate_static_none _ now samples)
    run_static-IsWithin d now s (failed e, rest) = omega arith

  module _ {R : Type 0} (conv : Strconv F) (hashes : HashStore R) (digest : String → String)
      (cfg : BaselineConfig F) where
    -- the adaptive detector fires no more often than it tests
    adaptive_within :
        (metric : String) (now : ℕ) (samples : List (Sample F)) (s : StoreState R)
        → let ((out, tested), last) =
            evaluate_adaptive (store_evaluator conv hashes digest cfg) metric now samples s in
          length out ≤ tested
    adaptive_within metric now samples s =
        let store = store_evaluator conv hashes digest cfg in
        let (n, k, h) = evaluate_adaptive_counts store metric now samples s in
        omega (arith, n, k, count_if-fires (outcomes store metric now samples s))

    run_adaptive-IsWithin :
        {W : Type 0} (d : DetectionJob F) (now : ℕ) (s : StoreState R)
        (reply : Reply (List (Sample F)) × (Cache F × W))
        → IsWithin (run_adaptive conv hashes digest cfg d now s reply)
    unfolding run_adaptive
    run_adaptive-IsWithin d now s (answered samples, rest) = omega (
      arith,
      adaptive_within d.name now samples s,
      length-count_if is_adaptive
          (evaluate_adaptive (store_evaluator conv hashes digest cfg) d.name now samples s).0.0,
    )
    run_adaptive-IsWithin d now s (failed e, rest) = omega arith

    run_logs-IsWithin :
        {W : Type 0} (d : DetectionJob F) (now : ℕ) (cache : Cache F) (s : StoreState R)
        (reply : Reply (List (Sample F)) × W)
        → IsWithin (run_logs conv hashes digest cfg d now cache s reply)
    unfolding run_logs evaluate_log_rate
    run_logs-IsWithin d now cache s (answered samples, w) =
        let out =
          (evaluate_adaptive (store_evaluator conv hashes digest cfg) d.name now samples s).0.0 in
        omega (
          arith,
          adaptive_within d.name now samples s,
          length-count_if is_adaptive (map as_log out),
          length-map as_log out,
        )
    run_logs-IsWithin d now cache s (failed e, w) = omega arith

    process_job_of-IsWithin :
        {W : Type 0} (t : JobType) (backends : Backends F W) (unknown_job : ℕ → String)
        (d : DetectionJob F) (now : ℕ) (cache : Cache F) (s : StoreState R) (w : W)
        → IsWithin (process_job_of conv hashes digest cfg t backends unknown_job d now cache s w)
    unfolding process_job_of
    process_job_of-IsWithin metrics_static backends unknown_job d now cache s w =
        run_static-IsWithin d now s (cached_query_vm backends d.query cache w)
    process_job_of-IsWithin metrics_adaptive backends unknown_job d now cache s w =
        run_adaptive-IsWithin d now s (cached_query_vm backends d.query cache w)
    process_job_of-IsWithin logs backends unknown_job d now cache s w =
        run_logs-IsWithin d now cache s (loki_after_wait backends d.query (backends.loki_wait w))
    process_job_of-IsWithin (unknown_type n) backends unknown_job d now cache s w = omega arith

    pub process_job-IsWithin :
        {W : Type 0} (backends : Backends F W) (unknown_job : ℕ → String) (d : DetectionJob F)
        (now : ℕ) (cache : Cache F) (s : StoreState R) (w : W)
        → IsWithin (process_job conv hashes digest cfg backends unknown_job d now cache s w)
    unfolding process_job
    process_job-IsWithin backends unknown_job d now cache s w =
        process_job_of-IsWithin d.job_type backends unknown_job d now cache s w
