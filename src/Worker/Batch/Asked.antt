-- ===== src/Worker/Batch/Asked.antt =====
-- controller/cmd/worker/main.go: the cache of a batch, against what Prometheus counts.
use anomaly_detection.Prelude.{
  ℕ, suc, ◌+◌, ◌≤◌, ◌≡◌, refl, ap, ◌∙◌, String, Bool, true, false, ◌&&◌, Option, none, some, List,
  [], ◌∷◌, ◌==◌, arith, Bool-cases, inl, inr, eq_iff, if◌then◌else◌,
}
use anomaly_detection.Float64.{Float64}
use anomaly_detection.Labels.{lookup, lookup-insert}
use anomaly_detection.Detection.{Anomaly, Sample}
use anomaly_detection.Suppression.{Filter}
use anomaly_detection.Baseline.{BaselineConfig, HashStore, Strconv}
use anomaly_detection.Baseline.Store.{StoreState}
use anomaly_detection.Controller.{
  JobType, metrics_static, metrics_adaptive, logs, unknown_type, DetectionJob,
}
use anomaly_detection.Worker.{
  Reply, answered, failed, Backends, Job, Cache, JobRun, keep_answer, query_after_wait,
  cached_or_asked, cached_query_vm, loki_after_wait, process_job, process_job_of, run_static,
  run_adaptive, run_logs,
}
use anomaly_detection.Worker.Batch.{
  BatchState, batch_start, conclude, process_one, process_all, process_jobs,
}

abbrev pub is_answered : {A : Type 0} → Reply A → Bool
is_answered (answered a) = true
is_answered (failed e) = false

-- The world counts the queries to Prometheus that it answers, by their texts: a query adds one to
-- its text if it is answered, and nothing else changes a count.
pub record IsCounting {F W : Type 0} (backends : Backends F W) (answers : W → String → ℕ)
    : Type 0 where
  pub vm_waits : (w : W) (q : String) → answers (backends.vm_wait w).1 q ≡ answers w q
  pub loki_waits : (w : W) (q : String) → answers (backends.loki_wait w).1 q ≡ answers w q
  pub loki_queries :
      (query : String) (w : W) (q : String)
      → answers (backends.loki_query query w).1 q ≡ answers w q
  pub vm_queries :
      (query : String) (w : W) (q : String)
      → let (reply, w') = backends.vm_query query w in
        answers w' q ≡ answers w q + (if query == q && is_answered reply then 1 else 0)

module _ {F W : Type 0} (backends : Backends F W) (answers : W → String → ℕ)
    (counting : IsCounting backends answers) (q : String) where
  -- one for a text that the cache does not hold
  abbrev missing : Option (List (Sample F)) → ℕ
  missing none = 1
  missing (some samples) = 0

  -- what stays the same: the count, and one more while the text is not in the cache
  abbrev potential : Cache F → W → ℕ
  potential cache w = answers w q + missing (lookup q cache)

  keep_answer_keeps :
      (query : String) (cache : Cache F) (w : W) (reply : Reply (List (Sample F)) × W)
      → lookup query cache ≡ none
      → answers reply.1 q ≡ answers w q + (if query == q && is_answered reply.0 then 1 else 0)
      → let (out, (cache', w')) = keep_answer backends query cache reply in
        potential cache' w' ≡ potential cache w
  unfolding keep_answer
  keep_answer_keeps query cache w (answered samples, w') new count =
      elim (Bool-cases (query == q)) [
        | inl e ↦
            let old : lookup q cache ≡ none = rw (← (eq_iff query q).0 e) new in
            rw (lookup-insert query q samples cache, e, old) (omega (arith, rw e at count))
        | inr e ↦ rw (lookup-insert query q samples cache, e) (omega (arith, rw e at count))
      ]
  keep_answer_keeps query cache w (failed e, w') new count = ground (arith, count)

  query_after_wait_keeps :
      (query : String) (cache : Cache F) (w : W) (wait : Option String × W)
      → lookup query cache ≡ none
      → answers wait.1 q ≡ answers w q
      → let (out, (cache', w')) = query_after_wait backends query cache wait in
        potential cache' w' ≡ potential cache w
  unfolding query_after_wait
  query_after_wait_keeps query cache w (some e, w') new same = omega (arith, same)
  query_after_wait_keeps query cache w (none, w') new same =
      let step =
        keep_answer_keeps query cache w' (backends.vm_query query w') new
          (counting.vm_queries query w' q) in
      omega (arith, same, step)

  cached_or_asked_keeps :
      (query : String) (cache : Cache F) (w : W) (held : Option (List (Sample F)))
      → lookup query cache ≡ held
      → let (out, (cache', w')) = cached_or_asked backends query cache w held in
        potential cache' w' ≡ potential cache w
  unfolding cached_or_asked
  cached_or_asked_keeps query cache w (some samples) h = refl
  cached_or_asked_keeps query cache w none h =
      query_after_wait_keeps query cache w (backends.vm_wait w) h (counting.vm_waits w q)

  cached_query_vm_keeps :
      (query : String) (cache : Cache F) (w : W)
      → let (out, (cache', w')) = cached_query_vm backends query cache w in
        potential cache' w' ≡ potential cache w
  unfolding cached_query_vm
  cached_query_vm_keeps query cache w =
      cached_or_asked_keeps query cache w (lookup query cache) refl

  loki_same :
      (query : String) (w : W) (wait : Option String × W)
      → answers wait.1 q ≡ answers w q
      → answers (loki_after_wait backends query wait).1 q ≡ answers w q
  unfolding loki_after_wait
  loki_same query w (some e, w') same = same
  loki_same query w (none, w') same = counting.loki_queries query w' q ∙ same

  module _ {R : Type 0} ⦃fl : Float64 F⦄ (conv : Strconv F) (hashes : HashStore R)
      (digest : String → String) (cfg : BaselineConfig F) (unknown_job : ℕ → String) (now : ℕ) where
    run_static_keeps :
        (d : DetectionJob F) (s : StoreState R) (reply : Reply (List (Sample F)) × (Cache F × W))
        → let run = run_static d now s reply in
          potential run.cache run.outside ≡ potential reply.1.0 reply.1.1
    unfolding run_static
    run_static_keeps d s (answered samples, rest) = refl
    run_static_keeps d s (failed e, rest) = refl

    run_adaptive_keeps :
        (d : DetectionJob F) (s : StoreState R) (reply : Reply (List (Sample F)) × (Cache F × W))
        → let run = run_adaptive conv hashes digest cfg d now s reply in
          potential run.cache run.outside ≡ potential reply.1.0 reply.1.1
    unfolding run_adaptive
    run_adaptive_keeps d s (answered samples, rest) = refl
    run_adaptive_keeps d s (failed e, rest) = refl

    run_logs_keeps :
        (d : DetectionJob F) (cache : Cache F) (s : StoreState R)
        (reply : Reply (List (Sample F)) × W)
        → let run = run_logs conv hashes digest cfg d now cache s reply in
          potential run.cache run.outside ≡ potential cache reply.1
    unfolding run_logs
    run_logs_keeps d cache s (answered samples, w) = refl
    run_logs_keeps d cache s (failed e, w) = refl

    process_job_of_keeps :
        (t : JobType) (d : DetectionJob F) (cache : Cache F) (s : StoreState R) (w : W)
        → let run = process_job_of conv hashes digest cfg t backends unknown_job d now cache s w in
          potential run.cache run.outside ≡ potential cache w
    unfolding process_job_of
    process_job_of_keeps metrics_static d cache s w =
        run_static_keeps d s (cached_query_vm backends d.query cache w)
        ∙ cached_query_vm_keeps d.query cache w
    process_job_of_keeps metrics_adaptive d cache s w =
        run_adaptive_keeps d s (cached_query_vm backends d.query cache w)
        ∙ cached_query_vm_keeps d.query cache w
    process_job_of_keeps logs d cache s w =
        let reply = loki_after_wait backends d.query (backends.loki_wait w) in
        run_logs_keeps d cache s reply
        ∙ ap (λ n. n + missing (lookup q cache))
            (loki_same d.query w (backends.loki_wait w) (counting.loki_waits w q))
    process_job_of_keeps (unknown_type n) d cache s w = refl

    module _ (slot_of : ℕ → String) (filter : Filter) where
      conclude_keeps :
          (job : Job F) (run : JobRun F R W) (reply : Reply (List (Anomaly F)))
          (b : BatchState F R W)
          → let b' =
              conclude conv hashes digest slot_of cfg filter backends unknown_job now job run reply
                b in
            potential b'.cache b'.outside ≡ potential run.cache run.outside
      unfolding conclude
      conclude_keeps job run (answered anomalies) b = refl
      conclude_keeps job run (failed e) b = refl

      process_all_keeps :
          (jobs : List (Job F)) (b : BatchState F R W)
          → let b' =
              process_all conv hashes digest slot_of cfg filter backends unknown_job now jobs b in
            potential b'.cache b'.outside ≡ potential b.cache b.outside
      unfolding process_all process_one process_job
      process_all_keeps [] b = refl
      process_all_keeps (job ∷ jobs) b =
          let run =
            process_job conv hashes digest cfg backends unknown_job job.detection now b.cache
              b.store b.outside in
          process_all_keeps jobs
            (process_one conv hashes digest slot_of cfg filter backends unknown_job now job b)
          ∙ conclude_keeps job run run.outcome b
          ∙ process_job_of_keeps job.detection.job_type job.detection b.cache b.store b.outside

      -- Over a world that counts what Prometheus answers: a batch, however many jobs share a query
      -- text, has Prometheus answer that text at most once.
      pub process_jobs_asks_once :
          (jobs : List (Job F)) (s : StoreState R) (w : W)
          → answers
              (process_jobs conv hashes digest slot_of cfg filter backends unknown_job now jobs s
                w).outside
              q
            ≤ suc (answers w q)
      unfolding process_jobs lookup
      process_jobs_asks_once jobs s w = omega (arith, process_all_keeps jobs (batch_start s w))
