-- ===== src/Worker/Batch/Accounts.antt =====
-- controller/cmd/worker/main.go: what becomes of each job of a batch.
use anomaly_detection.Prelude.{
  ℕ, suc, ◌+◌, ◌≡◌, refl, String, Bool, true, List, [], ◌∷◌, ◌==◌, map, length, length-append,
  count_if, All, All-append, All-implies, arith, eq_iff,
}
use anomaly_detection.Float64.{Float64}
use anomaly_detection.Labels.{contains}
use anomaly_detection.Detection.{Anomaly}
use anomaly_detection.Suppression.{Filter}
use anomaly_detection.Baseline.{BaselineConfig, HashStore, Strconv}
use anomaly_detection.Baseline.Store.{StoreState}
use anomaly_detection.Controller.{JobType}
use anomaly_detection.Worker.{Reply, answered, failed, Backends, Job, JobRun, process_job}
use anomaly_detection.Worker.Batch.{
  JobError, BatchState, batch_start, conclude, process_one, process_all, process_jobs,
}

-- a call of the counter with the status "error"
abbrev pub is_error : JobType × String → Bool
is_error call = call.1 == "error"

-- the error of a job of the batch
abbrev pub IsOf : {F : Type 0} → List (Job F) → JobError → Type 0
IsOf jobs e = contains (map (λ j. j.id) jobs) e.job_id ≡ true

module _ {F : Type 0} where
  known :
      (job : Job F) (jobs : List (Job F))
      → All (λ j. contains (map (λ i. i.id) jobs) j.id ≡ true) jobs
      → All (λ j. contains (map (λ i. i.id) (job ∷ jobs)) j.id ≡ true) jobs
  unfolding contains
  known job jobs h =
      All-implies (λ j. contains (map (λ i. i.id) jobs) j.id ≡ true)
        (λ j. contains (map (λ i. i.id) (job ∷ jobs)) j.id ≡ true) jobs (λ j e. ground (arith, e)) h

  all_known : (jobs : List (Job F)) → All (λ j. contains (map (λ i. i.id) jobs) j.id ≡ true) jobs
  unfolding contains
  all_known [] = tt
  all_known (job ∷ jobs) =
      (rw ((eq_iff job.id job.id).1 refl) refl, known job jobs (all_known jobs))

module _ {F R W : Type 0} ⦃fl : Float64 F⦄ (conv : Strconv F) (hashes : HashStore R)
    (digest : String → String) (slot_of : ℕ → String) (cfg : BaselineConfig F) (filter : Filter)
    (backends : Backends F W) (unknown_job : ℕ → String) (now : ℕ) where
  -- a round counts its job once, and adds an error exactly if it counts one
  conclude_accounts :
      (job : Job F) (run : JobRun F R W) (reply : Reply (List (Anomaly F))) (b : BatchState F R W)
      → let b' =
          conclude conv hashes digest slot_of cfg filter backends unknown_job now job run reply b in
        (length b'.processed ≡ suc (length b.processed))
        × (length b'.results.errors + count_if is_error b.processed
            ≡ length b.results.errors + count_if is_error b'.processed)
  unfolding conclude
  conclude_accounts job run (failed e) b = (refl, omega (arith, length-append b.results.errors _))
  conclude_accounts job run (answered anomalies) b = (refl, omega arith)

  conclude-IsOf :
      (jobs : List (Job F)) (job : Job F) (run : JobRun F R W) (reply : Reply (List (Anomaly F)))
      (b : BatchState F R W)
      → contains (map (λ j. j.id) jobs) job.id ≡ true
      → All (IsOf jobs) b.results.errors
      → All
          (IsOf jobs)
          (conclude conv hashes digest slot_of cfg filter backends unknown_job now job run reply
            b).results.errors
  unfolding conclude
  conclude-IsOf jobs job run (failed e) b own h =
      All-append (IsOf jobs) b.results.errors _ h (own, tt)
  conclude-IsOf jobs job run (answered anomalies) b own h = h

  process_all_accounts :
      (all jobs : List (Job F)) (b : BatchState F R W)
      → All (λ j. contains (map (λ j. j.id) all) j.id ≡ true) jobs
      → All (IsOf all) b.results.errors
      → let b' =
          process_all conv hashes digest slot_of cfg filter backends unknown_job now jobs b in
        (length b'.processed ≡ length b.processed + length jobs)
        × (length b'.results.errors + count_if is_error b.processed
            ≡ length b.results.errors + count_if is_error b'.processed)
        × All (IsOf all) b'.results.errors
  unfolding process_all process_one
  process_all_accounts all [] b own h = (omega arith, refl, h)
  process_all_accounts all (job ∷ jobs) b own h =
      let run =
        process_job conv hashes digest cfg backends unknown_job job.detection now b.cache b.store
          b.outside in
      let next = process_one conv hashes digest slot_of cfg filter backends unknown_job now job b in
      let (n, k) = conclude_accounts job run run.outcome b in
      let (n', k', h') =
        process_all_accounts all jobs next own.1
          (conclude-IsOf all job run run.outcome b own.0 h) in
      (omega (arith, n, n'), omega (arith, k, k'), h')

  -- Each job of a batch is counted once, as a success or as an error; for each error counted, the
  -- reply has one entry, which names a job of the batch.
  pub process_jobs_accounts :
      (jobs : List (Job F)) (s : StoreState R) (w : W)
      → let b =
          process_jobs conv hashes digest slot_of cfg filter backends unknown_job now jobs s w in
        (length b.processed ≡ length jobs)
        × (length b.results.errors ≡ count_if is_error b.processed)
        × All (IsOf jobs) b.results.errors
  unfolding process_jobs
  process_jobs_accounts jobs s w =
      let (n, k, h) = process_all_accounts jobs jobs (batch_start s w) (all_known jobs) tt in
      (omega (arith, n), omega (arith, k), h)
