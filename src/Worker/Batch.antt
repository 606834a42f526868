-- ===== src/Worker/Batch.antt =====
-- controller/cmd/worker/main.go: `ProcessJobs`, the batch of the controller. One reading of the
-- clock stands for those of a batch.
pub mod Asked
pub mod Accounts
pub mod Sound
use anomaly_detection.Prelude.{
  ℕ, suc, ◌+◌, ◌/◌, ◌^◌, String, List, [], ◌∷◌, ◌++◌, ◌==◌, map, if◌then◌else◌,
}
use anomaly_detection.Float64.{Float64}
use anomaly_detection.Labels.{Labels}
use anomaly_detection.Detection.{Anomaly}
use anomaly_detection.Suppression.{Filter, suppress_reason}
use anomaly_detection.Baseline.{BaselineConfig, HashStore, Strconv}
use anomaly_detection.Baseline.Seasonal.{seasonal_update}
use anomaly_detection.Baseline.Store.{StoreState}
use anomaly_detection.Controller.{JobType}
use anomaly_detection.Worker.{Reply, answered, failed, Backends, Job, Cache, JobRun, process_job}

-- pb.AnomalyResult; the timestamp is in seconds
pub record AnomalyResult (F : Type 0) : Type 0 where
  pub job_id : String
  pub metric_name : String
  pub labels : Labels
  pub current_value : F
  pub baseline_mean : F
  pub baseline_stddev : F
  pub anomaly_score : F
  pub severity : String
  pub signal : String
  pub detector : String
  pub timestamp : ℕ

-- pb.JobError
pub record JobError : Type 0 where
  pub job_id : String
  pub error : String

-- pb.JobResults
pub record JobResults (F : Type 0) : Type 0 where
  pub anomalies : List (AnomalyResult F)
  pub errors : List JobError
  pub adaptive_series_tested : ℕ

-- The loop over the jobs: the results so far, the cache, the states, and the labels of the calls of
-- the counters WorkerJobsProcessed and WorkerAnomaliesSuppressed, the last one first.
pub record BatchState (F R W : Type 0) : Type 0 where
  pub results : JobResults F
  pub cache : Cache F
  pub store : StoreState R
  pub outside : W
  pub processed : List (JobType × String)
  pub suppressed : List (String × String)

-- the suppression loop: what is kept, and the labels of the counter
unfoldable pub suppress_loop :
    {F : Type 0}
    → Filter
    → List (Anomaly F)
    → List (String × String)
    → List (Anomaly F) × List (String × String)
suppress_loop f [] counted = ([], counted)
suppress_loop f (a ∷ anomalies) counted =
    let reason = suppress_reason f a in
    let (kept, all) =
      suppress_loop f anomalies
        (if reason == "" then counted else (a.detector, reason) ∷ counted) in
    (if reason == "" then a ∷ kept else kept, all)

abbrev pub anomaly_result : {F : Type 0} → String → Anomaly F → AnomalyResult F
anomaly_result id a = record {
  job_id = id;
  metric_name = a.metric_name;
  labels = a.labels;
  current_value = a.value;
  baseline_mean = a.mean;
  baseline_stddev = a.stddev;
  anomaly_score = a.score;
  severity = a.severity;
  signal = a.signal;
  detector = a.detector;
  timestamp = a.timestamp / 10 ^ 9;
}

-- the state before the first job
abbrev pub batch_start : {F R W : Type 0} → StoreState R → W → BatchState F R W
batch_start s w = record {
  results = record { anomalies = []; errors = []; adaptive_series_tested = 0 };
  cache = [];
  store = s;
  outside = w;
  processed = [];
  suppressed = [];
}

module _ {F R W : Type 0} ⦃fl : Float64 F⦄ (conv : Strconv F) (hashes : HashStore R)
    (digest : String → String) (slot_of : ℕ → String) (cfg : BaselineConfig F) (filter : Filter)
    (backends : Backends F W) (unknown_job : ℕ → String) (now : ℕ) where
  -- seasonal.Update on each anomaly; its error is ignored
  unfoldable pub update_seasonal : List (Anomaly F) → StoreState R → StoreState R
  update_seasonal [] s = s
  update_seasonal (a ∷ anomalies) s =
      let (r, ok) =
        seasonal_update conv hashes digest slot_of a.metric_name a.labels a.value now s.redis in
      update_seasonal anomalies (record s { redis = r })

  -- the rest of a round, on the anomalies or the error of the job
  unfoldable pub conclude :
      Job F → JobRun F R W → Reply (List (Anomaly F)) → BatchState F R W → BatchState F R W
  unfolding update_seasonal suppress_loop
  conclude job run (failed e) b = record {
    results = record {
      anomalies = b.results.anomalies;
      errors = b.results.errors ++ (record { job_id = job.id; error = e } ∷ []);
      adaptive_series_tested = b.results.adaptive_series_tested + run.tested;
    };
    cache = run.cache;
    store = run.store;
    outside = run.outside;
    processed = (job.detection.job_type, "error") ∷ b.processed;
    suppressed = b.suppressed;
  }
  conclude job run (answered anomalies) b =
      let (kept, counted) = suppress_loop filter anomalies b.suppressed in
      record {
        results = record {
          anomalies = b.results.anomalies ++ map (anomaly_result job.id) kept;
          errors = b.results.errors;
          adaptive_series_tested = b.results.adaptive_series_tested + run.tested;
        };
        cache = run.cache;
        store = update_seasonal kept run.store;
        outside = run.outside;
        processed = (job.detection.job_type, "success") ∷ b.processed;
        suppressed = counted;
      }

  -- a round of the loop
  unfoldable pub process_one : Job F → BatchState F R W → BatchState F R W
  unfolding conclude
  process_one job b =
      let run =
        process_job conv hashes digest cfg backends unknown_job job.detection now b.cache b.store
          b.outside in
      conclude job run run.outcome b

  unfoldable pub process_all : List (Job F) → BatchState F R W → BatchState F R W
  unfolding process_one
  process_all [] b = b
  process_all (job ∷ jobs) b = process_all jobs (process_one job b)

  -- `ProcessJobs`, from the states of the store and of the world outside
  unfoldable pub process_jobs : List (Job F) → StoreState R → W → BatchState F R W
  unfolding process_all
  process_jobs jobs s w = process_all jobs (batch_start s w)
