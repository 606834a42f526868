-- ===== src/Worker.antt =====
-- controller/cmd/worker/main.go: the worker, which runs the jobs of a batch against Prometheus and
-- Loki. The pollers and the rate limiters are the interface `Backends`.
pub mod Batch
pub mod Within
use anomaly_detection.Prelude.{ℕ, String, Option, none, some, List, []}
use anomaly_detection.Float64.{Float64}
use anomaly_detection.Labels.{Labels, lookup, insert}
use anomaly_detection.Detection.{Anomaly, Sample}
use anomaly_detection.Detection.Static.{StaticRule, evaluate_static}
use anomaly_detection.Detection.Adaptive.{evaluate_adaptive, evaluate_log_rate}
use anomaly_detection.Baseline.{BaselineConfig, Evaluator, HashStore, Strconv}
use anomaly_detection.Baseline.Store.{StoreState, evaluate_store}
use anomaly_detection.Controller.{
  JobType, metrics_static, metrics_adaptive, logs, unknown_type, DetectionJob,
}

-- a value, or the text of an error
pub data Reply (A : Type 0) : Type 0 where
  answered : A → Reply A
  failed : String → Reply A

-- The limiters' Wait, which fails when the context ends, and the pollers' queries, over a state `W`
-- of the world outside.
pub record Backends (F W : Type 0) : Type 0 where
  pub vm_wait : W → Option String × W
  pub vm_query : String → W → Reply (List (Sample F)) × W
  pub loki_wait : W → Option String × W
  pub loki_query : String → W → Reply (List (Sample F)) × W

-- pb.DetectionJob with its identifier
pub record Job (F : Type 0) : Type 0 where
  pub id : String
  pub detection : DetectionJob F

-- the cache of the answers of a batch
abbrev pub Cache : Type 0 → Type 0
Cache F = List (String × List (Sample F))

-- A run of a job: the anomalies or an error, the number of tests, and the states behind it.
pub record JobRun (F R W : Type 0) : Type 0 where
  pub outcome : Reply (List (Anomaly F))
  pub tested : ℕ
  pub cache : Cache F
  pub store : StoreState R
  pub outside : W

module _ {F W : Type 0} (backends : Backends F W) (query : String) where
  unfoldable pub keep_answer :
      Cache F → Reply (List (Sample F)) × W → Reply (List (Sample F)) × (Cache F × W)
  keep_answer cache (answered samples, w) = (answered samples, (insert query samples cache, w))
  keep_answer cache (failed e, w) = (failed e, (cache, w))

  -- `cachedQueryVM` on the result of the limiter
  unfoldable pub query_after_wait :
      Cache F → Option String × W → Reply (List (Sample F)) × (Cache F × W)
  unfolding keep_answer
  query_after_wait cache (some e, w) = (failed e, (cache, w))
  query_after_wait cache (none, w) = keep_answer cache (backends.vm_query query w)

  -- `cachedQueryVM` on what the cache holds
  unfoldable pub cached_or_asked :
      Cache F → W → Option (List (Sample F)) → Reply (List (Sample F)) × (Cache F × W)
  unfolding query_after_wait
  cached_or_asked cache w (some samples) = (answered samples, (cache, w))
  cached_or_asked cache w none = query_after_wait cache (backends.vm_wait w)

  unfoldable pub cached_query_vm : Cache F → W → Reply (List (Sample F)) × (Cache F × W)
  unfolding cached_or_asked
  cached_query_vm cache w = cached_or_asked cache w (lookup query cache)

  -- the query of a log job, on the result of the limiter
  unfoldable pub loki_after_wait : Option String × W → Reply (List (Sample F)) × W
  loki_after_wait (some e, w) = (failed e, w)
  loki_after_wait (none, w) = backends.loki_query query w

-- the rule of a static job
abbrev pub job_rule : {F : Type 0} → DetectionJob F → StaticRule F
job_rule d = record {
  name = d.name;
  query = "";
  threshold = d.threshold;
  operator = d.operator;
  severity = d.severity;
}

module _ {F R W : Type 0} ⦃fl : Float64 F⦄ where
  unfoldable pub run_static :
      DetectionJob F → ℕ → StoreState R → Reply (List (Sample F)) × (Cache F × W) → JobRun F R W
  run_static d now s (answered samples, (cache, w)) = record {
    outcome = answered (evaluate_static (job_rule d) now samples);
    tested = 0;
    cache = cache;
    store = s;
    outside = w;
  }
  run_static d now s (failed e, (cache, w)) = record {
    outcome = failed e;
    tested = 0;
    cache = cache;
    store = s;
    outside = w;
  }

module _ {F R : Type 0} ⦃fl : Float64 F⦄ (conv : Strconv F) (hashes : HashStore R)
    (digest : String → String) (cfg : BaselineConfig F) where
  -- the store as the evaluator of the engine
  abbrev pub store_evaluator : Evaluator F (StoreState R)
  store_evaluator = record { evaluate = evaluate_store conv hashes digest cfg }

  module _ {W : Type 0} where
    unfoldable pub run_adaptive :
        DetectionJob F → ℕ → StoreState R → Reply (List (Sample F)) × (Cache F × W) → JobRun F R W
    run_adaptive d now s (answered samples, (cache, w)) =
        let ((anomalies, tested), last) = evaluate_adaptive store_evaluator d.name now samples s in
        record {
          outcome = answered anomalies;
          tested = tested;
          cache = cache;
          store = last;
          outside = w;
        }
    run_adaptive d now s (failed e, (cache, w)) = record {
      outcome = failed e;
      tested = 0;
      cache = cache;
      store = s;
      outside = w;
    }

    unfoldable pub run_logs :
        DetectionJob F → ℕ → Cache F → StoreState R → Reply (List (Sample F)) × W → JobRun F R W
    run_logs d now cache s (answered samples, w) =
        let ((anomalies, tested), last) = evaluate_log_rate store_evaluator d.name now samples s in
        record {
          outcome = answered anomalies;
          tested = tested;
          cache = cache;
          store = last;
          outside = w;
        }
    run_logs d now cache s (failed e, w) = record {
      outcome = failed e;
      tested = 0;
      cache = cache;
      store = s;
      outside = w;
    }

    -- `processJob` by the type of the job; `unknown_job` is the text of the error of an unknown type
    unfoldable pub process_job_of :
        JobType
        → Backends F W
        → (ℕ → String)
        → DetectionJob F
        → ℕ
        → Cache F
        → StoreState R
        → W
        → JobRun F R W
    unfolding run_static run_adaptive run_logs
    process_job_of metrics_static backends unknown_job d now cache s w =
        run_static d now s (cached_query_vm backends d.query cache w)
    process_job_of metrics_adaptive backends unknown_job d now cache s w =
        run_adaptive d now s (cached_query_vm backends d.query cache w)
    process_job_of logs backends unknown_job d now cache s w =
        run_logs d now cache s (loki_after_wait backends d.query (backends.loki_wait w))
    process_job_of (unknown_type n) backends unknown_job d now cache s w = record {
      outcome = failed (unknown_job n);
      tested = 0;
      cache = cache;
      store = s;
      outside = w;
    }

    -- `processJob`
    unfoldable pub process_job :
        Backends F W → (ℕ → String) → DetectionJob F → ℕ → Cache F → StoreState R → W → JobRun F R W
    unfolding process_job_of
    process_job backends unknown_job d now cache s w =
        process_job_of d.job_type backends unknown_job d now cache s w
