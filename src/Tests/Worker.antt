-- ===== src/Tests/Worker.antt =====
-- The theorems on the worker, for a batch in which jobs share a query, one fails, and one anomaly is
-- silenced.
use anomaly_detection.Prelude.{
  ℕ, ◌≤◌, ◌≡◌, refl, String, none, List, [], ◌∷◌, ◌==◌, map, length, count_if, All, arith,
  if◌then◌else◌,
}
use anomaly_detection.Float64.Nano.{Nano, nano}
use anomaly_detection.Detection.{Sample}
use anomaly_detection.Detection.Fdr.{is_adaptive}
use anomaly_detection.Suppression.{SuppressionConfig, new_filter}
use anomaly_detection.Suppression.Silenced.{IsSilenced}
use anomaly_detection.Baseline.Store.{StoreState}
use anomaly_detection.Controller.{JobType, metrics_static, metrics_adaptive, logs, unknown_type}
use anomaly_detection.Controller.Cycle.{received}
use anomaly_detection.Worker.{answered, failed, Backends, Job}
use anomaly_detection.Worker.Batch.{BatchState, process_jobs}
use anomaly_detection.Worker.Batch.Sound.{process_jobs_sound}
use anomaly_detection.Worker.Batch.Accounts.{is_error, IsOf, process_jobs_accounts}
use anomaly_detection.Worker.Batch.Asked.{IsCounting, process_jobs_asks_once}
use anomaly_detection.Tests.Servers.{Hashes, list_store, unary, config, digest_of}

abbrev busy : List (Sample Nano)
busy =
    record { labels = ("namespace", "shop") ∷ []; value = nano.lit 90 1 }
    ∷ record { labels = ("namespace", "batch") ∷ []; value = nano.lit 95 1 }
    ∷ []

-- the world outside is the list of the queries that Prometheus answered; Loki is down
abbrev pub backends : Backends Nano (List String)
backends = record {
  vm_wait = λ w. (none, w);
  vm_query = λ q w. if q == "bad" then (failed "timeout", w) else (answered busy, q ∷ w);
  loki_wait = λ w. (none, w);
  loki_query = λ q w. (failed "loki is down", w);
}

abbrev answers : List String → String → ℕ
answers w q = count_if (λ a. a == q) w

backends-IsCounting : IsCounting backends answers
backends-IsCounting = record {
  vm_waits = λ w q. refl;
  loki_waits = λ w q. refl;
  loki_queries = λ query w q. refl;
  vm_queries = λ query w q. ground arith;
}

abbrev job : String → JobType → String → Job Nano
job id type query = record {
  id = id;
  detection = record {
    job_type = type;
    name = "cpu";
    query = query;
    group_by = [];
    threshold = nano.lit 80 1;
    operator = ">";
    severity = "warning";
  };
}

abbrev jobs : List (Job Nano)
jobs =
    job "a" metrics_static "up"
    ∷ job "b" metrics_adaptive "up"
    ∷ job "c" metrics_static "bad"
    ∷ job "d" logs "errors"
    ∷ job "e" (unknown_type 0) "up"
    ∷ []

abbrev pub store : StoreState Hashes
store = record {
  redis = [];
  seen_series = [];
  recorded = [];
  baseline_updates = 0;
  poison_rejected = 0;
}

abbrev pub silenced : SuppressionConfig
silenced = record {
  exclude_namespaces = [];
  exclude_static_only = "batch" ∷ [];
  exclude_adaptive_workloads = [];
}

abbrev pub slot_of : ℕ → String
slot_of now = "1:5"

abbrev pub unknown_job : ℕ → String
unknown_job n = "unknown job type"

abbrev batch : BatchState Nano Hashes (List String)
batch =
    process_jobs unary list_store digest_of slot_of config (new_filter silenced) backends
      unknown_job 7 jobs store []

process_jobs_sound_example :
    All (λ a. ¬ IsSilenced silenced (received a)) batch.results.anomalies
    × (count_if is_adaptive (map received batch.results.anomalies)
        ≤ batch.results.adaptive_series_tested)
process_jobs_sound_example =
    process_jobs_sound unary list_store digest_of slot_of config silenced backends unknown_job 7
      jobs store []

process_jobs_accounts_example :
    (length batch.processed ≡ 5)
    × (length batch.results.errors ≡ count_if is_error batch.processed)
    × All (IsOf jobs) batch.results.errors
process_jobs_accounts_example =
    process_jobs_accounts unary list_store digest_of slot_of config (new_filter silenced) backends
      unknown_job 7 jobs store []

process_jobs_asks_once_example : answers batch.outside "up" ≤ 1
process_jobs_asks_once_example =
    process_jobs_asks_once backends answers backends-IsCounting "up" unary list_store digest_of
      config unknown_job 7 slot_of (new_filter silenced) jobs store []
