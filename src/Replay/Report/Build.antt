-- ===== src/Replay/Report/Build.antt =====
-- controller/internal/replay/report.go: `build`, the report from what the builder gathered, and
-- `NewMetadata`.
use anomaly_detection.Prelude.{
  ℕ, ◌/◌, ◌^◌, String, Bool, List, [], ◌∷◌, ◌==◌, map, length, take, ltb, leb, sort_by,
  if◌then◌else◌,
}
use anomaly_detection.Labels.{Labels, get}
use anomaly_detection.Detection.{Anomaly}
use anomaly_detection.Replay.Report.Keys.{split_workload_key}
use anomaly_detection.Replay.Report.{
  Counts, bump, TimelineEntry, ReportBuilder, new_report_builder, workload_name, anomaly_kind,
  add_anomalies,
}

pub record Totals : Type 0 where
  pub anomalies : ℕ
  pub by_severity : Counts
  pub by_signal : Counts
  pub by_detector : Counts
  pub by_kind : Counts
  pub warmup_skipped : ℕ
  pub query_errors : ℕ
  pub fdr_rejected : ℕ
  pub floor_filtered : ℕ
  pub direction_filtered : ℕ

pub record WorkloadCount : Type 0 where
  pub namespace : String
  pub workload : String
  pub count : ℕ

pub record ConfigSummary : Type 0 where
  pub static_rules : ℕ
  pub adaptive_metrics : ℕ
  pub log_patterns : ℕ

-- metrics.go
pub record ExecutionMetrics (F : Type 0) : Type 0 where
  pub ticks_processed : ℕ
  pub ticks_skipped_query_error : ℕ
  pub prom_queries_total : ℕ
  pub prom_query_duration_p95 : F
  pub loki_queries_total : ℕ
  pub memory_peak_mb : F
  pub duration_seconds : F

pub record Metadata (F : Type 0) : Type 0 where
  pub schema_version : String
  pub controller_version : String
  pub ran_at : ℕ
  pub window_start : ℕ
  pub window_end : ℕ
  pub warmup_start : ℕ
  pub warmup_end : ℕ
  pub warmup_fraction : F
  pub tick_interval_sec : ℕ
  pub result_status : String
  pub config_summary : ConfigSummary
  pub execution_metrics : ExecutionMetrics F

pub record AnomalyEntry (F : Type 0) : Type 0 where
  pub timestamp : ℕ
  pub namespace : String
  pub pod : String
  pub workload : String
  pub metric : String
  pub severity : String
  pub signal : String
  pub detector : String
  pub score : F
  pub current : F
  pub baseline_mean : F
  pub labels : Labels

-- without the blocks of an injection
pub record Report (F : Type 0) : Type 0 where
  pub metadata : Metadata F
  pub totals : Totals
  pub top_workloads : List WorkloadCount
  pub timeline : List TimelineEntry
  pub anomalies : List (AnomalyEntry F)

-- wcs[i].count > wcs[j].count, with equal counts in any order
abbrev pub no_fewer : String × ℕ → String × ℕ → Bool
no_fewer x y = leb y.1 x.1

-- tl[i].Hour.Before(tl[j].Hour); the hours of a map are distinct
abbrev pub no_later : TimelineEntry → TimelineEntry → Bool
no_later x y = leb x.hour y.hour

abbrev pub workload_count : String × ℕ → WorkloadCount
workload_count (key, count) =
    let parts = split_workload_key key in
    record { namespace = parts.0; workload = parts.1; count = count }

-- the first 20 of the sorted workloads
unfoldable pub top_workloads_of : Counts → List WorkloadCount
top_workloads_of workloads = map workload_count (take 20 (sort_by no_fewer workloads))

-- the status, unless one is set
unfoldable pub status_of : String → ℕ → ℕ → String
status_of forced query_errors anomalies =
    if forced == ""
    then if ltb 0 query_errors
      then "partial"
      else if ltb 0 anomalies
      then "anomalies_detected"
      else "no_anomalies"
    else forced

module _ {F : Type 0} where
  -- m[of(a)]++ over the anomalies
  unfoldable pub count_by : (Anomaly F → String) → List (Anomaly F) → Counts → Counts
  count_by of [] m = m
  count_by of (a ∷ anomalies) m = count_by of anomalies (bump (of a) m)

  unfoldable pub to_anomaly_entry : Anomaly F → AnomalyEntry F
  to_anomaly_entry a = record {
    timestamp = a.timestamp;
    namespace = get a.labels "namespace";
    pod = get a.labels "pod";
    workload = workload_name a;
    metric = a.metric_name;
    severity = a.severity;
    signal = a.signal;
    detector = a.detector;
    score = a.score;
    current = a.value;
    baseline_mean = a.mean;
    labels = a.labels;
  }

  -- `build`
  unfoldable pub build : ReportBuilder F → Metadata F → Report F
  build b meta = record {
    metadata = record meta {
      result_status = status_of meta.result_status b.query_errors (length b.anomalies);
    };
    totals = record {
      anomalies = length b.anomalies;
      by_severity = count_by (λ a. a.severity) b.anomalies [];
      by_signal = count_by (λ a. a.signal) b.anomalies [];
      by_detector = count_by (λ a. a.detector) b.anomalies [];
      by_kind = count_by anomaly_kind b.anomalies [];
      warmup_skipped = b.warmup_skipped;
      query_errors = b.query_errors;
      fdr_rejected = b.fdr_rejected;
      floor_filtered = b.floor_filtered;
      direction_filtered = b.direction_filtered;
    };
    top_workloads = top_workloads_of b.workloads;
    timeline = sort_by no_later b.timeline;
    anomalies = map to_anomaly_entry b.anomalies;
  }

  -- `BuildReport`
  unfoldable pub build_report : List (Anomaly F) → ℕ → Metadata F → Report F
  unfolding build add_anomalies
  build_report anomalies max meta = build (add_anomalies (new_report_builder max) anomalies) meta

  -- `NewMetadata`; the version of the program and the clock are arguments
  unfoldable pub new_metadata :
      String → ℕ → ℕ → ℕ → F → ℕ → ℕ → ConfigSummary → ExecutionMetrics F → Metadata F
  new_metadata version now from to fraction interval warmup_end summary metrics = record {
    schema_version = "1";
    controller_version = version;
    ran_at = now;
    window_start = from;
    window_end = to;
    warmup_start = from;
    warmup_end = warmup_end;
    warmup_fraction = fraction;
    tick_interval_sec = interval / 10 ^ 9;
    result_status = "";
    config_summary = summary;
    execution_metrics = metrics;
  }
