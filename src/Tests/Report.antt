-- ===== src/Tests/Report.antt =====
-- The theorems on the report and on the loop of a replay at concrete inputs: two ticks in the
-- warm-up and three past it, of a backend whose logs are down.
use anomaly_detection.Prelude.{◌-◌}
use anomaly_detection.Prelude.{
  none, ℕ, ◌*◌, ◌≤◌, ◌≡◌, refl, suc, String, Bool, false, some, List, [], ◌∷◌, ◌==◌, map, take,
  count_if, total, arith,
}
use anomaly_detection.Prelude.{◌/◌}
use anomaly_detection.Prelude.Int.{pos_part}
use anomaly_detection.Replay.Percentile.{P95Window, new_p95_window, add_values, p95}
use anomaly_detection.Replay.Percentile.Sliding.{contents}
use anomaly_detection.Replay.Percentile.Bounds.{p95_window_lem}
use anomaly_detection.Prelude.{if◌then◌else◌}
use anomaly_detection.Prelude.Int.{pos}
use anomaly_detection.Replay.Window.{
  accepted, TimeParsers, int64_of, before_d, days_of, parse_days, days_or_else,
  parse_time_or_duration, check_window, check_to, check_from, parse_window,
}
use anomaly_detection.Float64.Nano.{Nano, nano}
use anomaly_detection.Labels.{get}
use anomaly_detection.Correlation.Workload.{every}
use anomaly_detection.Detection.{Anomaly}
use anomaly_detection.Baseline.{Stats, Evaluator}
use anomaly_detection.Worker.{answered, failed}
use anomaly_detection.Replay.InMem.{evaluate_in_mem}
use anomaly_detection.Replay.Adapter.{TimeSeries}
use anomaly_detection.Replay.Inject.Injector.{Injector}
use anomaly_detection.Replay.Report.{new_report_builder, workload_name, anomaly_kind, report_key}
use anomaly_detection.Replay.Report.Keys.{split_workload_key, split_workload_key-report_key}
use anomaly_detection.Replay.Report.Build.{Metadata, to_anomaly_entry, new_metadata, build_report}
use anomaly_detection.Replay.Report.Counts.{count_of, in_hour, hour_is, build_report_counts}
use anomaly_detection.Replay.Engine.{Pollers, Plan}
use anomaly_detection.Replay.Engine.Run.{RunState, run_ticks}
use anomaly_detection.Replay.Engine.Run.Filtered.{is_early}
use anomaly_detection.Replay.Engine.Run.PastWarmUp.{run_ticks_past_warm_up}
use anomaly_detection.Tests.Servers.{config, digest_of}
use anomaly_detection.Tests.Fdr.{anomaly_of}

abbrev first : Anomaly Nano
first = anomaly_of "adaptive" (("namespace", "shop") ∷ ("service_name", "cart/v2") ∷ []) 90 9

abbrev second : Anomaly Nano
second = anomaly_of "static" (("namespace", "shop") ∷ ("pod", "api-0") ∷ []) 50 1

abbrev found : List (Anomaly Nano)
found = first ∷ second ∷ first ∷ []

abbrev meta : Metadata Nano
meta =
    new_metadata "dev" 900 0 800 (nano.lit 1 5) 30 160
      (record { static_rules = 1; adaptive_metrics = 1; log_patterns = 1 })
      (record {
        ticks_processed = 5;
        ticks_skipped_query_error = 0;
        prom_queries_total = 10;
        prom_query_duration_p95 = nano.lit 0 1;
        loki_queries_total = 5;
        memory_peak_mb = nano.lit 0 1;
        duration_seconds = nano.lit 0 1;
      })

build_report_counts_example :
    let r = build_report found 2 meta in
    let kept = take 2 found in
    (r.anomalies ≡ map to_anomaly_entry kept)
    × (r.totals.anomalies ≡ 2)
    × ((k : String) → count_of k r.totals.by_severity ≡ count_if (λ a. a.severity == k) kept)
    × ((k : String) → count_of k r.totals.by_signal ≡ count_if (λ a. a.signal == k) kept)
    × ((k : String) → count_of k r.totals.by_detector ≡ count_if (λ a. a.detector == k) kept)
    × ((k : String) → count_of k r.totals.by_kind ≡ count_if (λ a. anomaly_kind a == k) kept)
    × ((h : ℕ) → total (in_hour h) r.timeline ≡ count_if (hour_is h) kept)
build_report_counts_example = build_report_counts found 2 meta

split_workload_key-report_key_example : split_workload_key (report_key first) ≡ ("shop", "cart/v2")
unfolding every get workload_name
split_workload_key-report_key_example = split_workload_key-report_key first refl

abbrev cpu : TimeSeries Nano
cpu = record {
  labels = ("namespace", "shop") ∷ [];
  points =
      record { t = 0; v = nano.lit 10 1 }
      ∷ record { t = 40; v = nano.lit 11 1 }
      ∷ record { t = 90; v = nano.lit 95 1 }
      ∷ [];
}

abbrev backends : Pollers Nano ℕ
backends = record {
  query_range = λ q start end step w. (answered (cpu ∷ []), suc w);
  loki_range = λ q start end step w. (failed "loki is down", suc w);
  interrupted = λ w. (false, w);
}

abbrev in_mem : Evaluator Nano (List (String × Stats Nano))
in_mem = record { evaluate = evaluate_in_mem digest_of config }

abbrev untouched :
    String → List (TimeSeries Nano) → Injector Nano → List (TimeSeries Nano) × Injector Nano
untouched metric series inj = (series, inj)

abbrev plan : Plan Nano
plan = record {
  from = 0;
  to = 100;
  step = 20;
  warmup_end = 50;
  detection = record {
    static_rules =
        record {
          name = "cpu_high";
          query = "q";
          threshold = nano.lit 80 1;
          operator = ">";
          severity = "critical";
        }
        ∷ [];
    adaptive_metrics =
        record {
          name = "cpu";
          query = "q";
          group_by = [];
          direction = "up_bad";
          min_value = nano.lit 5 1;
        }
        ∷ [];
    log_patterns =
        record { name = "errors"; query = "l"; group_by = []; pattern_type = "rate" } ∷ [];
    event_patterns = [];
  };
  fdr_target = nano.lit 1 20;
}

abbrev start : RunState Nano (List (String × Stats Nano)) ℕ
start = record {
  report = new_report_builder 1000;
  ticks_processed = 0;
  ticks_skipped = 0;
  prom_queries = 0;
  loki_queries = 0;
  series = [];
  injector = record { truths = []; recorded = [] };
  outside = 0;
}

nothing_yet : count_if (is_early plan) start.report.anomalies ≡ 0
unfolding new_report_builder
nothing_yet = refl

run_ticks_past_warm_up_example :
    (st' : RunState Nano (List (String × Stats Nano)) ℕ) × (partial : Bool) × (run_ticks backends
        in_mem untouched plan 7 101 20 start
      ≡ some (st', partial))
    × (count_if (is_early plan) st'.report.anomalies ≡ 0)
run_ticks_past_warm_up_example =
    run_ticks_past_warm_up backends in_mem untouched plan 7 start (omega arith) (omega arith)
      nothing_yet

-- rounding towards zero, and the index of the percentile
abbrev trunc : Nano → ℕ
trunc x = pos_part x / 1_000_000_000

trunc_bound : (k : ℕ) → trunc (nano.mul (nano.lit k 1) (nano.lit 95 100)) ≤ k
trunc_bound k = omega arith

abbrev durations : List Nano
durations = nano.lit 1 10 ∷ nano.lit 3 10 ∷ nano.lit 2 10 ∷ nano.lit 9 10 ∷ []

p95_window_lem_example :
    (w : P95Window Nano) × (x : Nano) × (add_values (new_p95_window 3) durations ≡ some w)
    × (contents w ≡ nano.lit 3 10 ∷ nano.lit 2 10 ∷ nano.lit 9 10 ∷ [])
    × (p95 trunc w ≡ some x)
p95_window_lem_example = p95_window_lem trunc 3 durations trunc_bound (omega arith)

-- parsers that know a few texts
abbrev known_times : TimeParsers
known_times = record {
  scan_int =
      λ s. if s == "2" then some (pos 2) else if s == "1281024" then some (pos 1_281_024) else none;
  parse_duration = λ s. none;
  parse_rfc3339 = λ s. none;
}

abbrev day : ℕ
day = 86_400_000_000_000

-- 1281024 days are 6 * 2^64 nanoseconds and some 152 minutes, which is what int64 keeps
days_wrap_around :
    parse_window known_times (pos (20_000 * day)) "1281024d" "" (pos 0)
    ≡ accepted (pos (20_000 * day - 9_157_742_690_304), pos (20_000 * day))
unfolding parse_window check_from check_to check_window parse_time_or_duration parse_days before_d
    days_of days_or_else int64_of
days_wrap_around = refl
