-- ===== src/Tests/Filters.antt =====
-- The theorems on the detectors and filters at concrete inputs.
use anomaly_detection.Prelude.{
  ◌-◌, ◌≡◌, ◌↔◌, refl, String, Bool, true, false, not, ◌&&◌, none, some, List, [], ◌∷◌, ◌==◌,
  length, count_if, All, ltb, if◌then◌else◌,
}
use anomaly_detection.Prelude.{◌≢◌}
use anomaly_detection.Labels.{get, contains}
use anomaly_detection.Correlation.Workload.{every}
use anomaly_detection.Enrichment.Identity.{join_commas}
use anomaly_detection.Config.Csv.{is_space, suppression_of}
use anomaly_detection.Config.Csv.Listed.{IsPlain, listed_silences}
use anomaly_detection.Float64.Nano.{Nano, nano}
use anomaly_detection.Labels.{Labels, lookup, insert}
use anomaly_detection.Detection.{Anomaly, Sample}
use anomaly_detection.Detection.Floor.{drops_by_floor}
use anomaly_detection.Detection.Adaptive.{evaluate_adaptive}
use anomaly_detection.Detection.Adaptive.Family.{
  could_fire, fires, IsAdaptive, outcomes, evaluate_adaptive_counts,
}
use anomaly_detection.Baseline.{Evaluator, evaluated, load_failed}
use anomaly_detection.Config.{DetectionConfig, direction_map, floor_map, validate}
use anomaly_detection.Config.Validate.{validate_keeps_down_bad}
use anomaly_detection.Suppression.{SuppressionConfig, new_filter, should_suppress}
use anomaly_detection.Suppression.Silenced.{IsSilenced, should_suppress_iff}
use anomaly_detection.Absence.{Tracker, is_suppressed, record_sample, check}
use anomaly_detection.Absence.Silence.{IsTracked, state_after, check-record_sample}
use anomaly_detection.Tests.Fdr.{anomaly_of}

-- an evaluator that fails on every second call, and else fires on readings above ten
abbrev every_second : Evaluator Nano Bool
every_second = record {
  evaluate = λ metric labels value now fails. if fails then (load_failed, false) else (
    evaluated (record {
      is_anomaly = nano.lt (nano.lit 10 1) value;
      zscore = value;
      value = value;
      mean = nano.lit 1 1;
      stddev = nano.lit 1 1;
      ewma = nano.lit 1 1;
      is_warming_up = false;
    }),
    true,
  );
}

abbrev samples : List (Sample Nano)
samples =
    record { labels = []; value = nano.lit 20 1 }
    ∷ record { labels = []; value = nano.lit 30 1 }
    ∷ record { labels = []; value = nano.lit 3 1 }
    ∷ []

evaluate_adaptive_counts_example :
    let ((out, tested), last) = evaluate_adaptive every_second "cpu" 5 samples false in
    (tested ≡ count_if could_fire (outcomes every_second "cpu" 5 samples false))
    × (length out ≡ count_if fires (outcomes every_second "cpu" 5 samples false))
    × All IsAdaptive out
evaluate_adaptive_counts_example = evaluate_adaptive_counts every_second "cpu" 5 samples false

abbrev rules : DetectionConfig Nano
rules = record {
  static_rules = [];
  adaptive_metrics =
      record {
        name = "ready";
        query = "q";
        group_by = [];
        direction = "down_bad";
        min_value = nano.lit 0 1;
      }
      ∷ record {
        name = "cpu";
        query = "q";
        group_by = [];
        direction = "up_bad";
        min_value = nano.lit 5 1;
      }
      ∷ [];
  log_patterns = [];
  event_patterns = [];
}

abbrev falling : Anomaly Nano
falling = record (anomaly_of "adaptive" [] 0 9) { metric_name = "ready" }

accepted : validate rules.adaptive_metrics ≡ none
unfolding validate
accepted = refl

falls : lookup "ready" (direction_map rules) ≡ some "down_bad"
unfolding direction_map lookup insert
falls = refl

validate_keeps_down_bad_example : drops_by_floor (floor_map rules) falling ≡ false
validate_keeps_down_bad_example =
    validate_keeps_down_bad rules falling (((λ e. cc), tt), (tt, tt)) accepted falls

abbrev silenced : SuppressionConfig
silenced = record {
  exclude_namespaces = "kube-system" ∷ [];
  exclude_static_only = "batch" ∷ [];
  exclude_adaptive_workloads = "kafka" ∷ [];
}

abbrev broker : Anomaly Nano
broker = anomaly_of "adaptive" (("pod", "kafka-0") ∷ []) 90 9

should_suppress_iff_example :
    (should_suppress (new_filter silenced) broker ≡ true) ↔ IsSilenced silenced broker
should_suppress_iff_example = should_suppress_iff silenced broker

abbrev print_series : String → Labels → String
print_series metric labels = metric

abbrev tracker : Tracker
tracker = record {
  series =
      ("mem", record { metric = "mem"; labels = []; last_seen = 3 })
      ∷ ("cpu", record { metric = "cpu"; labels = []; last_seen = 5 })
      ∷ [];
  cfg = record {
    enabled = true;
    silence_threshold = 10;
    check_interval = 1;
    startup_grace = 20;
    suppress_patterns = "batch-*" ∷ [];
  };
  started_at = 0;
  suppressed = "batch-*" ∷ [];
}

check-record_sample_example :
    let t' = record_sample print_series "cpu" [] 30 tracker in
    IsTracked print_series t'.series
    × (count_if (λ a. a.series_key == "cpu") (check print_series t' 50) ≡ (
        if not (ltb (50 - 0) 20)
          && (ltb 10 (50 - 30)
              && not (is_suppressed tracker (state_after print_series "cpu" [] 30 tracker).labels))
        then 1
        else 0))
    × ((other : String)
        → ("cpu" == other) ≡ false
        → count_if (λ a. a.series_key == other) (check print_series t' 50)
          ≡ count_if (λ a. a.series_key == other) (check print_series tracker 50))
check-record_sample_example =
    check-record_sample print_series "cpu" [] 30 50 tracker (refl, (refl, tt), (refl, tt, tt))

abbrev quiet : List String
quiet = "shop" ∷ "kube-system" ∷ []

quiet-IsPlain : All IsPlain quiet
unfolding every is_space
quiet-IsPlain = ((refl, refl), ((refl, refl), tt))

abbrev in_shop : Anomaly Nano
in_shop = anomaly_of "adaptive" (("namespace", "shop") ∷ []) 90 9

has_namespace : get in_shop.labels "namespace" ≢ ""
unfolding get lookup
has_namespace e = cc

is_listed : contains quiet (get in_shop.labels "namespace") ≡ true
unfolding contains get lookup
is_listed = refl

listed_silences_example :
    let cfg = suppression_of (join_commas quiet) "" "kafka" in
    (cfg.exclude_namespaces ≡ quiet) × (should_suppress (new_filter cfg) in_shop ≡ true)
listed_silences_example =
    listed_silences quiet "" "kafka" in_shop quiet-IsPlain has_namespace is_listed
