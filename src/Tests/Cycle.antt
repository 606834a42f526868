-- ===== src/Tests/Cycle.antt =====
-- The theorems on a cycle of the controller at concrete inputs.
use anomaly_detection.Prelude.{
  map, ℕ, ◌+◌, ◌≡◌, String, true, Option, none, some, List, [], ◌∷◌, length, All,
}
use anomaly_detection.Float64.Nano.{Nano, nano}
use anomaly_detection.Detection.{Anomaly}
use anomaly_detection.Config.{DetectionConfig}
use anomaly_detection.Correlation.Correlator.{CorrelatedAlert, MlDetection}
use anomaly_detection.Correlation.Correlator.Pending.{IsKeyed}
use anomaly_detection.Correlation.Correlator.Flush.{Correlator}
use anomaly_detection.Controller.Cycle.{post_filter}
use anomaly_detection.Controller.Cycle.Accounts.{post_filter_accounts}
use anomaly_detection.Tests.Servers.{list_dedup, digest_of}
use anomaly_detection.Tests.Correlation.{one, two, correlator, print_labels, enricher, keyed}
use anomaly_detection.Controller.{DetectionJob}
use anomaly_detection.Controller.Cycle.{full_cycle}
use anomaly_detection.Controller.Cycle.Accounts.{full_cycle_total}
use anomaly_detection.Worker.{Reply, answered}
use anomaly_detection.Worker.Batch.{JobResults, process_jobs}
use anomaly_detection.Suppression.{new_filter}
use anomaly_detection.Tests.Servers.{list_store, unary, config}
use anomaly_detection.Tests.Worker.{backends, silenced, slot_of, store, unknown_job}

abbrev rules : DetectionConfig Nano
rules = record {
  static_rules = [];
  adaptive_metrics =
      record {
        name = "cpu";
        query = "q";
        group_by = [];
        direction = "up_bad";
        min_value = nano.lit 5 1;
      }
      ∷ [];
  log_patterns = [];
  event_patterns = [];
}

post_filter_accounts_example :
    let r = post_filter rules (nano.lit 1 20) (one ∷ two ∷ []) 40 in
    length r.accepted + r.direction_dropped + r.floor_dropped + r.rejected ≡ 2
post_filter_accounts_example = post_filter_accounts rules (nano.lit 1 20) (one ∷ two ∷ []) 40

abbrev detect : Anomaly Nano → Option String → Option (MlDetection Nano)
detect a none = none
detect a (some bundle) =
    some (record { is_anomaly = true; score = a.score; contributors = []; feature_count = 1 })

-- the call of the workers, answered by the worker itself
abbrev call : List (DetectionJob Nano) → Reply (JobResults Nano)
call jobs =
    answered
      (process_jobs unary list_store digest_of slot_of config (new_filter silenced) backends
        unknown_job 7 (map (λ d. record { id = d.name; detection = d }) jobs) store []).results

full_cycle_total_example :
    (out : List (CorrelatedAlert Nano String)) × (c' : Correlator Nano (List (String × ℕ)))
    × (full_cycle detect list_dedup print_labels digest_of enricher call rules
          (nano.lit 1 20)
          120
          correlator
        ≡ some (out, c'))
    × All IsKeyed c'.pending
full_cycle_total_example =
    full_cycle_total detect list_dedup print_labels digest_of enricher call rules (nano.lit 1 20)
      120 correlator keyed
