-- ===== src/Tests/Replay.antt =====
-- The theorems on the replay stores, the adapter and the scorer at concrete inputs.
use anomaly_detection.Prelude.{
  ℕ, ◌+◌, ◌-◌, ◌≤◌, ◌≡◌, refl, true, false, none, List, [], ◌∷◌, count_if, ltb, arith,
}
use anomaly_detection.Prelude.Int.{pos}
use anomaly_detection.Float64.Nano.{Nano, nano}
use anomaly_detection.Labels.{lookup, contains}
use anomaly_detection.Baseline.{Result, evaluated}
use anomaly_detection.Baseline.Keys.{normalize_labels}
use anomaly_detection.Baseline.Store.{StoreState, load, stats_of_fields}
use anomaly_detection.Replay.InMem.{evaluate_in_mem}
use anomaly_detection.Replay.InMem.Series.{Reading, key_of, run_readings, readings_of}
use anomaly_detection.Replay.InMem.WarmUp.{needed, warm_up_exact}
use anomaly_detection.Replay.InMem.Parity.{store_outcomes, replay_outcomes, replay_parity}
use anomaly_detection.Replay.Adapter.{Point, last_point_before}
use anomaly_detection.Replay.Adapter.Latest.{Latest, last_point_before-Latest}
use anomaly_detection.Replay.Inject.{GroundTruth}
use anomaly_detection.Replay.Inject.Scorer.{DetectedAnomaly, score, share}
use anomaly_detection.Replay.Inject.Scorer.Missed.{missed}
use anomaly_detection.Replay.Inject.Scorer.Counts.{is_true_positive, score_counts}
use anomaly_detection.Detection.{Anomaly}
use anomaly_detection.Config.{DetectionConfig}
use anomaly_detection.Controller.Cycle.{post_filter}
use anomaly_detection.Replay.Tick.{tick_filter}
use anomaly_detection.Replay.Tick.Mirror.{as_filtered, tick_filter_mirrors}
use anomaly_detection.Tests.Fdr.{anomaly_of}
use anomaly_detection.Tests.Servers.{
  Hashes, list_store, list_store-IsReliable, unary, unary-IsRoundTrip, config, digest_of,
}

abbrev reading : ℕ → Reading Nano
reading v = record { metric = "cpu"; labels = ("service_name", "api") ∷ []; value = pos v; now = 5 }

abbrev readings : List (Reading Nano)
readings = reading 10 ∷ reading 12 ∷ reading 90 ∷ []

abbrev empty : StoreState Hashes
empty = record {
  redis = [];
  seen_series = [];
  recorded = [];
  baseline_updates = 0;
  poison_rejected = 0;
}

plain :
    normalize_labels ("instance" ∷ []) (("service_name", "api") ∷ []) ≡ ("service_name", "api") ∷ []
unfolding normalize_labels contains
plain = refl

replay_parity_example :
    store_outcomes unary unary-IsRoundTrip list_store list_store-IsReliable digest_of config
      readings empty
    ≡ replay_outcomes unary unary-IsRoundTrip list_store list_store-IsReliable digest_of config
        readings []
unfolding load stats_of_fields lookup
replay_parity_example =
    replay_parity unary unary-IsRoundTrip list_store list_store-IsReliable digest_of config readings
      empty [] (plain, (plain, (plain, tt))) (λ key. refl)

warm_up_exact_example :
    let series = run_readings digest_of config readings [] in
    let n = readings_of digest_of config (key_of digest_of config (reading 50)) readings in
    (r : Result Nano) × ((evaluate_in_mem digest_of config "cpu"
        (("service_name", "api") ∷ [])
        (pos 50)
        5
        series).0
      ≡ evaluated r)
    × (r.is_warming_up ≡ ltb n (needed config.warm_up_samples))
    × (r.is_warming_up ≡ true → r.is_anomaly ≡ false)
warm_up_exact_example = warm_up_exact config digest_of readings (reading 50)

abbrev points : List (Point Nano)
points =
    record { t = 10; v = pos 1 } ∷ record { t = 20; v = pos 2 } ∷ record { t = 30; v = pos 3 } ∷ []

last_point_before-Latest_example : Latest 25 none points (last_point_before 25 points)
last_point_before-Latest_example =
    last_point_before-Latest 25 points
      ((omega arith, (omega arith, tt)), ((omega arith, tt), (tt, tt)))

abbrev truths : List (GroundTruth Nano)
truths =
    record { target = "cpu{pod=a}"; fault_type = "spike"; start = 10; end = 20; magnitude = pos 5 }
    ∷ record { target = "mem"; fault_type = "step"; start = 10; end = 20; magnitude = pos 5 }
    ∷ []

abbrev detections : List DetectedAnomaly
detections =
    record { metric = "cpu"; labels = ("pod", "a") ∷ []; timestamp = 15 }
    ∷ record { metric = "cpu"; labels = ("pod", "b") ∷ []; timestamp = 15 }
    ∷ []

score_counts_example :
    let r = score detections truths 3 in
    (r.tp ≡ count_if (is_true_positive 3 truths) detections)
    × (r.tp + r.fp ≡ 2)
    × (r.fn ≡ missed 3 detections truths)
    × (r.fn ≤ 2)
    × (r.recall ≡ share (2 - r.fn) 2)
score_counts_example = score_counts detections truths 3

abbrev rules : DetectionConfig Nano
rules = record {
  static_rules = [];
  adaptive_metrics =
      record {
        name = "cpu";
        query = "q";
        group_by = [];
        direction = "up_bad";
        min_value = nano.lit 5 1;
      }
      ∷ [];
  log_patterns = [];
  event_patterns = [];
}

abbrev fired : List (Anomaly Nano)
fired = anomaly_of "adaptive" [] 90 9 ∷ anomaly_of "static" [] 50 1 ∷ []

tick_filter_mirrors_example :
    as_filtered (tick_filter rules (nano.lit 1 20) fired 40)
    ≡ post_filter rules (nano.lit 1 20) fired 40
tick_filter_mirrors_example = tick_filter_mirrors rules (nano.lit 1 20) fired 40
