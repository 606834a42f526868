-- ===== src/Detection/Adaptive.antt =====
-- controller/internal/detection: the adaptive detector (adaptive.go) over a baseline evaluator, and
-- the metric and log-rate entries of the engine (engine.go).
pub mod Family
use anomaly_detection.Prelude.{ℕ, suc, String, Bool, List, [], ◌∷◌, map, if◌then◌else◌}
use anomaly_detection.Float64.{Float64}
use anomaly_detection.Labels.{Labels}
use anomaly_detection.Detection.{Anomaly, Sample}
use anomaly_detection.Baseline.{Evaluator, Outcome, Result, evaluated, load_failed, save_failed}

module _ {F : Type 0} ⦃fl : Float64 F⦄ where
  unfoldable pub adaptive_anomaly : String → Labels → Result F → ℕ → Anomaly F
  adaptive_anomaly metric labels r now = record {
    metric_name = metric;
    labels = labels;
    value = r.value;
    mean = r.mean;
    stddev = r.stddev;
    score = r.zscore;
    severity = if fl.lt (fl.lit 5 1) r.zscore then "critical" else "warning";
    signal = "metrics";
    detector = "adaptive";
    timestamp = now;
  }

  -- one round of the loop, on the anomalies and the count of the rounds behind it
  unfoldable pub collect :
      String → Labels → ℕ → Outcome F → List (Anomaly F) × ℕ → List (Anomaly F) × ℕ
  unfolding adaptive_anomaly
  collect metric labels now (evaluated r) (out, tested) =
      if r.is_warming_up
      then (out, tested)
      else if r.is_anomaly
      then (adaptive_anomaly metric labels r now ∷ out, suc tested)
      else (out, suc tested)
  collect metric labels now load_failed rest = rest
  collect metric labels now save_failed rest = rest

  -- results[i].Signal = "logs"
  abbrev pub as_log : Anomaly F → Anomaly F
  as_log a = record a { signal = "logs" }

  module _ {S : Type 0} (store : Evaluator F S) (metric : String) (now : ℕ) where
    -- `AdaptiveDetector.Evaluate`; one reading of the clock stands for those of the loop
    unfoldable pub evaluate_adaptive : List (Sample F) → S → (List (Anomaly F) × ℕ) × S
    unfolding collect
    evaluate_adaptive [] st = (([], 0), st)
    evaluate_adaptive (s ∷ samples) st =
        let (outcome, st') = store.evaluate metric s.labels s.value now st in
        let (rest, last) = evaluate_adaptive samples st' in
        (collect metric s.labels now outcome rest, last)

    -- `Engine.EvaluateLogRate`
    unfoldable pub evaluate_log_rate : List (Sample F) → S → (List (Anomaly F) × ℕ) × S
    unfolding evaluate_adaptive
    evaluate_log_rate samples st =
        let ((results, tested), last) = evaluate_adaptive samples st in
        ((map as_log results, tested), last)
