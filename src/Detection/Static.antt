-- ===== src/Detection/Static.antt =====
-- controller/internal/detection/static.go: fixed thresholds.
use anomaly_detection.Prelude.{ℕ, String, Bool, List, [], ◌∷◌, ◌==◌, if◌then◌else◌}
use anomaly_detection.Float64.{Float64}
use anomaly_detection.Detection.{Anomaly, Sample}

-- config.StaticRule
pub record StaticRule (F : Type 0) : Type 0 where
  pub name : String
  pub query : String
  pub threshold : F
  pub operator : String
  pub severity : String

module _ {F : Type 0} ⦃fl : Float64 F⦄ where
  unfoldable pub breaches : F → F → String → Bool
  breaches value threshold op =
      if op == ">"
      then fl.lt threshold value
      else if op == ">="
      then fl.le threshold value
      else if op == "<"
      then fl.lt value threshold
      else if op == "<="
      then fl.le value threshold
      else fl.lt threshold value

  unfoldable pub static_anomaly : StaticRule F → ℕ → Sample F → Anomaly F
  static_anomaly rule now s = record {
    metric_name = rule.name;
    labels = s.labels;
    value = s.value;
    mean = fl.lit 0 1;
    stddev = fl.lit 0 1;
    score = fl.div s.value rule.threshold;
    severity = rule.severity;
    signal = "metrics";
    detector = "static";
    timestamp = now;
  }

  -- `StaticDetector.Evaluate`; one reading of the clock stands for those of the loop
  unfoldable pub evaluate_static : StaticRule F → ℕ → List (Sample F) → List (Anomaly F)
  unfolding static_anomaly
  evaluate_static rule now [] = []
  evaluate_static rule now (s ∷ samples) =
      let rest = evaluate_static rule now samples in
      if breaches s.value rule.threshold rule.operator
      then static_anomaly rule now s ∷ rest
      else rest
