-- ===== src/Detection/Pattern.antt =====
-- controller/internal/detection/pattern.go: Kubernetes events against known reasons.
use anomaly_detection.Prelude.{ℕ, String, Option, none, some, List, [], ◌∷◌, ◌==◌, if◌then◌else◌}
use anomaly_detection.Float64.{Float64}
use anomaly_detection.Labels.{Labels, get, contains}
use anomaly_detection.Detection.{Anomaly}

-- ingestion.EventAnomaly
pub record EventAnomaly : Type 0 where
  pub reason : String
  pub namespace : String
  pub pod : String
  pub count : ℕ
  pub timestamp : ℕ

abbrev event_severity : Labels
event_severity =
    ("OOMKilled", "critical")
    ∷ ("CrashLoopBackOff", "critical")
    ∷ ("Evicted", "critical")
    ∷ ("FailedScheduling", "warning")
    ∷ ("FailedMount", "warning")
    ∷ ("BackOff", "warning")
    ∷ []

unfoldable pub severity_of : String → String
unfolding get
severity_of reason =
    let severity = get event_severity reason in if severity == "" then "warning" else severity

module _ {F : Type 0} ⦃fl : Float64 F⦄ where
  unfoldable pub evaluate_event : List String → EventAnomaly → Option (Anomaly F)
  unfolding severity_of
  evaluate_event patterns event =
      if contains patterns event.reason
      then some (record {
        metric_name = event.reason;
        labels = ("namespace", event.namespace) ∷ ("pod", event.pod) ∷ [];
        value = fl.lit event.count 1;
        mean = fl.lit 0 1;
        stddev = fl.lit 0 1;
        score = fl.lit event.count 1;
        severity = severity_of event.reason;
        signal = "events";
        detector = "pattern";
        timestamp = event.timestamp;
      })
      else none
