-- ===== src/Detection.antt =====
-- controller/internal/detection: the anomaly that every detector produces (engine.go) and the
-- configuration records that the detectors read (config/config.go, ingestion).
pub mod Static
pub mod Floor
pub mod Direction
pub mod Pattern
pub mod Fdr
pub mod Adaptive
use anomaly_detection.Prelude.{ℕ, String, List}
use anomaly_detection.Labels.{Labels}

-- Timestamps are nanoseconds since the epoch.
pub record Anomaly (F : Type 0) : Type 0 where
  pub metric_name : String
  pub labels : Labels
  pub value : F
  pub mean : F
  pub stddev : F
  pub score : F
  pub severity : String
  pub signal : String
  pub detector : String
  pub timestamp : ℕ

-- ingestion.Sample
pub record Sample (F : Type 0) : Type 0 where
  pub labels : Labels
  pub value : F
