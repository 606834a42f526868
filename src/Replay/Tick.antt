-- ===== src/Replay/Tick.antt =====
-- controller/internal/replay/engine.go: the filters of a tick of a replay.
pub mod Mirror
use anomaly_detection.Prelude.{ℕ, List, [], ◌∷◌}
use anomaly_detection.Float64.{Float64}
use anomaly_detection.Detection.{Anomaly}
use anomaly_detection.Detection.Direction.{filter_by_direction}
use anomaly_detection.Detection.Floor.{filter_by_floor}
use anomaly_detection.Detection.Fdr.{new_fdr, apply_fdr}
use anomaly_detection.Config.{DetectionConfig, direction_map, floor_map}

-- What a tick adds to the report.
pub record TickReport (F : Type 0) : Type 0 where
  pub accepted : List (Anomaly F)
  pub direction_filtered : ℕ
  pub floor_filtered : ℕ
  pub fdr_rejected : ℕ

module _ {F : Type 0} ⦃fl : Float64 F⦄ where
  -- the anomalies of a tick past the warm-up, with the number of series tested
  unfoldable pub tick_filter : DetectionConfig F → F → List (Anomaly F) → ℕ → TickReport F
  tick_filter d target [] tested = record {
    accepted = [];
    direction_filtered = 0;
    floor_filtered = 0;
    fdr_rejected = 0;
  }
  tick_filter d target (a ∷ anomalies) tested =
      let directed = filter_by_direction (a ∷ anomalies) (direction_map d) in
      let floored = filter_by_floor directed.0 (floor_map d) in
      let corrected = apply_fdr (new_fdr target) floored.0 tested in
      record {
        accepted = corrected.0;
        direction_filtered = directed.1;
        floor_filtered = floored.1;
        fdr_rejected = corrected.1;
      }
