-- ===== src/Detection/Floor.antt =====
-- controller/internal/detection/floor.go: the absolute floor `min_value` of adaptive rules.
pub mod Kept
use anomaly_detection.Prelude.{
  ℕ, suc, String, Bool, true, false, ◌&&◌, Option, none, some, List, [], ◌∷◌, ◌==◌, if◌then◌else◌,
}
use anomaly_detection.Float64.{Float64}
use anomaly_detection.Labels.{lookup}
use anomaly_detection.Detection.{Anomaly}

module _ {F : Type 0} ⦃fl : Float64 F⦄ where
  -- floor > 0 && math.Abs(a.Value) < floor, for the entry of the map
  unfoldable pub below_floor : F → Option F → Bool
  below_floor v none = false
  below_floor v (some floor) = fl.lt (fl.lit 0 1) floor && fl.lt (fl.abs v) floor

  unfoldable pub drops_by_floor : List (String × F) → Anomaly F → Bool
  unfolding below_floor
  drops_by_floor floors a =
      if a.detector == "adaptive" then below_floor a.value (lookup a.metric_name floors) else false

  -- the loop over the anomalies, with the anomalies that are kept and the number dropped
  unfoldable pub floor_loop : List (String × F) → List (Anomaly F) → List (Anomaly F) × ℕ
  unfolding drops_by_floor
  floor_loop floors [] = ([], 0)
  floor_loop floors (a ∷ rest) =
      let (kept, dropped) = floor_loop floors rest in
      if drops_by_floor floors a then (kept, suc dropped) else (a ∷ kept, dropped)

  unfoldable pub filter_by_floor : List (Anomaly F) → List (String × F) → List (Anomaly F) × ℕ
  unfolding floor_loop
  filter_by_floor anomalies [] = (anomalies, 0)
  filter_by_floor anomalies (f ∷ floors) = floor_loop (f ∷ floors) anomalies
