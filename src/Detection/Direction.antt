-- ===== src/Detection/Direction.antt =====
-- controller/internal/detection/direction.go: direction of badness of adaptive rules.
pub mod Kept
use anomaly_detection.Prelude.{
  ℕ, suc, String, Bool, true, false, not, Option, none, some, List, [], ◌∷◌, ◌==◌, if◌then◌else◌,
}
use anomaly_detection.Float64.{Float64}
use anomaly_detection.Labels.{lookup}
use anomaly_detection.Detection.{Anomaly}

module _ {F : Type 0} ⦃fl : Float64 F⦄ where
  unfoldable pub direction_allows : Anomaly F → String → Bool
  direction_allows a direction =
      if direction == "up_bad"
      then fl.le a.mean a.value
      else if direction == "down_bad"
      then fl.le a.value a.mean
      else true

  -- dir, ok := directions[a.MetricName]; ok && !DirectionAllows(*a, dir)
  unfoldable pub refused : Anomaly F → Option String → Bool
  unfolding direction_allows
  refused a none = false
  refused a (some dir) = not (direction_allows a dir)

  unfoldable pub drops_by_direction : List (String × String) → Anomaly F → Bool
  unfolding refused
  drops_by_direction directions a =
      if a.detector == "adaptive" then refused a (lookup a.metric_name directions) else false

  unfoldable pub direction_loop : List (String × String) → List (Anomaly F) → List (Anomaly F) × ℕ
  unfolding drops_by_direction
  direction_loop directions [] = ([], 0)
  direction_loop directions (a ∷ rest) =
      let (kept, dropped) = direction_loop directions rest in
      if drops_by_direction directions a then (kept, suc dropped) else (a ∷ kept, dropped)

  unfoldable pub filter_by_direction :
      List (Anomaly F) → List (String × String) → List (Anomaly F) × ℕ
  unfolding direction_loop
  filter_by_direction anomalies [] = (anomalies, 0)
  filter_by_direction anomalies (d ∷ directions) = direction_loop (d ∷ directions) anomalies
