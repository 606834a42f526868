-- ===== src/Detection/Floor/Kept.antt =====
-- controller/internal/detection/floor.go: which anomalies the floor keeps.
use anomaly_detection.Prelude.{
  ◌+◌, ◌≡◌, refl, ap, String, not, List, [], ◌∷◌, ◌==◌, length, select, arith, Bool-cases, inl, inr,
}
use anomaly_detection.Float64.{Float64}
use anomaly_detection.Detection.{Anomaly}
use anomaly_detection.Detection.Floor.{below_floor, drops_by_floor, floor_loop, filter_by_floor}
use anomaly_detection.Labels.{lookup}

module _ {F : Type 0} ⦃fl : Float64 F⦄ where
  floor_loop_lem :
      (floors : List (String × F)) (xs : List (Anomaly F))
      → ((floor_loop floors xs).0 ≡ select (λ a. not (drops_by_floor floors a)) xs)
        × (length (floor_loop floors xs).0 + (floor_loop floors xs).1 ≡ length xs)
  unfolding floor_loop
  floor_loop_lem floors [] = (refl, omega arith)
  floor_loop_lem floors (a ∷ xs) =
      let (same, count) = floor_loop_lem floors xs in
      elim (Bool-cases (drops_by_floor floors a)) [
        | inl e ↦ rw e (same, omega (arith, count))
        | inr e ↦ rw e (ap (λ (ys : List (Anomaly F)). a ∷ ys) same, omega (arith, count))
      ]

  floor_drops_none : (xs : List (Anomaly F)) → xs ≡ select (λ a. not (drops_by_floor [] a)) xs
  unfolding drops_by_floor below_floor lookup
  floor_drops_none [] = refl
  floor_drops_none (a ∷ xs) = elim (Bool-cases (a.detector == "adaptive")) [
    | inl e ↦ rw e (ap (λ (ys : List (Anomaly F)). a ∷ ys) (floor_drops_none xs))
    | inr e ↦ rw e (ap (λ (ys : List (Anomaly F)). a ∷ ys) (floor_drops_none xs))
  ]

  -- The floor filter keeps, in order, all but the adaptive anomalies of a metric with a positive
  -- floor whose absolute value is below it, with the guard for an empty map or without; the count
  -- is of those dropped.
  pub filter_by_floor_lem :
      (xs : List (Anomaly F)) (floors : List (String × F))
      → let (kept, dropped) = filter_by_floor xs floors in
        (kept ≡ select (λ a. not (drops_by_floor floors a)) xs)
        × (length kept + dropped ≡ length xs)
  unfolding filter_by_floor
  filter_by_floor_lem xs [] = (floor_drops_none xs, omega arith)
  filter_by_floor_lem xs (f ∷ floors) = floor_loop_lem (f ∷ floors) xs
