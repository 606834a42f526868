-- ===== src/Detection/Direction/Kept.antt =====
-- controller/internal/detection/direction.go: which anomalies the direction of badness keeps.
use anomaly_detection.Prelude.{
  ◌+◌, ◌≡◌, refl, ap, String, not, List, [], ◌∷◌, ◌==◌, length, select, arith, Bool-cases, inl, inr,
}
use anomaly_detection.Float64.{Float64}
use anomaly_detection.Detection.{Anomaly}
use anomaly_detection.Detection.Direction.{
  refused, drops_by_direction, direction_loop, filter_by_direction,
}
use anomaly_detection.Labels.{lookup}

module _ {F : Type 0} ⦃fl : Float64 F⦄ where
  direction_loop_lem :
      (directions : List (String × String)) (xs : List (Anomaly F))
      → ((direction_loop directions xs).0 ≡ select (λ a. not (drops_by_direction directions a)) xs)
        × (length (direction_loop directions xs).0 + (direction_loop directions xs).1 ≡ length xs)
  unfolding direction_loop
  direction_loop_lem directions [] = (refl, omega arith)
  direction_loop_lem directions (a ∷ xs) =
      let (same, count) = direction_loop_lem directions xs in
      elim (Bool-cases (drops_by_direction directions a)) [
        | inl e ↦ rw e (same, omega (arith, count))
        | inr e ↦ rw e (ap (λ (ys : List (Anomaly F)). a ∷ ys) same, omega (arith, count))
      ]

  direction_drops_none :
      (xs : List (Anomaly F)) → xs ≡ select (λ a. not (drops_by_direction [] a)) xs
  unfolding drops_by_direction refused lookup
  direction_drops_none [] = refl
  direction_drops_none (a ∷ xs) = elim (Bool-cases (a.detector == "adaptive")) [
    | inl e ↦ rw e (ap (λ (ys : List (Anomaly F)). a ∷ ys) (direction_drops_none xs))
    | inr e ↦ rw e (ap (λ (ys : List (Anomaly F)). a ∷ ys) (direction_drops_none xs))
  ]

  -- The direction filter keeps, in order, all but the adaptive anomalies that their metric's direction
  -- does not allow, with the guard for an empty map or without; the count is of those dropped.
  pub filter_by_direction_lem :
      (xs : List (Anomaly F)) (directions : List (String × String))
      → let (kept, dropped) = filter_by_direction xs directions in
        (kept ≡ select (λ a. not (drops_by_direction directions a)) xs)
        × (length kept + dropped ≡ length xs)
  unfolding filter_by_direction
  filter_by_direction_lem xs [] = (direction_drops_none xs, omega arith)
  filter_by_direction_lem xs (f ∷ directions) = direction_loop_lem (f ∷ directions) xs
