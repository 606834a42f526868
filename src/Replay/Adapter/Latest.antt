-- ===== src/Replay/Adapter/Latest.antt =====
-- controller/internal/replay/adapter.go: which point `lastPointBefore` finds.
use anomaly_detection.Prelude.{
  ℕ, ◌≤◌, ◌<◌, ◌≡◌, refl, ◌⊎◌, inl, inr, Option, none, some, List, [], ◌∷◌, All, leb, leb→le, arith,
  Bool-cases,
}
use anomaly_detection.Replay.Adapter.{Point, last_point_loop, last_point_before}

module _ {F : Type 0} where
  -- the points are in the order of time
  abbrev pub IsChronological : List (Point F) → Type 0
  IsChronological [] = Unit
  IsChronological (p ∷ points) = All (λ q. p.t ≤ q.t) points × IsChronological points

  -- The points split into those up to the time and those after it, and the result is the last of
  -- the former, or the one before the loop if there is none.
  abbrev pub Latest : ℕ → Option (Point F) → List (Point F) → Option (Point F) → Type 0
  Latest ts start [] result = result ≡ start
  Latest ts start (p ∷ points) result =
      ((p.t ≤ ts) × Latest ts (some p) points result)
      ⊎ ((ts < p.t) × All (λ q. ts < q.t) points × (result ≡ start))

  All-later :
      (ts : ℕ) (p : Point F) (points : List (Point F))
      → ts < p.t
      → All (λ q. p.t ≤ q.t) points
      → All (λ q. ts < q.t) points
  All-later ts p [] h a = tt
  All-later ts p (q ∷ points) h a = (omega arith, All-later ts p points h a.1)

  last_point_loop_lem :
      (ts : ℕ) (points : List (Point F)) (start : Option (Point F))
      → IsChronological points
      → Latest ts start points (last_point_loop ts points start)
  unfolding last_point_loop
  last_point_loop_lem ts [] start h = refl
  last_point_loop_lem ts (p ∷ points) start h = elim (Bool-cases (leb p.t ts)) [
    | inl e ↦ rw e (inl (leb→le p.t ts e, last_point_loop_lem ts points (some p) h.1))
    | inr e ↦
        let later : ts < p.t = ground arith in
        rw e (inr (later, All-later ts p points later h.0, refl))
  ]

  -- On points in the order of time, the scan that stops at the first later point finds the last
  -- point up to the time, if there is one: no point up to the time is behind it.
  pub last_point_before-Latest :
      (ts : ℕ) (points : List (Point F))
      → IsChronological points
      → Latest ts none points (last_point_before ts points)
  unfolding last_point_before
  last_point_before-Latest ts points h = last_point_loop_lem ts points none h
