-- ===== src/Replay/Inject/Faults.antt =====
-- controller/internal/replay/inject/faults.go: the perturbations of a series. The draws of the
-- random generator are a list of the values of rng.Float64(), which is no part of the repository.
use anomaly_detection.Prelude.{
  ℕ, ◌-◌, String, Bool, ◌&&◌, List, [], ◌∷◌, Option, none, some, ◌==◌, leb, ltb, length,
  if◌then◌else◌,
}
use anomaly_detection.Float64.{Float64}
use anomaly_detection.Replay.Adapter.{Point}

-- !p.T.Before(start) && !p.T.After(end)
abbrev pub in_window : ℕ → ℕ → ℕ → Bool
in_window start end t = leb start t && leb t end

module _ {F : Type 0} ⦃fl : Float64 F⦄ where
  -- the sums of the values and of their squares
  unfoldable pub sums : List (Point F) → F → F → F × F
  sums [] sum sum_sq = (sum, sum_sq)
  sums (p ∷ points) sum sum_sq = sums points (fl.add sum p.v) (fl.add sum_sq (fl.mul p.v p.v))

  unfoldable pub deviation_of : F → F × F → F
  deviation_of n (sum, sum_sq) =
      let mean = fl.div sum n in
      let variance = fl.sub (fl.div sum_sq n) (fl.mul mean mean) in
      let sd = fl.sqrt (if fl.lt variance (fl.lit 0 1) then fl.lit 0 1 else variance) in
      if fl.eq sd (fl.lit 0 1) then fl.lit 1 1 else sd

  -- `seriesStddev`
  unfoldable pub series_stddev : List (Point F) → F
  unfolding sums deviation_of
  series_stddev points =
      if ltb (length points) 2
      then fl.lit 1 1
      else deviation_of (fl.lit (length points) 1) (sums points (fl.lit 0 1) (fl.lit 0 1))

  -- the next draw, and those behind it
  abbrev draw : List F → F × List F
  draw [] = (fl.lit 0 1, [])
  draw (x ∷ xs) = (x, xs)

  abbrev raised_by : F → Point F → Point F
  raised_by x p = record p { v = fl.add p.v x }

  -- the loop of `faultSpike`: a draw for each point of the window
  unfoldable pub spike_points : F → ℕ → ℕ → F → List (Point F) → List F → List (Point F) × List F
  spike_points sd start end magnitude [] draws = ([], draws)
  spike_points sd start end magnitude (p ∷ points) draws =
      let inside = in_window start end p.t in
      let (x, behind) = draw draws in
      let jitter = fl.add (fl.lit 1 1) (fl.mul (fl.sub x (fl.lit 1 2)) (fl.lit 1 10)) in
      let moved = raised_by (fl.mul (fl.mul magnitude sd) jitter) p in
      let (rest, left) =
        spike_points sd start end magnitude points (if inside then behind else draws) in
      ((if inside then moved else p) ∷ rest, left)

  unfoldable pub ramp_points : F → ℕ → ℕ → F → List (Point F) → List (Point F)
  ramp_points sd start end magnitude [] = []
  ramp_points sd start end magnitude (p ∷ points) =
      let progress = fl.div (fl.lit (p.t - start) 1) (fl.lit (end - start) 1) in
      let moved = raised_by (fl.mul (fl.mul progress magnitude) sd) p in
      (if in_window start end p.t then moved else p) ∷ ramp_points sd start end magnitude points

  unfoldable pub step_points : F → ℕ → ℕ → F → List (Point F) → List (Point F)
  step_points sd start end magnitude [] = []
  step_points sd start end magnitude (p ∷ points) =
      (if in_window start end p.t then raised_by (fl.mul magnitude sd) p else p)
      ∷ step_points sd start end magnitude points

  unfoldable pub silence_points : ℕ → ℕ → List (Point F) → List (Point F)
  silence_points start end [] = []
  silence_points start end (p ∷ points) =
      let rest = silence_points start end points in
      if in_window start end p.t then rest else p ∷ rest

  -- the function of `faultFuncForType` on the points and the draws; none is the nil function
  unfoldable pub apply_fault :
      String → ℕ → ℕ → F → List (Point F) → List F → Option (List (Point F) × List F)
  unfolding series_stddev spike_points ramp_points step_points silence_points
  apply_fault type start end magnitude points draws =
      let sd = series_stddev points in
      if type == "spike"
      then some (spike_points sd start end magnitude points draws)
      else if type == "ramp"
      then some
          ((if leb end start then points else ramp_points sd start end magnitude points), draws)
      else if type == "step"
      then some (step_points sd start end magnitude points, draws)
      else if type == "silence"
      then some (silence_points start end points, draws)
      else none
