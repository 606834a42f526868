-- ===== src/Replay/Adapter.antt =====
-- controller/internal/replay/adapter.go: the samples at a tick; and the points and series of
-- ingestion/metrics.go.
pub mod Latest
use anomaly_detection.Prelude.{ℕ, Bool, Option, none, some, List, [], ◌∷◌, leb, if◌then◌else◌}
use anomaly_detection.Float64.{Float64}
use anomaly_detection.Labels.{Labels}
use anomaly_detection.Detection.{Sample}

pub record Point (F : Type 0) : Type 0 where
  pub t : ℕ
  pub v : F

pub record TimeSeries (F : Type 0) : Type 0 where
  pub labels : Labels
  pub points : List (Point F)

module _ {F : Type 0} where
  -- the loop of `lastPointBefore` with the result so far
  unfoldable pub last_point_loop : ℕ → List (Point F) → Option (Point F) → Option (Point F)
  last_point_loop ts [] result = result
  last_point_loop ts (p ∷ points) result =
      let rest = last_point_loop ts points (some p) in if leb p.t ts then rest else result

  unfoldable pub last_point_before : ℕ → List (Point F) → Option (Point F)
  unfolding last_point_loop
  last_point_before ts points = last_point_loop ts points none

  module _ ⦃fl : Float64 F⦄ where
    -- the sample of a series, unless it has no point in time or the value is not finite
    unfoldable pub sample_of : Labels → Option (Point F) → Option (Sample F)
    sample_of labels none = none
    sample_of labels (some p) =
        if fl.is_finite p.v then some (record { labels = labels; value = p.v }) else none

    -- `SamplesAt`
    unfoldable pub samples_at : ℕ → List (TimeSeries F) → List (Sample F)
    unfolding sample_of
    samples_at ts [] = []
    samples_at ts (s ∷ series) =
        let rest = samples_at ts series in
        elim (sample_of s.labels (last_point_before ts s.points)) [
          | none ↦ rest
          | some sample ↦ sample ∷ rest
        ]
