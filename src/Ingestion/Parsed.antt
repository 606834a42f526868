-- ===== src/Ingestion/Parsed.antt =====
-- controller/internal/ingestion/metrics.go: a reply in the form of Prometheus reads back.
use anomaly_detection.Prelude.{
  ℕ, ◌*◌, ◌^◌, ◌≤◌, ◌≡◌, refl, All, ap, String, some, List, [], ◌∷◌, map,
}
use anomaly_detection.Labels.{Labels}
use anomaly_detection.Detection.{Sample}
use anomaly_detection.Worker.{answered}
use anomaly_detection.Replay.Adapter.{Point, TimeSeries}
use anomaly_detection.Ingestion.{
  JsonValue, json_string, json_number, Parsers, InstantResult, RangeResult, HttpOutcome, responded,
  value_of, parse_samples, prom_time, parse_points, parse_series, parse_range_series, of_decoded,
  query_outcome,
}

-- How Prometheus writes numbers: a value as a text, a time as a number of seconds.
pub record Printers (F : Type 0) : Type 0 where
  pub print_float : F → String
  pub number : ℕ → F

-- What is written reads back; of the times, the whole seconds up to 2^53, which a float64 holds.
pub record IsReadable {F : Type 0} (parsers : Parsers F) (printers : Printers F) : Type 0 where
  pub floats : (x : F) → parsers.parse_float (printers.print_float x) ≡ some x
  pub times : (n : ℕ) → n ≤ 2 ^ 53 → parsers.trunc (printers.number n) ≡ n

-- a series with its times in seconds
pub record SecondSeries (F : Type 0) : Type 0 where
  pub labels : Labels
  pub points : List (ℕ × F)

module _ {F : Type 0} where
  abbrev pub point_at : ℕ × F → Point F
  point_at (n, v) = record { t = n * 10 ^ 9; v = v }

  -- the times of a series are seconds up to 2^53
  abbrev pub IsTimed : SecondSeries F → Type 0
  IsTimed s = All (λ p. p.0 ≤ 2 ^ 53) s.points

  abbrev pub series_at : SecondSeries F → TimeSeries F
  series_at s = record { labels = s.labels; points = map point_at s.points }

  module _ (printers : Printers F) where
    -- the JSON forms of a point, of a series and of a sample
    abbrev pub pair_of : ℕ × F → JsonValue F × JsonValue F
    pair_of (n, v) = (json_number (printers.number n), json_string (printers.print_float v))

    abbrev pub matrix_entry : SecondSeries F → RangeResult F
    matrix_entry s = record { metric = s.labels; values = map pair_of s.points }

    abbrev pub vector_entry : ℕ → Sample F → InstantResult F
    vector_entry now s = record { metric = s.labels; value = pair_of (now, s.value) }

    module _ (parsers : Parsers F) (readable : IsReadable parsers printers) where
      points_back :
          (points : List (ℕ × F))
          → All (λ p. p.0 ≤ 2 ^ 53) points
          → parse_points parsers (prom_time parsers) (map pair_of points) ≡ map point_at points
      unfolding parse_points prom_time value_of
      points_back [] h = refl
      points_back ((n, v) ∷ points) h =
          rw (readable.floats v, readable.times n h.0)
            (ap (λ (ps : List (Point F)). point_at (n, v) ∷ ps) (points_back points h.1))

      series_back :
          (series : List (SecondSeries F))
          → All IsTimed series
          → parse_range_series parsers (map matrix_entry series) ≡ map series_at series
      unfolding parse_range_series parse_series
      series_back [] h = refl
      series_back (s ∷ series) h = rw (points_back s.points h.0, series_back series h.1) refl

      samples_back :
          (now : ℕ) (samples : List (Sample F))
          → parse_samples parsers (map (vector_entry now) samples) ≡ samples
      unfolding parse_samples value_of
      samples_back now [] = refl
      samples_back now (s ∷ samples) =
          rw (readable.floats s.value)
            (ap (λ (xs : List (Sample F)). s ∷ xs) (samples_back now samples))

-- a successful reply
abbrev pub success : {A : Type 0} → String → List A → HttpOutcome A
success body result =
    responded 200 body (answered (record { status = "success"; error = ""; result = result }))

-- If values and times read back, a successful reply with the JSON forms of some samples is answered
-- with these samples, and one with those of some series, whose times are whole seconds up to 2^53,
-- with these series, every point at its time.
pub replies_read_back :
    {F : Type 0} (source failure : String) (print_status : ℕ → String) (parsers : Parsers F)
    (printers : Printers F) (now : ℕ) (body : String) (samples : List (Sample F))
    (series : List (SecondSeries F))
    → IsReadable parsers printers
    → All IsTimed series
    → (query_outcome source failure print_status
          (parse_samples parsers)
          (success body (map (vector_entry printers now) samples))
        ≡ answered samples)
      × (query_outcome source failure print_status
            (parse_range_series parsers)
            (success body (map (matrix_entry printers) series))
          ≡ answered (map series_at series))
unfolding query_outcome of_decoded
replies_read_back source failure print_status parsers printers now body samples series readable
      timed =
    (
      ap answered (samples_back printers parsers readable now samples),
      ap answered (series_back printers parsers readable series timed),
    )
