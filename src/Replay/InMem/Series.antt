-- ===== src/Replay/InMem/Series.antt =====
-- One evaluation of a series, and runs of evaluations over many series.
use anomaly_detection.Prelude.{
  ℕ, suc, ◌≡◌, refl, String, Option, none, some, List, [], ◌∷◌, ◌==◌, arith, if◌then◌else◌,
}
use anomaly_detection.Float64.{Float64}
use anomaly_detection.Labels.{Labels, lookup, lookup-insert}
use anomaly_detection.Baseline.{BaselineConfig, Stats, evaluated}
use anomaly_detection.Replay.InMem.{in_mem_key, step_series, write_series, evaluate_in_mem}

-- A sample as it is handed to an evaluator: the metric, the labels, the value and the clock.
pub record Reading (F : Type 0) : Type 0 where
  pub metric : String
  pub labels : Labels
  pub value : F
  pub now : ℕ

module _ {F : Type 0} ⦃fl : Float64 F⦄ where
  -- what is stored for a series behind a step
  abbrev pub after : Option (Stats F) → Option (Stats F) → Option (Stats F)
  after old none = old
  after old (some new) = some new

  pub lookup-write_series :
      (key other : String) (new : Option (Stats F)) (series : List (String × Stats F))
      → lookup other (write_series key new series)
        ≡ (if key == other then after (lookup other series) new else lookup other series)
  unfolding write_series
  lookup-write_series key other none series = ground arith
  lookup-write_series key other (some new) series = lookup-insert key other new series

  module _ (digest : String → String) (cfg : BaselineConfig F) where
    abbrev pub key_of : Reading F → String
    key_of s = in_mem_key digest s.metric s.labels

    -- An evaluation looks at nothing but the entry of its own key, and changes no other entry.
    pub evaluate_in_mem_frame :
        (s : Reading F) (series : List (String × Stats F)) (other : String)
        → let (result, new) = step_series cfg (lookup (key_of s) series) s.value s.now in
          let out = evaluate_in_mem digest cfg s.metric s.labels s.value s.now series in
          (out.0 ≡ evaluated result)
          × (lookup other out.1 ≡ (
              if key_of s == other then after (lookup other series) new else lookup other series))
    unfolding evaluate_in_mem
    evaluate_in_mem_frame s series other = (refl, lookup-write_series (key_of s) other _ series)

    -- the entries behind a sequence of readings, in order
    unfoldable pub run_readings :
        List (Reading F) → List (String × Stats F) → List (String × Stats F)
    run_readings [] series = series
    run_readings (s ∷ rest) series =
        run_readings rest (evaluate_in_mem digest cfg s.metric s.labels s.value s.now series).1

    -- how many of the readings belong to a series
    unfoldable pub readings_of : String → List (Reading F) → ℕ
    readings_of key [] = 0
    readings_of key (s ∷ rest) =
        if key_of s == key then suc (readings_of key rest) else readings_of key rest
