-- ===== src/Baseline.antt =====
-- controller/internal/baseline: the statistics of a series, the result of an evaluation, and the
-- interfaces of the package (store.go), with the configuration it reads (config/config.go).
pub mod Keys
pub mod Store
pub mod Seasonal
use anomaly_detection.Prelude.{
  ℕ, ◌≤◌, ◌<◌, String, ◌≡◌, Bool, true, false, not, ◌^◌, ◌&&◌, ◌||◌, Option, List, nat_beq, ltb,
  if◌then◌else◌,
}
use anomaly_detection.Float64.{Float64}
use anomaly_detection.Labels.{Labels}

-- config.Baseline
pub record BaselineConfig (F : Type 0) : Type 0 where
  pub ewma_alpha : F
  pub zscore_threshold : F
  pub poison_threshold : F
  pub warm_up_samples : ℕ
  pub seasonal_min_days : ℕ
  pub ephemeral_labels : List String

-- `last_update` is in nanoseconds since the epoch.
pub record Stats (F : Type 0) : Type 0 where
  pub mean : F
  pub stddev : F
  pub ewma : F
  pub count : ℕ
  pub last_update : ℕ

pub record Result (F : Type 0) : Type 0 where
  pub is_anomaly : Bool
  pub zscore : F
  pub value : F
  pub mean : F
  pub stddev : F
  pub ewma : F
  pub is_warming_up : Bool

-- One call of an `Evaluator`: a result, or the error of the read or of the write.
pub data Outcome (F : Type 0) : Type 0 where
  evaluated : Result F → Outcome F
  load_failed : Outcome F
  save_failed : Outcome F

-- The interface `Evaluator`, for an implementation with the state `S`; the last argument is the clock.
pub record Evaluator (F S : Type 0) : Type 0 where
  pub evaluate : String → Labels → F → ℕ → S → Outcome F × S

-- The interface `hashStore` over Redis, for a server with the state `R`. A read that fails has no
-- answer; a write says whether it succeeded, beside the state that it leaves.
pub record HashStore (R : Type 0) : Type 0 where
  pub hget_all : R → String → Option Labels
  pub hset : R → String → Labels → R × Bool

-- strconv: FormatFloat(x, 'f', -1, 64), ParseFloat and FormatInt, ParseInt in base 10, where a
-- text that is no number reads as 0.
pub record Strconv (F : Type 0) : Type 0 where
  pub format_float : F → String
  pub parse_float : String → F
  pub format_int : ℕ → String
  pub parse_int : String → ℕ

-- The shortest decimal form reads back as the same number.
pub record IsRoundTrip {F : Type 0} (c : Strconv F) : Type 0 where
  pub floats : (x : F) → c.parse_float (c.format_float x) ≡ x
  pub ints : (n : ℕ) → c.parse_int (c.format_int n) ≡ n

-- The contract that the comment on `Evaluator` states, for the statistics before the call, the value
-- and the result. The comment divides by the deviation; where that is 0, the code divides by a floor:
-- one percent of the EWMA or of the value, whichever is larger, and at least 10^-9.
pub record MeetsContract {F : Type 0} ⦃fl : Float64 F⦄ (cfg : BaselineConfig F) (before : Stats F)
    (value : F) (r : Result F) : Type 0 where
  pub warms_up : r.is_warming_up ≡ (nat_beq before.count 0 || ltb before.count cfg.warm_up_samples)
  pub fires : r.is_anomaly ≡ (not r.is_warming_up && fl.lt cfg.zscore_threshold r.zscore)
  pub deviates :
      r.is_warming_up ≡ false
      → fl.eq before.stddev (fl.lit 0 1) ≡ false
      → r.zscore ≡ fl.div (fl.abs (fl.sub value before.ewma)) before.stddev
  pub deviates_floored :
      r.is_warming_up ≡ false
      → fl.eq before.stddev (fl.lit 0 1) ≡ true
      → r.zscore
        ≡ fl.div (fl.abs (fl.sub value before.ewma)) (
            fl.max
              (fl.max
                (fl.mul (fl.abs before.ewma) (fl.lit 1 100))
                (fl.mul (fl.abs value) (fl.lit 1 100)))
              (fl.lit 1 (10 ^ 9)))
