-- ===== src/Baseline/Seasonal.antt =====
-- controller/internal/baseline/seasonal.go: the baselines per hour and day of the week. The hash
-- store, strconv and the digest are the parameters of `Baseline.Store`; `slot_of` is the text
-- "<weekday>:<hour>" of a time.
use Prim.Native.String.{◌++◌}
use anomaly_detection.Prelude.{
  ℕ, suc, String, Bool, false, Option, none, some, [], ◌∷◌, ltb, if◌then◌else◌,
}
use anomaly_detection.Float64.{Float64}
use anomaly_detection.Labels.{Labels, get}
use anomaly_detection.Baseline.{BaselineConfig, HashStore, Strconv}
use anomaly_detection.Baseline.Keys.{labels_hash}

pub record SeasonalStats (F : Type 0) : Type 0 where
  pub mean : F
  pub stddev : F
  pub samples : ℕ

module _ {F : Type 0} ⦃fl : Float64 F⦄ (conv : Strconv F) where
  unfoldable pub parse_seasonal_stats : Labels → SeasonalStats F
  parse_seasonal_stats fields = record {
    mean = conv.parse_float (get fields "mean");
    stddev = conv.parse_float (get fields "stddev");
    samples = conv.parse_int (get fields "samples");
  }

  -- the statistics behind one more value, by Welford's update
  unfoldable pub welford : SeasonalStats F → F → SeasonalStats F
  welford s value =
      let n = suc s.samples in
      let delta = fl.sub value s.mean in
      let mean = fl.add s.mean (fl.div delta (fl.lit n 1)) in
      let delta2 = fl.sub value mean in
      let m2 = fl.mul (fl.mul s.stddev s.stddev) (fl.lit s.samples 1) in
      let new_m2 = fl.add m2 (fl.mul delta delta2) in
      record {
        mean = mean;
        stddev = if ltb 1 n then fl.sqrt (fl.div new_m2 (fl.lit n 1)) else s.stddev;
        samples = n;
      }

  unfoldable pub write_seasonal_stats : SeasonalStats F → Labels
  write_seasonal_stats s =
      ("mean", conv.format_float s.mean)
      ∷ ("stddev", conv.format_float s.stddev)
      ∷ ("samples", conv.format_int s.samples)
      ∷ []

  module _ {R : Type 0} (hashes : HashStore R) (digest : String → String)
      (slot_of : ℕ → String) where
    unfoldable pub seasonal_key : String → Labels → ℕ → String
    seasonal_key metric labels now =
        "seasonal:" ++ (metric ++ (":" ++ (labels_hash digest labels ++ (":" ++ slot_of now))))

    -- `Update`: the server behind it, and whether it gave no error
    unfoldable pub seasonal_update : String → Labels → F → ℕ → R → R × Bool
    unfolding welford
    seasonal_update metric labels value now r =
        let key = seasonal_key metric labels now in
        elim (hashes.hget_all r key) [
          | none ↦ (r, false)
          | some fields ↦
              hashes.hset r key (write_seasonal_stats (welford (parse_seasonal_stats fields) value))
        ]

    -- the statistics read, if there are enough samples
    unfoldable pub enough : BaselineConfig F → Option Labels → Option (SeasonalStats F)
    enough cfg none = none
    enough cfg (some []) = none
    enough cfg (some (d ∷ fields)) =
        let stats = parse_seasonal_stats (d ∷ fields) in
        if ltb stats.samples cfg.seasonal_min_days then none else some stats

    -- `Get`
    unfoldable pub seasonal_get :
        BaselineConfig F → String → Labels → ℕ → R → Option (SeasonalStats F)
    unfolding enough
    seasonal_get cfg metric labels now r =
        enough cfg (hashes.hget_all r (seasonal_key metric labels now))

    -- `IsSeasonalAnomaly` on what `Get` found
    unfoldable pub seasonal_verdict : Option (SeasonalStats F) → F → Bool × F
    seasonal_verdict none value = (false, fl.lit 0 1)
    seasonal_verdict (some stats) value =
        let zscore = fl.div (fl.abs (fl.sub value stats.mean)) stats.stddev in
        if fl.eq stats.stddev (fl.lit 0 1)
        then (false, fl.lit 0 1)
        else (fl.lt (fl.lit 3 1) zscore, zscore)

    unfoldable pub is_seasonal_anomaly : BaselineConfig F → String → Labels → F → ℕ → R → Bool × F
    unfolding seasonal_verdict
    is_seasonal_anomaly cfg metric labels value now r =
        seasonal_verdict (seasonal_get cfg metric labels now r) value
