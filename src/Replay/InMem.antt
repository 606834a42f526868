-- ===== src/Replay/InMem.antt =====
-- controller/internal/replay/inmem_baseline.go: `InMemStore`, the baselines of a replay.
pub mod Series
pub mod WarmUp
pub mod Mirrors
pub mod Parity
use Prim.Native.String.{◌++◌}
use anomaly_detection.Prelude.{
  ℕ, suc, String, Bool, true, false, not, ◌||◌, ◌&&◌, Option, none, some, List, [], ◌∷◌, map,
  nat_beq, ltb, length, ◌^◌, if◌then◌else◌,
}
use anomaly_detection.Float64.{Float64}
use anomaly_detection.Labels.{Labels, lookup, insert}
use anomaly_detection.Baseline.{BaselineConfig, Stats, Result, Outcome, evaluated, Evaluator}
use anomaly_detection.Baseline.Keys.{sort_strings, write_labels}

-- `inMemKey`
unfoldable pub in_mem_key : (String → String) → String → Labels → String
in_mem_key digest metric [] = metric ++ ":none"
in_mem_key digest metric (l ∷ labels) =
    let all = l ∷ labels in
    metric ++ (":" ++ digest (write_labels all (sort_strings (map (λ e. e.0) all))))

module _ {F : Type 0} ⦃fl : Float64 F⦄ where
  unfoldable pub series_zscore : Stats F → F → F
  series_zscore stats value =
      let floor =
        fl.max (fl.mul (fl.abs stats.ewma) (fl.lit 1 100)) (fl.mul (fl.abs value) (fl.lit 1 100)) in
      let stddev =
        if fl.eq stats.stddev (fl.lit 0 1)
        then fl.max floor (fl.lit 1 (10 ^ 9))
        else stats.stddev in
      fl.div (fl.abs (fl.sub value stats.ewma)) stddev

  unfoldable pub next_stats : BaselineConfig F → Stats F → F → ℕ → Stats F
  next_stats cfg stats value now =
      let alpha = cfg.ewma_alpha in
      let new_ewma = fl.add (fl.mul alpha value) (fl.mul (fl.sub (fl.lit 1 1) alpha) stats.ewma) in
      let new_count = suc stats.count in
      let delta = fl.sub value stats.mean in
      let new_mean = fl.add stats.mean (fl.div delta (fl.lit new_count 1)) in
      let delta2 = fl.sub value new_mean in
      let m2 = fl.mul (fl.mul stats.stddev stats.stddev) (fl.lit stats.count 1) in
      let new_m2 = fl.add m2 (fl.mul delta delta2) in
      let new_stddev =
        if ltb 1 new_count then fl.sqrt (fl.div new_m2 (fl.lit new_count 1)) else fl.lit 0 1 in
      record {
        mean = new_mean;
        stddev = new_stddev;
        ewma = new_ewma;
        count = new_count;
        last_update = now;
      }

  -- the literal `baseline.Result{IsWarmingUp: true, ...}`
  unfoldable pub warming : F → Stats F → Result F
  warming value stats = record {
    is_anomaly = false;
    zscore = fl.lit 0 1;
    value = value;
    mean = stats.mean;
    stddev = stats.stddev;
    ewma = stats.ewma;
    is_warming_up = true;
  }

  -- the literal `baseline.Result{IsAnomaly: zscore > s.cfg.ZScoreThreshold, ...}`
  unfoldable pub judged : BaselineConfig F → F → F → Stats F → Result F
  judged cfg z value stats = record {
    is_anomaly = fl.lt cfg.zscore_threshold z;
    zscore = z;
    value = value;
    mean = stats.mean;
    stddev = stats.stddev;
    ewma = stats.ewma;
    is_warming_up = false;
  }

  unfoldable pub start_stats : F → ℕ → Stats F
  start_stats value now = record {
    mean = value;
    stddev = fl.lit 0 1;
    ewma = value;
    count = 1;
    last_update = now;
  }

  -- `Evaluate` behind the lookup: the result, and the statistics to store if there are any
  unfoldable pub step_series :
      BaselineConfig F → Option (Stats F) → F → ℕ → Result F × Option (Stats F)
  unfolding series_zscore next_stats warming judged start_stats
  step_series cfg none value now =
      (warming value (start_stats value now), some (start_stats value now))
  step_series cfg (some stats) value now =
      if nat_beq stats.count 0
      then (warming value (start_stats value now), some (start_stats value now))
      else let z = series_zscore stats value in
        let poisoned = fl.lt (fl.lit 0 1) cfg.poison_threshold && fl.lt cfg.poison_threshold z in
        let is_warming_up = ltb stats.count cfg.warm_up_samples in
        let new = next_stats cfg stats value now in
        if not poisoned || is_warming_up
        then (if is_warming_up then warming value new else judged cfg z value new, some new)
        else (judged cfg z value stats, none)

  unfoldable pub write_series :
      String → Option (Stats F) → List (String × Stats F) → List (String × Stats F)
  write_series key none series = series
  write_series key (some stats) series = insert key stats series

  -- `InMemStore.Evaluate`, which never fails
  unfoldable pub evaluate_in_mem :
      (String → String)
      → BaselineConfig F
      → String
      → Labels
      → F
      → ℕ
      → List (String × Stats F)
      → Outcome F × List (String × Stats F)
  unfolding write_series
  evaluate_in_mem digest cfg metric labels value now series =
      let key = in_mem_key digest metric labels in
      let (result, new) = step_series cfg (lookup key series) value now in
      (evaluated result, write_series key new series)

  -- `SeriesCount`
  unfoldable pub series_count : List (String × Stats F) → ℕ
  series_count series = length series
