-- ===== src/Baseline/Store.antt =====
-- controller/internal/baseline/store.go: `Store`, the baselines in Redis.
pub mod Loaded
pub mod Calls
pub mod Poisoned
pub mod Reliable
use anomaly_detection.Prelude.{
  ℕ, suc, ◌*◌, ◌/◌, String, Bool, true, false, not, ◌&&◌, ◌||◌, Option, none, some, List, [], ◌∷◌,
  map, nat_beq, ltb, length, ◌^◌, if◌then◌else◌,
}
use anomaly_detection.Float64.{Float64}
use anomaly_detection.Labels.{Labels, get, contains}
use anomaly_detection.Baseline.{
  BaselineConfig, Stats, Result, Outcome, evaluated, load_failed, save_failed, HashStore, Strconv,
}
use anomaly_detection.Baseline.Keys.{normalize_labels, baseline_key}

module _ {F : Type 0} ⦃fl : Float64 F⦄ where
  -- the z-score of a value against the current baseline, with the floor under a zero deviation
  unfoldable pub zscore_against : Stats F → F → F
  zscore_against stats value =
      let floor =
        fl.max (fl.mul (fl.abs stats.ewma) (fl.lit 1 100)) (fl.mul (fl.abs value) (fl.lit 1 100)) in
      let stddev =
        if fl.eq stats.stddev (fl.lit 0 1)
        then fl.max floor (fl.lit 1 (10 ^ 9))
        else stats.stddev in
      fl.div (fl.abs (fl.sub value stats.ewma)) stddev

  unfoldable pub is_poisoned : BaselineConfig F → F → Bool
  is_poisoned cfg z = fl.lt (fl.lit 0 1) cfg.poison_threshold && fl.lt cfg.poison_threshold z

  -- EWMA and Welford's update of the mean and the deviation
  unfoldable pub updated : BaselineConfig F → Stats F → F → ℕ → Stats F
  updated cfg stats value now =
      let alpha = cfg.ewma_alpha in
      let new_count = suc stats.count in
      let delta = fl.sub value stats.mean in
      let new_mean = fl.add stats.mean (fl.div delta (fl.lit new_count 1)) in
      let delta2 = fl.sub value new_mean in
      let m2 = fl.mul (fl.mul stats.stddev stats.stddev) (fl.lit stats.count 1) in
      let new_m2 = fl.add m2 (fl.mul delta delta2) in
      record {
        mean = new_mean;
        stddev =
            if ltb 1 new_count then fl.sqrt (fl.div new_m2 (fl.lit new_count 1)) else fl.lit 0 1;
        ewma = fl.add (fl.mul alpha value) (fl.mul (fl.sub (fl.lit 1 1) alpha) stats.ewma);
        count = new_count;
        last_update = now;
      }

  unfoldable pub first_stats : F → ℕ → Stats F
  first_stats value now = record {
    mean = value;
    stddev = fl.lit 0 1;
    ewma = value;
    count = 1;
    last_update = now;
  }

  unfoldable pub first_result : F → Result F
  first_result value = record {
    is_anomaly = false;
    zscore = fl.lit 0 1;
    value = value;
    mean = value;
    stddev = fl.lit 0 1;
    ewma = value;
    is_warming_up = true;
  }

  unfoldable pub warm_up_result : F → Stats F → Result F
  warm_up_result value stats = record {
    is_anomaly = false;
    zscore = fl.lit 0 1;
    value = value;
    mean = stats.mean;
    stddev = stats.stddev;
    ewma = stats.ewma;
    is_warming_up = true;
  }

  unfoldable pub tested_result : BaselineConfig F → F → F → Stats F → Result F
  tested_result cfg z value stats = record {
    is_anomaly = fl.lt cfg.zscore_threshold z;
    zscore = z;
    value = value;
    mean = stats.mean;
    stddev = stats.stddev;
    ewma = stats.ewma;
    is_warming_up = false;
  }

  -- the zero value of `Stats`
  abbrev pub no_stats : Stats F
  no_stats = record {
    mean = fl.lit 0 1;
    stddev = fl.lit 0 1;
    ewma = fl.lit 0 1;
    count = 0;
    last_update = 0;
  }

  module _ (conv : Strconv F) where
    -- LastUpdate is written in whole seconds
    unfoldable pub write_stats : Stats F → Labels
    write_stats stats =
        ("mean", conv.format_float stats.mean)
        ∷ ("stddev", conv.format_float stats.stddev)
        ∷ ("ewma", conv.format_float stats.ewma)
        ∷ ("count", conv.format_int stats.count)
        ∷ ("last_update", conv.format_int (stats.last_update / 10 ^ 9))
        ∷ []

    unfoldable pub parse_stats : Labels → Stats F
    parse_stats fields = record {
      mean = conv.parse_float (get fields "mean");
      stddev = conv.parse_float (get fields "stddev");
      ewma = conv.parse_float (get fields "ewma");
      count = conv.parse_int (get fields "count");
      last_update = conv.parse_int (get fields "last_update") * 10 ^ 9;
    }

    unfoldable pub stats_of_fields : Labels → Stats F
    unfolding parse_stats
    stats_of_fields [] = no_stats
    stats_of_fields (f ∷ fields) = parse_stats (f ∷ fields)

-- The server, the series seen by this process, the calls made to the absence recorder, and the
-- counters of the two metrics.
pub record StoreState (R : Type 0) : Type 0 where
  pub redis : R
  pub seen_series : List String
  pub recorded : List (String × Labels)
  pub baseline_updates : ℕ
  pub poison_rejected : ℕ

-- `recordSeriesTracked`
unfoldable pub record_series_tracked : {R : Type 0} → String → StoreState R → StoreState R
record_series_tracked key s =
    if contains s.seen_series key then s else record s { seen_series = key ∷ s.seen_series }

module _ {F R : Type 0} ⦃fl : Float64 F⦄ (conv : Strconv F) (hashes : HashStore R)
    (digest : String → String) (cfg : BaselineConfig F) where
  unfoldable pub load : String → R → Option (Stats F)
  load key r = elim (hashes.hget_all r key) [
    | none ↦ none
    | some fields ↦ some (stats_of_fields conv fields)
  ]

  -- a write, and behind it the rest of the handler
  unfoldable pub save_then :
      String → Stats F → Result F → ℕ → StoreState R → Outcome F × StoreState R
  unfolding write_stats
  save_then key stats result updates s =
      let (r, ok) = hashes.hset s.redis key (write_stats conv stats) in
      if ok
      then (evaluated result, record s { redis = r; baseline_updates = updates })
      else (save_failed, record s { redis = r })

  -- `Evaluate` behind the read
  unfoldable pub evaluate_loaded :
      String → F → ℕ → StoreState R → Option (Stats F) → Outcome F × StoreState R
  evaluate_loaded key value now s none = (load_failed, s)
  evaluate_loaded key value now s (some stats) =
      if nat_beq stats.count 0
      then save_then key (first_stats value now) (first_result value) s.baseline_updates s
      else let z = zscore_against stats value in
        let poisoned = is_poisoned cfg z in
        let is_warming_up = ltb stats.count cfg.warm_up_samples in
        let new = updated cfg stats value now in
        if not poisoned || is_warming_up
        then save_then key new
            (if is_warming_up then warm_up_result value new else tested_result cfg z value new)
            (suc s.baseline_updates) s
        else (
          evaluated (tested_result cfg z value stats),
          record s { poison_rejected = suc s.poison_rejected },
        )

  -- `Store.Evaluate`
  unfoldable pub evaluate_store : String → Labels → F → ℕ → StoreState R → Outcome F × StoreState R
  evaluate_store metric labels value now s =
      let key = baseline_key digest metric (normalize_labels cfg.ephemeral_labels labels) in
      let heard = record s { recorded = (metric, labels) ∷ s.recorded } in
      let tracked = record_series_tracked key heard in
      evaluate_loaded key value now tracked (load key tracked.redis)
