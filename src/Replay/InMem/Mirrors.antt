-- ===== src/Replay/InMem/Mirrors.antt =====
-- One reading of the replay store against the same reading of a production store that answers.
use Prim.Native.String.{◌++◌}
use anomaly_detection.Prelude.{
  ℕ, suc, ◌≡◌, refl, String, Bool, true, false, not, ◌||◌, Option, none, some, [], ◌∷◌, inl, inr,
  nat_beq, ltb, arith, Bool-cases,
}
use mathlib.Core.Path.{subst}
use anomaly_detection.Float64.{Float64}
use anomaly_detection.Labels.{Labels}
use anomaly_detection.Baseline.{
  BaselineConfig, Stats, Result, Outcome, evaluated, HashStore, Strconv,
}
use anomaly_detection.Baseline.Keys.{baseline_key, labels_hash}
use anomaly_detection.Baseline.Store.{
  StoreState, zscore_against, is_poisoned, updated, first_stats, first_result, warm_up_result,
  tested_result, write_stats, save_then, evaluate_loaded,
}
use anomaly_detection.Baseline.Store.Reliable.{IsReliable, SameStats}
use anomaly_detection.Replay.InMem.{in_mem_key, warming, start_stats, step_series}

-- The production key is the replay key behind a prefix.
pub key_prefix :
    (digest : String → String) (metric : String) (labels : Labels)
    → baseline_key digest metric labels ≡ "baseline:" ++ in_mem_key digest metric labels
unfolding baseline_key in_mem_key labels_hash
key_prefix digest metric [] = refl
key_prefix digest metric (l ∷ labels) = refl

module _ {F R : Type 0} ⦃fl : Float64 F⦄ (conv : Strconv F) (hashes : HashStore R)
    (reliable : IsReliable hashes) (digest : String → String) (cfg : BaselineConfig F) where
  -- the server behind a step of the replay store
  abbrev pub written : String → Option (Stats F) → R → R
  written key none r = r
  written key (some stats) r = (hashes.hset r key (write_stats conv stats)).0

  abbrev pub Mirrors : Outcome F × StoreState R → Result F × Option (Stats F) → String → R → Type 0
  Mirrors out step key r = (out.0 ≡ evaluated step.0) × (out.1.redis ≡ written key step.1 r)

  save_then-Mirrors :
      (key : String) (new : Stats F) (result : Result F) (updates : ℕ) (b : StoreState R)
      → Mirrors
          (save_then conv hashes digest cfg key new result updates b)
          (result, some new)
          key
          b.redis
  unfolding save_then
  save_then-Mirrors key new result updates b =
      rw (reliable.writes b.redis key (write_stats conv new)) (refl, refl)

  module _ (key : String) (value : F) (now : ℕ) (b : StoreState R) (stats : Stats F) where
    abbrev loaded : Outcome F × StoreState R
    loaded = evaluate_loaded conv hashes digest cfg key value now b (some stats)

    -- a series that the server does not know, or knows with no sample
    fresh-Mirrors :
        nat_beq stats.count 0 ≡ true
        → Mirrors loaded
            (warming value (start_stats value now), some (start_stats value now))
            key
            b.redis
    unfolding evaluate_loaded first_stats first_result warming start_stats
    fresh-Mirrors e =
        rw e
          (save_then-Mirrors key (first_stats value now) (first_result value) b.baseline_updates b)

    abbrev gate_open : Bool
    gate_open =
        not (is_poisoned cfg (zscore_against stats value)) || ltb stats.count cfg.warm_up_samples

    known-Mirrors :
        (at : ℕ)
        → nat_beq stats.count 0 ≡ false
        → Mirrors loaded
            (step_series cfg (some (record stats { last_update = at })) value now)
            key
            b.redis
    unfolding evaluate_loaded step_series zscore_against is_poisoned updated warm_up_result
        tested_result
    known-Mirrors at e = elim (Bool-cases gate_open) [
      | inl f ↦
          rw (e, f)
            (save_then-Mirrors key (updated cfg stats value now) _ (suc b.baseline_updates) b)
      | inr f ↦ rw (e, f) (refl, refl)
    ]

  -- What the server holds under the production key of a series, against the entry of the replay store.
  abbrev pub Tracks : Option (Stats F) → Option (Stats F) → Type 0
  Tracks none entry = ⊥
  Tracks (some read) none = read.count ≡ 0
  Tracks (some read) (some stats) = SameStats read stats

  at_time :
      (read stats : Stats F)
      → SameStats read stats
      → record read { last_update = stats.last_update } ≡ stats
  at_time read stats h = λ i. record {
    mean = h.mean i;
    stddev = h.stddev i;
    ewma = h.ewma i;
    count = h.count i;
    last_update = stats.last_update;
  }

  pub Tracks-Mirrors :
      (key : String) (value : F) (now : ℕ) (b : StoreState R) (read entry : Option (Stats F))
      → Tracks read entry
      → Mirrors
          (evaluate_loaded conv hashes digest cfg key value now b read)
          (step_series cfg entry value now)
          key
          b.redis
  Tracks-Mirrors key value now b none entry h = absurd h
  Tracks-Mirrors key value now b (some read) none h =
      unfold step_series in fresh-Mirrors key value now b read (ground arith)
  Tracks-Mirrors key value now b (some read) (some stats) h =
      subst
        (λ (t : Stats F).
          Mirrors (evaluate_loaded conv hashes digest cfg key value now b (some read))
            (step_series cfg (some t) value now) key b.redis)
        (at_time read stats h)
        (elim (Bool-cases (nat_beq read.count 0)) [
          | inl e ↦ unfold step_series in rw e (fresh-Mirrors key value now b read e)
          | inr e ↦ known-Mirrors key value now b read stats.last_update e
        ])
