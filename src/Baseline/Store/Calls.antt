-- ===== src/Baseline/Store/Calls.antt =====
-- What one call of `Store.Evaluate` does, on every branch, whatever the server does.
use anomaly_detection.Prelude.{
  ℕ, suc, ◌≤◌, ◌<◌, ◌≡◌, ◌↔◌, refl, String, true, Option, none, some, ◌∷◌, ◌∙◌, arith, eq_iff,
}
use mathlib.Core.Path.{ap}
use anomaly_detection.Float64.{Float64}
use anomaly_detection.Labels.{Labels, contains}
use anomaly_detection.Baseline.{
  BaselineConfig, Stats, Result, Outcome, evaluated, load_failed, HashStore, Strconv, MeetsContract,
}
use anomaly_detection.Baseline.Keys.{normalize_labels, baseline_key}
use anomaly_detection.Baseline.Store.{
  StoreState, zscore_against, is_poisoned, tested_result, load, evaluate_loaded, evaluate_store,
  record_series_tracked,
}
use anomaly_detection.Baseline.Store.Loaded.{
  loaded-MeetsContract, loaded_gate, recorded-evaluate_loaded,
}

pub redis-record_series_tracked :
    {R : Type 0} (key : String) (s : StoreState R) → (record_series_tracked key s).redis ≡ s.redis
unfolding record_series_tracked
redis-record_series_tracked key s = ground arith

module _ {F R : Type 0} ⦃fl : Float64 F⦄ (conv : Strconv F) (hashes : HashStore R)
    (digest : String → String) (cfg : BaselineConfig F) where
  module _ (metric : String) (labels : Labels) (value : F) (now : ℕ) (s : StoreState R) where
    abbrev pub series_key : String
    series_key = baseline_key digest metric (normalize_labels cfg.ephemeral_labels labels)

    -- the state that the read of the baseline finds
    abbrev pub before : StoreState R
    before =
        record_series_tracked series_key (record s { recorded = (metric, labels) ∷ s.recorded })

    abbrev pub call : Outcome F × StoreState R
    call = evaluate_store conv hashes digest cfg metric labels value now s

    pub call_lem :
        call
        ≡ evaluate_loaded conv hashes digest cfg series_key value now before
            (load conv hashes digest cfg series_key s.redis)
    unfolding evaluate_store
    call_lem =
        ap
          (λ r.
            evaluate_loaded conv hashes digest cfg series_key value now before
              (load conv hashes digest cfg series_key r))
          (redis-record_series_tracked series_key
            (record s { recorded = (metric, labels) ∷ s.recorded }))

  module _ (metric : String) (labels : Labels) (value : F) (now : ℕ) (s : StoreState R) where
    abbrev found : Option (Stats F)
    found = load conv hashes digest cfg (series_key metric labels value now s) s.redis

    abbrev outcome : Outcome F × StoreState R
    outcome = evaluate_store conv hashes digest cfg metric labels value now s

    -- If the read succeeds and the call returns a result, the result meets the contract of
    -- `Evaluator` for the value and the statistics read: warm-up exactly for the first sample and
    -- below the warm-up count, and behind it an anomaly exactly for a z-score above the threshold,
    -- which is |value - EWMA| over the deviation or, where the deviation is 0, over its floor.
    pub evaluate_store-MeetsContract :
        {stats : Stats F} {r : Result F}
        → found ≡ some stats
        → outcome.0 ≡ evaluated r
        → MeetsContract cfg stats value r
    evaluate_store-MeetsContract {stats} {r} read e =
        loaded-MeetsContract conv hashes digest cfg (series_key metric labels value now s) value now
          (before metric labels value now s) stats r
          (rw (call_lem metric labels value now s, read) at e)

    poison_rejected-before :
        ((before metric labels value now s).poison_rejected ≡ s.poison_rejected)
        × ((before metric labels value now s).baseline_updates ≡ s.baseline_updates)
        × ((before metric labels value now s).redis ≡ s.redis)
        × ((before metric labels value now s).recorded ≡ (metric, labels) ∷ s.recorded)
        × (contains
              (before metric labels value now s).seen_series
              (series_key metric labels value now s)
            ≡ true)
    unfolding record_series_tracked contains
    poison_rejected-before = ground (
      arith,
      eq_iff (series_key metric labels value now s) (series_key metric labels value now s),
    )

    -- The anti-poisoning gate: a value of a warmed-up series whose z-score passes the poison
    -- threshold is judged by the old statistics, and nothing is written; it is only counted.
    pub evaluate_store_gate :
        {stats : Stats F}
        → found ≡ some stats
        → 0 < stats.count
        → cfg.warm_up_samples ≤ stats.count
        → is_poisoned cfg (zscore_against stats value) ≡ true
        → (outcome.0 ≡ evaluated (tested_result cfg (zscore_against stats value) value stats))
          × (outcome.1.redis ≡ s.redis)
          × (outcome.1.baseline_updates ≡ s.baseline_updates)
          × (outcome.1.poison_rejected ≡ suc s.poison_rejected)
    evaluate_store_gate {stats} read known warm gate =
        let b = before metric labels value now s in
        let step =
          loaded_gate conv hashes digest cfg (series_key metric labels value now s) value now b
            stats (ground arith) (ground arith) in
        let (rejected, updates, redis, _, _) = poison_rejected-before in
        rw (call_lem metric labels value now s, read)
          (rw step (refl, redis, updates, ap suc rejected))

    -- Every call tells the absence recorder of the sample and enters the series among those seen,
    -- also if Redis fails; the call reports a failed read exactly if the read fails.
    pub evaluate_store_bookkeeping :
        (outcome.1.recorded ≡ (metric, labels) ∷ s.recorded)
        × (contains outcome.1.seen_series (series_key metric labels value now s) ≡ true)
        × ((outcome.0 ≡ load_failed) ↔ (found ≡ none))
    evaluate_store_bookkeeping =
        let key = series_key metric labels value now s in
        let b = before metric labels value now s in
        let (same, seen, only) =
          recorded-evaluate_loaded conv hashes digest cfg key value now b found in
        let (rejected, updates, redis, heard, entered) = poison_rejected-before in
        rw (call_lem metric labels value now s) (
          same ∙ heard,
          ap (λ l. contains l key) seen ∙ entered,
          (only, λ none_found. rw none_found (unfold evaluate_loaded in refl)),
        )

    -- A call whose read from Redis fails leaves the server and both counters as they were.
    evaluate_store_read_failure :
        found ≡ none
        → (outcome.0 ≡ load_failed)
          × (outcome.1.redis ≡ s.redis)
          × (outcome.1.baseline_updates ≡ s.baseline_updates)
          × (outcome.1.poison_rejected ≡ s.poison_rejected)
    evaluate_store_read_failure none_found =
        let key = series_key metric labels value now s in
        let b = before metric labels value now s in
        let (rejected, updates, redis, heard, entered) = poison_rejected-before in
        rw (call_lem metric labels value now s, none_found) (failed key b redis updates rejected)
      where
        failed :
            (key : String) (b : StoreState R)
            → b.redis ≡ s.redis
            → b.baseline_updates ≡ s.baseline_updates
            → b.poison_rejected ≡ s.poison_rejected
            → let out = evaluate_loaded conv hashes digest cfg key value now b none in
              (out.0 ≡ load_failed)
              × (out.1.redis ≡ s.redis)
              × (out.1.baseline_updates ≡ s.baseline_updates)
              × (out.1.poison_rejected ≡ s.poison_rejected)
        failed key b r u p = unfold evaluate_loaded in (refl, r, u, p)
