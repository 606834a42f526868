-- ===== src/Baseline/Store/Poisoned.antt =====
-- The anti-poisoning gate of `Store.Evaluate` over a sequence of calls.
use anomaly_detection.Prelude.{
  ℕ, ◌+◌, ◌≤◌, ◌<◌, ◌≡◌, refl, ◌∙◌, String, true, some, List, [], ◌∷◌, All, length, map, arith,
}
use mathlib.Core.Path.{ap₂, subst, sym}
use anomaly_detection.Float64.{Float64}
use anomaly_detection.Labels.{Labels}
use anomaly_detection.Baseline.{BaselineConfig, Stats, Outcome, evaluated, HashStore, Strconv}
use anomaly_detection.Baseline.Keys.{normalize_labels, baseline_key}
use anomaly_detection.Baseline.Store.{
  StoreState, zscore_against, is_poisoned, tested_result, load, evaluate_store,
}
use anomaly_detection.Baseline.Store.Calls.{evaluate_store_gate}

module _ {F R : Type 0} ⦃fl : Float64 F⦄ (conv : Strconv F) (hashes : HashStore R)
    (digest : String → String) (cfg : BaselineConfig F) (metric : String) (labels : Labels) where
  -- the readings of one series, each with the time of its call: the outcomes and the last state
  unfoldable pub evaluate_run : List (F × ℕ) → StoreState R → List (Outcome F) × StoreState R
  evaluate_run [] s = ([], s)
  evaluate_run ((value, now) ∷ readings) s =
      let (o, s') = evaluate_store conv hashes digest cfg metric labels value now s in
      let (outcomes, last) = evaluate_run readings s' in (o ∷ outcomes, last)

  -- the statistics of the series on a server
  abbrev pub Holds : R → Stats F → Type 0
  Holds r stats =
      load conv hashes digest cfg
        (baseline_key digest metric (normalize_labels cfg.ephemeral_labels labels)) r
      ≡ some stats

  -- If the statistics can be read, a run of poisoned readings of a warmed-up series, however long, does not move its baseline: each
  -- reading is judged by the statistics from before the run, the server holds what it held, so that
  -- they still are the statistics of the series, no update is counted, and each reading is counted
  -- as rejected.
  pub poisoned_run_keeps :
      (stats : Stats F) (readings : List (F × ℕ)) (s : StoreState R)
      → Holds s.redis stats
      → 0 < stats.count
      → cfg.warm_up_samples ≤ stats.count
      → All (λ r. is_poisoned cfg (zscore_against stats r.0) ≡ true) readings
      → let (outcomes, last) = evaluate_run readings s in
        (outcomes
          ≡ map (λ r. evaluated (tested_result cfg (zscore_against stats r.0) r.0 stats)) readings)
        × Holds last.redis stats
        × (last.redis ≡ s.redis)
        × (last.baseline_updates ≡ s.baseline_updates)
        × (last.poison_rejected ≡ s.poison_rejected + length readings)
  unfolding evaluate_run
  poisoned_run_keeps stats [] s held known warm far = (refl, held, refl, refl, omega arith)
  poisoned_run_keeps stats ((value, now) ∷ readings) s held known warm far =
      let s' = (evaluate_store conv hashes digest cfg metric labels value now s).1 in
      let (judged, same, updates, rejected) =
        evaluate_store_gate conv hashes digest cfg metric labels value now s held known warm
          far.0 in
      let (outcomes, holds, redis, more, count) =
        poisoned_run_keeps stats readings s' (subst (λ (r : R). Holds r stats) (sym same) held)
          known warm far.1 in
      (ap₂ ◌∷◌ judged outcomes, holds, redis ∙ same, more ∙ updates, omega (arith, count, rejected))
