-- ===== src/Baseline/Store/Loaded.antt =====
-- What `Store.Evaluate` does behind the read of the baseline, on every branch.
use anomaly_detection.Prelude.{
  ℕ, suc, ◌≡◌, refl, String, Bool, true, false, Option, none, some, inl, inr, ◌≢◌, arith,
  Bool-cases, ltb, nat_beq, not, ◌||◌, if◌then◌else◌,
}
use mathlib.Core.Path.{subst}
use anomaly_detection.Float64.{Float64}
use anomaly_detection.Baseline.{
  BaselineConfig, Stats, Result, Outcome, evaluated, load_failed, HashStore, Strconv, MeetsContract,
}
use anomaly_detection.Baseline.Store.{
  StoreState, zscore_against, is_poisoned, updated, first_stats, first_result, warm_up_result,
  tested_result, write_stats, save_then, evaluate_loaded,
}

evaluated_inj : {F : Type 0} {a b : Result F} → evaluated a ≡ evaluated b → a ≡ b
evaluated_inj e = cc

module _ {F R : Type 0} ⦃fl : Float64 F⦄ (conv : Strconv F) (hashes : HashStore R)
    (digest : String → String) (cfg : BaselineConfig F) where
  save_then-MeetsContract :
      (key : String) (stats new : Stats F) (result r : Result F) (value : F) (updates : ℕ)
      (s : StoreState R)
      → MeetsContract cfg stats value result
      → (save_then conv hashes digest cfg key new result updates s).0 ≡ evaluated r
      → MeetsContract cfg stats value r
  unfolding save_then
  save_then-MeetsContract key stats new result r value updates s h e =
      elim (Bool-cases (hashes.hset s.redis key (write_stats conv new)).1) [
        | inl ok ↦ subst (MeetsContract cfg stats value) (evaluated_inj (rw ok at e)) h
        | inr failed ↦ cc (rw failed at e)
      ]

  module _ (key : String) (value : F) (now : ℕ) (s : StoreState R) (stats : Stats F) where
    abbrev z : F
    z = zscore_against stats value

    abbrev is_warming_up : Bool
    is_warming_up = ltb stats.count cfg.warm_up_samples

    abbrev loaded : Outcome F × StoreState R
    loaded = evaluate_loaded conv hashes digest cfg key value now s (some stats)

    loaded_first :
        nat_beq stats.count 0 ≡ true
        → loaded
          ≡ save_then conv hashes digest cfg key
              (first_stats value now)
              (first_result value)
              s.baseline_updates
              s
    unfolding evaluate_loaded
    loaded_first e = rw e

    abbrev moved : Result F
    moved =
        let new = updated cfg stats value now in
        if is_warming_up then warm_up_result value new else tested_result cfg z value new

    loaded_next :
        nat_beq stats.count 0 ≡ false
        → (not (is_poisoned cfg z) || is_warming_up) ≡ true
        → loaded
          ≡ save_then conv hashes digest cfg key
              (updated cfg stats value now)
              moved
              (suc s.baseline_updates)
              s
    unfolding evaluate_loaded
    loaded_next e f = rw (e, f)

    pub loaded_gate :
        nat_beq stats.count 0 ≡ false
        → (not (is_poisoned cfg z) || is_warming_up) ≡ false
        → loaded ≡ (
          evaluated (tested_result cfg z value stats),
          record s { poison_rejected = suc s.poison_rejected },
        )
    unfolding evaluate_loaded
    loaded_gate e f = rw (e, f)

    first_result-MeetsContract :
        nat_beq stats.count 0 ≡ true → MeetsContract cfg stats value (first_result value)
    unfolding first_result
    first_result-MeetsContract e = ground arith

    moved-MeetsContract : nat_beq stats.count 0 ≡ false → MeetsContract cfg stats value moved
    unfolding warm_up_result tested_result zscore_against
    moved-MeetsContract e = ground arith

    tested-MeetsContract :
        nat_beq stats.count 0 ≡ false
        → (not (is_poisoned cfg z) || is_warming_up) ≡ false
        → MeetsContract cfg stats value (tested_result cfg z value stats)
    unfolding tested_result zscore_against
    tested-MeetsContract e f = ground arith

    pub loaded-MeetsContract :
        (r : Result F) → loaded.0 ≡ evaluated r → MeetsContract cfg stats value r
    loaded-MeetsContract r h = elim (Bool-cases (nat_beq stats.count 0)) [
      | inl e ↦
          save_then-MeetsContract key stats _ _ r value _ s (first_result-MeetsContract e)
            (rw (loaded_first e) at h)
      | inr e ↦ elim (Bool-cases (not (is_poisoned cfg z) || is_warming_up)) [
        | inl f ↦
            save_then-MeetsContract key stats _ _ r value _ s (moved-MeetsContract e)
              (rw (loaded_next e f) at h)
        | inr f ↦
            subst (MeetsContract cfg stats value) (evaluated_inj (rw (loaded_gate e f) at h))
              (tested-MeetsContract e f)
      ]
    ]

  recorded-save_then :
      (key : String) (new : Stats F) (result : Result F) (updates : ℕ) (s : StoreState R)
      → let out = save_then conv hashes digest cfg key new result updates s in
        (out.1.recorded ≡ s.recorded) × (out.1.seen_series ≡ s.seen_series) × (out.0 ≢ load_failed)
  unfolding save_then
  recorded-save_then key new result updates s = ground arith

  pub recorded-evaluate_loaded :
      (key : String) (value : F) (now : ℕ) (s : StoreState R) (o : Option (Stats F))
      → let out = evaluate_loaded conv hashes digest cfg key value now s o in
        (out.1.recorded ≡ s.recorded)
        × (out.1.seen_series ≡ s.seen_series)
        × (out.0 ≡ load_failed → o ≡ none)
  unfolding evaluate_loaded
  recorded-evaluate_loaded key value now s none = (refl, refl, λ e. refl)
  recorded-evaluate_loaded key value now s (some stats) =
      let z = zscore_against stats value in
      let warm = ltb stats.count cfg.warm_up_samples in
      let new = updated cfg stats value now in
      ground (
        arith,
        recorded-save_then key (first_stats value now) (first_result value) s.baseline_updates s,
        recorded-save_then key new (warm_up_result value new) (suc s.baseline_updates) s,
        recorded-save_then key new (tested_result cfg z value new) (suc s.baseline_updates) s,
      )
