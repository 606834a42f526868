-- ===== src/Replay/InMem/WarmUp.antt =====
-- The warm-up phase of a series: how long it lasts, and that it never comes back.
use anomaly_detection.Prelude.{
  ℕ, suc, ◌+◌, ◌≤◌, ◌<◌, ◌≡◌, refl, String, true, false, Option, none, some, List, [], ◌∷◌, ◌==◌,
  inl, inr, nat_beq, ltb, arith, if◌then◌else◌, Bool-cases, eq_iff,
}
use native.Mathlib.Nat.{add-zero}
use mathlib.Core.Path.{subst}
use anomaly_detection.Float64.{Float64}
use anomaly_detection.Labels.{lookup}
use anomaly_detection.Baseline.{BaselineConfig, Stats, Result, evaluated}
use anomaly_detection.Replay.InMem.{step_series, evaluate_in_mem}
use anomaly_detection.Replay.InMem.Series.{
  Reading, key_of, after, evaluate_in_mem_frame, run_readings, readings_of,
}

-- The readings that a series needs: the configured number, and one at least.
abbrev pub needed : ℕ → ℕ
needed warm_up = if nat_beq warm_up 0 then 1 else warm_up

module _ {F : Type 0} ⦃fl : Float64 F⦄ (cfg : BaselineConfig F) where
  -- What the entry of a series with n readings looks like: the count is n through the warm-up, and
  -- afterwards it stays between what the warm-up needs and n.
  abbrev pub HasProgress : ℕ → Option (Stats F) → Type 0
  HasProgress n none = n ≡ 0
  HasProgress n (some s) =
      (0 < s.count)
      × (s.count ≤ n)
      × (n ≤ needed cfg.warm_up_samples → s.count ≡ n)
      × (needed cfg.warm_up_samples ≤ n → needed cfg.warm_up_samples ≤ s.count)

  -- one reading more: the result is a warm-up result exactly through the warm-up
  step-HasProgress :
      (n : ℕ) (entry : Option (Stats F)) (value : F) (now : ℕ)
      → HasProgress n entry
      → let (result, new) = step_series cfg entry value now in
        (result.is_warming_up ≡ ltb n (needed cfg.warm_up_samples))
        × HasProgress (suc n) (after entry new)
  unfolding step_series
  step-HasProgress n none value now h = ground arith
  step-HasProgress n (some s) value now h = ground arith

  warming_never_fires :
      (entry : Option (Stats F)) (value : F) (now : ℕ)
      → let result = (step_series cfg entry value now).0 in
        result.is_warming_up ≡ true → result.is_anomaly ≡ false
  unfolding step_series
  warming_never_fires none value now h = refl
  warming_never_fires (some s) value now h = ground arith

  module _ (digest : String → String) where
    reading-HasProgress :
        (n : ℕ) (s : Reading F) (series : List (String × Stats F)) (key : String)
        → HasProgress n (lookup key series)
        → HasProgress
            (if key_of digest cfg s == key then suc n else n)
            (lookup key (evaluate_in_mem digest cfg s.metric s.labels s.value s.now series).1)
    reading-HasProgress n s series key h = elim (Bool-cases (key_of digest cfg s == key)) [
      | inl e ↦
          let same : key_of digest cfg s ≡ key = (eq_iff _ key).0 e in
          rw ((evaluate_in_mem_frame digest cfg s series key).1, e)
            (rw same (step-HasProgress n (lookup key series) s.value s.now h).1)
      | inr e ↦ rw ((evaluate_in_mem_frame digest cfg s series key).1, e) h
    ]

    run-HasProgress :
        (readings : List (Reading F)) (n : ℕ) (series : List (String × Stats F)) (key : String)
        → HasProgress n (lookup key series)
        → HasProgress
            (n + readings_of digest cfg key readings)
            (lookup key (run_readings digest cfg readings series))
    unfolding run_readings readings_of
    run-HasProgress [] n series key h = rw add-zero h
    run-HasProgress (s ∷ rest) n series key h =
        let next = (evaluate_in_mem digest cfg s.metric s.labels s.value s.now series).1 in
        let step = reading-HasProgress n s series key h in
        subst (λ (m : ℕ). HasProgress m (lookup key (run_readings digest cfg rest next)))
          (ground arith)
          (run-HasProgress rest (if key_of digest cfg s == key then suc n else n) next key step)

    -- Whatever the readings so far, of this series and of others, the next reading of a series is
    -- evaluated, and its result is a warm-up result exactly if the series had fewer readings than
    -- the warm-up needs; a warm-up result never reports an anomaly.
    pub warm_up_exact :
        (readings : List (Reading F)) (s : Reading F)
        → let series = run_readings digest cfg readings [] in
          let n = readings_of digest cfg (key_of digest cfg s) readings in
          (r : Result F) × ((evaluate_in_mem digest cfg s.metric s.labels s.value s.now series).0
            ≡ evaluated r)
          × (r.is_warming_up ≡ ltb n (needed cfg.warm_up_samples))
          × (r.is_warming_up ≡ true → r.is_anomaly ≡ false)
    warm_up_exact readings s =
        let key = key_of digest cfg s in
        let series = run_readings digest cfg readings [] in
        let n = readings_of digest cfg key readings in
        let entry = lookup key series in
        let start : HasProgress 0 (lookup {V = Stats F} key []) = unfold lookup in refl in
        let reached : HasProgress n entry =
          subst (λ (m : ℕ). HasProgress m entry) (omega arith)
            (run-HasProgress readings 0 [] key start) in
        (
          (step_series cfg entry s.value s.now).0,
          (evaluate_in_mem_frame digest cfg s series key).0,
          (step-HasProgress n entry s.value s.now reached).0,
          warming_never_fires entry s.value s.now,
        )
