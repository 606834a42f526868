-- ===== src/Replay/Engine/Run/Ticks.antt =====
-- controller/internal/replay/engine.go: the loop over the ticks ends, and visits each tick of the
-- window once.
use anomaly_detection.Prelude.{
  ℕ, zero, suc, ◌+◌, ◌-◌, ◌*◌, ◌≤◌, ◌<◌, ◌≡◌, refl, ◌∙◌, String, Bool, true, false, ◌&&◌, ◌⊎◌, inl,
  inr, some, List, length, nat_beq, ltb, ltb→lt, lt→ltb, arith, Bool-cases,
}
use native.Mathlib.Nat.{zero-mul, suc-mul}
use anomaly_detection.Float64.{Float64}
use anomaly_detection.Baseline.{Evaluator}
use anomaly_detection.Replay.Adapter.{TimeSeries}
use anomaly_detection.Replay.Inject.Injector.{Injector}
use anomaly_detection.Replay.Engine.{Pollers, Plan}
use anomaly_detection.Replay.Engine.Fetch.{Fetch, fetch_start, fetch_all}
use anomaly_detection.Replay.Engine.Run.{
  RunState, skip_tick, finish_tick, fetched_tick, run_tick, run_ticks,
}

-- the ticks that a run has visited
abbrev pub visited : {F S W : Type 0} → RunState F S W → ℕ
visited st = st.ticks_processed + st.ticks_skipped

module _ {F S W : Type 0} ⦃fl : Float64 F⦄ (pollers : Pollers F W) (store : Evaluator F S)
    (perturb : String → List (TimeSeries F) → Injector F → List (TimeSeries F) × Injector F)
    (p : Plan F) (now : ℕ) where
  fetched_tick_visits :
      (tick : ℕ) (st : RunState F S W) (f : Fetch F W)
      → visited (fetched_tick pollers store perturb p now tick st f) ≡ suc (visited st)
  unfolding fetched_tick skip_tick finish_tick
  fetched_tick_visits tick st f =
      elim (Bool-cases (ltb 0 (length p.detection.adaptive_metrics) && nat_beq f.succeeded 0)) [
        | inl e ↦ rw e (omega arith)
        | inr e ↦ rw e (omega arith)
      ]

  -- Where the loop ends up from a tick: it has visited the ticks up to the last one within the
  -- window, or some of them if a signal came.
  abbrev pub Ends : ℕ → ℕ → RunState F S W → Type 0
  Ends fuel tick st =
      (st' : RunState F S W) × (partial : Bool) × (n : ℕ) × (run_ticks pollers store perturb p now
          fuel tick st
        ≡ some (st', partial))
      × (visited st' ≡ visited st + n)
      × (tick + n * p.step ≤ p.to + p.step)
      × ((partial ≡ true) ⊎ (p.to < tick + n * p.step))

  -- a round of the loop by its three ways out
  run_ticks_stop :
      (k tick : ℕ) (st : RunState F S W)
      → ltb p.to tick ≡ true
      → run_ticks pollers store perturb p now (suc k) tick st ≡ some (st, false)
  unfolding run_ticks
  run_ticks_stop k tick st e = rw e refl

  run_ticks_signal :
      (k tick : ℕ) (st : RunState F S W)
      → ltb p.to tick ≡ false
      → (pollers.interrupted st.outside).0 ≡ true
      → run_ticks pollers store perturb p now (suc k) tick st
        ≡ some (record st { outside = (pollers.interrupted st.outside).1 }, true)
  unfolding run_ticks
  run_ticks_signal k tick st e signal = rw (e, signal) refl

  run_ticks_next :
      (k tick : ℕ) (st : RunState F S W)
      → ltb p.to tick ≡ false
      → (pollers.interrupted st.outside).0 ≡ false
      → run_ticks pollers store perturb p now (suc k) tick st
        ≡ run_ticks pollers store perturb p now k (tick + p.step) (
            run_tick pollers store perturb p now tick
              (record st { outside = (pollers.interrupted st.outside).1 }))
  unfolding run_ticks
  run_ticks_next k tick st e signal = rw (e, signal) refl

  run_tick_visits :
      (tick : ℕ) (st : RunState F S W)
      → visited (run_tick pollers store perturb p now tick st) ≡ suc (visited st)
  unfolding run_tick
  run_tick_visits tick st = fetched_tick_visits tick st (
      fetch_all pollers perturb p tick p.detection.adaptive_metrics
        (fetch_start st.injector st.outside))

  stops_here :
      (k tick : ℕ) (st : RunState F S W) → p.to < tick → tick ≤ p.to + p.step → Ends (suc k) tick st
  stops_here k tick st past within = (
    st,
    false,
    0,
    run_ticks_stop k tick st (lt→ltb p.to tick past),
    omega arith,
    omega (arith, within, zero-mul p.step),
    inr (omega (arith, past, zero-mul p.step)),
  )

  -- from a tick to the next one
  one_more_tick :
      (k tick : ℕ) (st : RunState F S W)
      → ltb p.to tick ≡ false
      → (pollers.interrupted st.outside).0 ≡ false
      → Ends k (tick + p.step) (
          run_tick pollers store perturb p now tick
            (record st { outside = (pollers.interrupted st.outside).1 }))
      → Ends (suc k) tick st
  one_more_tick k tick st e quiet (last, partial, n, run, seen, within, end) =
      let here = record st { outside = (pollers.interrupted st.outside).1 } in
      let more = suc-mul n p.step in
      (
        last,
        partial,
        suc n,
        run_ticks_next k tick st e quiet ∙ run,
        omega (arith, seen, run_tick_visits tick here),
        omega (arith, within, more),
        elim end [ inl cut ↦ inl cut | inr past ↦ inr (omega (arith, past, more)) ],
      )

  run_ticks-Ends :
      (k tick : ℕ) (st : RunState F S W)
      → p.to < tick + k * p.step
      → tick ≤ p.to + p.step
      → Ends (suc k) tick st
  run_ticks-Ends zero tick st enough within =
      stops_here zero tick st (omega (arith, enough, zero-mul p.step)) within
  run_ticks-Ends (suc k) tick st enough within = elim (Bool-cases (ltb p.to tick)) [
    | inl e ↦ stops_here (suc k) tick st (ltb→lt p.to tick e) within
    | inr e ↦
        let here = record st { outside = (pollers.interrupted st.outside).1 } in
        let not_past : tick ≤ p.to = ground (arith, e) in
        elim (Bool-cases (pollers.interrupted st.outside).0) [
          | inl signal ↦ (
            here,
            true,
            0,
            run_ticks_signal (suc k) tick st e signal,
            omega arith,
            omega (arith, within, zero-mul p.step),
            inl refl,
          )
          | inr quiet ↦ one_more_tick (suc k) tick st e quiet (
              run_ticks-Ends k (tick + p.step) (run_tick pollers store perturb p now tick here)
                (omega (arith, enough, suc-mul k p.step)) (omega (arith, not_past)))
        ]
  ]

  le_mul : (n step : ℕ) → 0 < step → n ≤ n * step
  le_mul zero step h = omega arith
  le_mul (suc n) step h = omega (arith, le_mul n step h, suc-mul n step)

  pub run_ticks_total :
      (st : RunState F S W)
      → 0 < p.step
      → p.from ≤ p.to
      → (st' : RunState F S W) × (partial : Bool) × (n : ℕ) × (run_ticks pollers store perturb p now
            (suc (p.to - p.from))
            (p.from + p.step)
            st
          ≡ some (st', partial))
        × (visited st' ≡ visited st + n)
        × (p.from + n * p.step ≤ p.to)
        × ((partial ≡ true) ⊎ (p.to < p.from + suc n * p.step))
  run_ticks_total st positive ordered =
      let long = le_mul (p.to - p.from) p.step positive in
      let (st', partial, n, run, seen, within, end) =
        run_ticks-Ends (p.to - p.from) (p.from + p.step) st (omega (arith, long, positive, ordered))
          (omega (arith, ordered)) in
      (
        st',
        partial,
        n,
        run,
        seen,
        omega (arith, within),
        elim end [ inl cut ↦ inl cut | inr past ↦ inr (omega (arith, past, suc-mul n p.step)) ],
      )
