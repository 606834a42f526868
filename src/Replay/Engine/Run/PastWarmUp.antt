-- ===== src/Replay/Engine/Run/PastWarmUp.antt =====
-- controller/internal/replay/engine.go: nothing of the warm-up enters the report.
use mathlib.Core.Path.{subst}
use anomaly_detection.Prelude.{
  ℕ, zero, suc, ◌+◌, ◌-◌, ◌≤◌, ◌<◌, ◌≡◌, refl, String, Bool, ◌&&◌, Option, none, some, List, [],
  ◌∷◌, length, count_if, nat_beq, ltb, arith, Bool-cases, inl, inr,
}
use anomaly_detection.Float64.{Float64}
use anomaly_detection.Detection.Static.{StaticRule}
use anomaly_detection.Baseline.{Evaluator}
use anomaly_detection.Config.{AdaptiveMetric, LogPattern}
use anomaly_detection.Worker.{Reply, answered, failed}
use anomaly_detection.Replay.Adapter.{TimeSeries}
use anomaly_detection.Replay.Inject.Injector.{Injector}
use anomaly_detection.Replay.Tick.{tick_filter}
use anomaly_detection.Replay.Engine.{
  Pollers, Plan, TickWork, take_found, adaptive_loop, static_reply, static_loop, log_reply,
  log_loop,
}
use anomaly_detection.Replay.Engine.Fetch.{Fetch, fetch_start, fetch_all}
use anomaly_detection.Replay.Engine.Run.{
  RunState, skip_tick, work_start, finish_tick, work_of, fetched_tick, run_tick, run_ticks,
}
use anomaly_detection.Replay.Engine.Run.Ticks.{run_ticks_total}
use anomaly_detection.Replay.Engine.Run.Filtered.{
  is_early, count_if-add_anomalies, count_if-tick_filter, IsPast, added-IsPast,
}

module _ {F S W : Type 0} ⦃fl : Float64 F⦄ (pollers : Pollers F W) (store : Evaluator F S)
    (p : Plan F) (now tick : ℕ) where
  adaptive_loop-IsPast :
      (metrics : List (AdaptiveMetric F)) (per_metric : List (List (TimeSeries F)))
      (t : TickWork F S W)
      → IsPast p t.anomalies
      → IsPast p (adaptive_loop pollers store p now tick metrics per_metric t).anomalies
  unfolding adaptive_loop take_found
  adaptive_loop-IsPast [] per_metric t h = h
  adaptive_loop-IsPast (am ∷ metrics) [] t h = h
  adaptive_loop-IsPast (am ∷ metrics) (series ∷ per_metric) t h =
      adaptive_loop-IsPast metrics per_metric _ (added-IsPast p tick t.anomalies _ h)

  static_reply-IsPast :
      (rule : StaticRule F) (t : TickWork F S W) (reply : Reply (List (TimeSeries F)) × W)
      → IsPast p t.anomalies
      → IsPast p (static_reply pollers store p now tick rule t reply).anomalies
  unfolding static_reply
  static_reply-IsPast rule t (failed e, w) h = h
  static_reply-IsPast rule t (answered series, w) h = added-IsPast p tick t.anomalies _ h

  static_loop-IsPast :
      (rules : List (StaticRule F)) (t : TickWork F S W)
      → IsPast p t.anomalies
      → IsPast p (static_loop pollers store p now tick rules t).anomalies
  unfolding static_loop
  static_loop-IsPast [] t h = h
  static_loop-IsPast (rule ∷ rules) t h =
      static_loop-IsPast rules _ (static_reply-IsPast rule t _ h)

  log_reply-IsPast :
      (pattern : LogPattern) (t : TickWork F S W) (reply : Reply (List (TimeSeries F)) × W)
      → IsPast p t.anomalies
      → IsPast p (log_reply pollers store p now tick pattern t reply).anomalies
  unfolding log_reply take_found
  log_reply-IsPast pattern t (failed e, w) h = h
  log_reply-IsPast pattern t (answered series, w) h = added-IsPast p tick t.anomalies _ h

  log_loop-IsPast :
      (patterns : List LogPattern) (t : TickWork F S W)
      → IsPast p t.anomalies
      → IsPast p (log_loop pollers store p now tick patterns t).anomalies
  unfolding log_loop
  log_loop-IsPast [] t h = h
  log_loop-IsPast (pattern ∷ patterns) t h =
      log_loop-IsPast patterns _ (log_reply-IsPast pattern t _ h)

module _ {F S W : Type 0} ⦃fl : Float64 F⦄ (pollers : Pollers F W) (store : Evaluator F S)
    (perturb : String → List (TimeSeries F) → Injector F → List (TimeSeries F) × Injector F)
    (p : Plan F) (now : ℕ) where
  work_of-IsPast :
      (tick : ℕ) (st : RunState F S W) (f : Fetch F W)
      → IsPast p (work_of pollers store perturb p now tick st f).anomalies
  unfolding work_of work_start
  work_of-IsPast tick st f = log_loop-IsPast pollers store p now tick p.detection.log_patterns _ (
      static_loop-IsPast pollers store p now tick p.detection.static_rules _ (
        adaptive_loop-IsPast pollers store p now tick p.detection.adaptive_metrics f.per_metric
          (work_start st f) refl))

  finish_tick-IsPast :
      (st : RunState F S W) (f : Fetch F W) (t : TickWork F S W)
      → IsPast p t.anomalies
      → IsPast p st.report.anomalies
      → IsPast p (finish_tick p st f t).report.anomalies
  unfolding finish_tick
  finish_tick-IsPast st f t past h =
      let out = tick_filter p.detection p.fdr_target t.anomalies t.tested in
      omega (
        arith,
        past,
        h,
        count_if-tick_filter (is_early p) p.detection p.fdr_target t.anomalies t.tested,
        count_if-add_anomalies (is_early p) _ out.accepted,
      )

  fetched_tick-IsPast :
      (tick : ℕ) (st : RunState F S W) (f : Fetch F W)
      → IsPast p st.report.anomalies
      → IsPast p (fetched_tick pollers store perturb p now tick st f).report.anomalies
  unfolding fetched_tick skip_tick
  fetched_tick-IsPast tick st f h =
      elim (Bool-cases (ltb 0 (length p.detection.adaptive_metrics) && nat_beq f.succeeded 0)) [
        | inl e ↦ rw e h
        | inr e ↦ rw e (
            finish_tick-IsPast st f (work_of pollers store perturb p now tick st f)
              (work_of-IsPast tick st f) h)
      ]

  -- the report behind the loop, where the fuel was enough
  abbrev ReportIsPast : Option (RunState F S W × Bool) → Type 0
  ReportIsPast none = Unit
  ReportIsPast (some (st, partial)) = IsPast p st.report.anomalies

  run_ticks-IsPast :
      (fuel tick : ℕ) (st : RunState F S W)
      → IsPast p st.report.anomalies
      → ReportIsPast (run_ticks pollers store perturb p now fuel tick st)
  unfolding run_ticks run_tick
  run_ticks-IsPast zero tick st h = tt
  run_ticks-IsPast (suc fuel) tick st h =
      let here = record st { outside = (pollers.interrupted st.outside).1 } in
      let next = run_tick pollers store perturb p now tick here in
      let rest = run_ticks-IsPast fuel (tick + p.step) next (
        fetched_tick-IsPast tick here
          (fetch_all pollers perturb p tick p.detection.adaptive_metrics
            (fetch_start here.injector here.outside))
          h) in
      elim (Bool-cases (ltb p.to tick)) [
        | inl e ↦ rw e h
        | inr e ↦ elim (Bool-cases (pollers.interrupted st.outside).0) [
          | inl signal ↦ rw (e, signal) h
          | inr quiet ↦ rw (e, quiet) rest
        ]
      ]

  -- A run with a positive step, of a window that does not end before it starts, ends, by itself or on
  -- a signal, and from a report that holds nothing of the warm-up it ends with one that holds nothing
  -- of it, whatever the backends answered.
  pub run_ticks_past_warm_up :
      (st : RunState F S W)
      → 0 < p.step
      → p.from ≤ p.to
      → count_if (is_early p) st.report.anomalies ≡ 0
      → (st' : RunState F S W) × (partial : Bool) × (run_ticks pollers store perturb p now
            (suc (p.to - p.from))
            (p.from + p.step)
            st
          ≡ some (st', partial))
        × (count_if (is_early p) st'.report.anomalies ≡ 0)
  run_ticks_past_warm_up st positive ordered h =
      let (st', partial, n, run, seen, within, end) =
        run_ticks_total pollers store perturb p now st positive ordered in
      (
        st',
        partial,
        run,
        subst ReportIsPast run (run_ticks-IsPast (suc (p.to - p.from)) (p.from + p.step) st h),
      )
