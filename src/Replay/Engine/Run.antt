-- ===== src/Replay/Engine/Run.antt =====
-- controller/internal/replay/engine.go: a tick as a whole, and the loop over the ticks.
pub mod Ticks
pub mod Filtered
pub mod PastWarmUp
use anomaly_detection.Prelude.{
  ℕ, zero, suc, ◌+◌, String, Bool, true, false, ◌&&◌, Option, none, some, List, [], length, nat_beq,
  ltb, if◌then◌else◌,
}
use anomaly_detection.Float64.{Float64}
use anomaly_detection.Baseline.{Evaluator}
use anomaly_detection.Replay.Adapter.{TimeSeries}
use anomaly_detection.Replay.Inject.Injector.{Injector}
use anomaly_detection.Replay.Report.{ReportBuilder, add_anomalies}
use anomaly_detection.Replay.Tick.{TickReport, tick_filter}
use anomaly_detection.Replay.Engine.{Pollers, Plan, TickWork, adaptive_loop, static_loop, log_loop}
use anomaly_detection.Replay.Engine.Fetch.{Fetch, fetch_start, fetch_all}

-- The state of a run: the builder of the report, the counters of `metricsCollector`, and the states
-- of the baselines, the injector and the world outside.
pub record RunState (F S W : Type 0) : Type 0 where
  pub report : ReportBuilder F
  pub ticks_processed : ℕ
  pub ticks_skipped : ℕ
  pub prom_queries : ℕ
  pub loki_queries : ℕ
  pub series : S
  pub injector : Injector F
  pub outside : W

module _ {F S W : Type 0} ⦃fl : Float64 F⦄ where
  -- a tick on which no adaptive query succeeded
  unfoldable pub skip_tick : RunState F S W → Fetch F W → RunState F S W
  skip_tick st f = record st {
    report = record st.report { query_errors = st.report.query_errors + f.query_errors };
    ticks_skipped = suc st.ticks_skipped;
    prom_queries = st.prom_queries + f.prom_queries;
    injector = f.injector;
    outside = f.outside;
  }

  -- the work of a tick before its first rule
  unfoldable pub work_start : RunState F S W → Fetch F W → TickWork F S W
  work_start st f = record {
    anomalies = [];
    tested = 0;
    warmup_skipped = 0;
    query_errors = f.query_errors;
    prom_queries = f.prom_queries;
    loki_queries = 0;
    series = st.series;
    outside = f.outside;
  }

  -- the filters, and the report and the counters behind a tick
  unfoldable pub finish_tick : Plan F → RunState F S W → Fetch F W → TickWork F S W → RunState F S W
  finish_tick p st f t =
      let out = tick_filter p.detection p.fdr_target t.anomalies t.tested in
      record st {
        report =
            add_anomalies
              (record st.report {
                warmup_skipped = st.report.warmup_skipped + t.warmup_skipped;
                query_errors = st.report.query_errors + t.query_errors;
                fdr_rejected = st.report.fdr_rejected + out.fdr_rejected;
                floor_filtered = st.report.floor_filtered + out.floor_filtered;
                direction_filtered = st.report.direction_filtered + out.direction_filtered;
              })
              out.accepted;
        ticks_processed = suc st.ticks_processed;
        prom_queries = st.prom_queries + t.prom_queries;
        loki_queries = st.loki_queries + t.loki_queries;
        series = t.series;
        injector = f.injector;
        outside = t.outside;
      }

module _ {F S W : Type 0} ⦃fl : Float64 F⦄ (pollers : Pollers F W) (store : Evaluator F S)
    (perturb : String → List (TimeSeries F) → Injector F → List (TimeSeries F) × Injector F)
    (p : Plan F) (now : ℕ) where
  -- the rules of a tick: adaptive, static, logs
  unfoldable pub work_of : ℕ → RunState F S W → Fetch F W → TickWork F S W
  unfolding work_start
  work_of tick st f = log_loop pollers store p now tick p.detection.log_patterns (
      static_loop pollers store p now tick p.detection.static_rules (
        adaptive_loop pollers store p now tick p.detection.adaptive_metrics f.per_metric
          (work_start st f)))

  -- the body of the loop behind the queries of the adaptive metrics
  unfoldable pub fetched_tick : ℕ → RunState F S W → Fetch F W → RunState F S W
  unfolding skip_tick finish_tick work_of
  fetched_tick tick st f =
      if ltb 0 (length p.detection.adaptive_metrics) && nat_beq f.succeeded 0
      then skip_tick st f
      else finish_tick p st f (work_of tick st f)

  unfoldable pub run_tick : ℕ → RunState F S W → RunState F S W
  unfolding fetched_tick
  run_tick tick st = fetched_tick tick st (
      fetch_all pollers perturb p tick p.detection.adaptive_metrics
        (fetch_start st.injector st.outside))

  -- The loop from a tick on: the state behind it and whether a signal ended it; `none` is the end of
  -- the fuel.
  unfoldable pub run_ticks : ℕ → ℕ → RunState F S W → Option (RunState F S W × Bool)
  unfolding run_tick
  run_ticks zero tick st = none
  run_ticks (suc fuel) tick st =
      let (signal, w) = pollers.interrupted st.outside in
      let here = record st { outside = w } in
      let rest = run_ticks fuel (tick + p.step) (run_tick tick here) in
      if ltb p.to tick then some (st, false) else if signal then some (here, true) else rest
