-- ===== src/Replay/Engine.antt =====
-- controller/internal/replay/engine.go: `Run`, the simulation of the ticks. The pollers, the signals
-- of the process, the baselines and the injector are interfaces; times are nanoseconds. The
-- durations of queries and the samples of the memory are left out.
pub mod Fetch
pub mod Run
use anomaly_detection.Prelude.{
  ℕ, suc, ◌+◌, ◌-◌, ◌*◌, ◌^◌, String, Bool, List, [], ◌∷◌, ◌++◌, map, length, ltb, if◌then◌else◌,
}
use anomaly_detection.Float64.{Float64}
use anomaly_detection.Detection.{Anomaly, Sample}
use anomaly_detection.Detection.Static.{StaticRule, evaluate_static}
use anomaly_detection.Detection.Adaptive.{evaluate_adaptive, evaluate_log_rate}
use anomaly_detection.Baseline.{BaselineConfig, Evaluator}
use anomaly_detection.Config.{AdaptiveMetric, LogPattern, DetectionConfig}
use anomaly_detection.Worker.{Reply, answered, failed}
use anomaly_detection.Replay.Adapter.{TimeSeries, samples_at}
use anomaly_detection.Replay.Inject.Injector.{Injector}

-- QueryRange and QueryMetricRange (query, start, end, step), and whether a signal has arrived.
pub record Pollers (F W : Type 0) : Type 0 where
  pub query_range : String → ℕ → ℕ → ℕ → W → Reply (List (TimeSeries F)) × W
  pub loki_range : String → ℕ → ℕ → ℕ → W → Reply (List (TimeSeries F)) × W
  pub interrupted : W → Bool × W

-- What `Run` reads of its arguments, with the end of the warm-up.
pub record Plan (F : Type 0) : Type 0 where
  pub from : ℕ
  pub to : ℕ
  pub step : ℕ
  pub warmup_end : ℕ
  pub detection : DetectionConfig F
  pub fdr_target : F

-- the end of the warm-up; `trunc` is the conversion time.Duration(x) of a float
unfoldable pub warmup_end_of :
    {F : Type 0} → ⦃fl : Float64 F⦄ → (F → ℕ) → BaselineConfig F → ℕ → F → ℕ → ℕ → ℕ
warmup_end_of ⦃fl⦄ trunc cfg step fraction from to =
    let by_fraction = trunc (fl.mul (fl.lit (to - from) 1) fraction) in
    let least = cfg.warm_up_samples * step in
    from + (if ltb by_fraction least then least else by_fraction)

-- the start of the hour of data that a tick reads
unfoldable pub chunk_start : {F : Type 0} → Plan F → ℕ → ℕ
chunk_start p tick = if ltb tick (p.from + 3600 * 10 ^ 9) then p.from else tick - 3600 * 10 ^ 9

-- What a tick has gathered: anomalies, tests, skipped anomalies and errors, the counts of queries,
-- and the states behind it.
pub record TickWork (F S W : Type 0) : Type 0 where
  pub anomalies : List (Anomaly F)
  pub tested : ℕ
  pub warmup_skipped : ℕ
  pub query_errors : ℕ
  pub prom_queries : ℕ
  pub loki_queries : ℕ
  pub series : S
  pub outside : W

-- anomalies[j].Timestamp = tick
abbrev pub at_tick : {F : Type 0} → ℕ → Anomaly F → Anomaly F
at_tick tick a = record a { timestamp = tick }

module _ {F S W : Type 0} where
  -- the anomalies and the tests of one rule, in the warm-up or past it
  unfoldable pub take_found :
      Bool → ℕ → (List (Anomaly F) × ℕ) × S → TickWork F S W → TickWork F S W
  take_found is_warmup tick ((found, tested), series) t = record t {
    anomalies = if is_warmup then t.anomalies else t.anomalies ++ map (at_tick tick) found;
    tested = if is_warmup then t.tested else t.tested + tested;
    warmup_skipped = if is_warmup then t.warmup_skipped + length found else t.warmup_skipped;
    series = series;
  }

module _ {F S W : Type 0} ⦃fl : Float64 F⦄ (pollers : Pollers F W) (store : Evaluator F S)
    (p : Plan F) (now tick : ℕ) where
  -- tick.Before(warmupEnd)
  abbrev pub is_warmup : Bool
  is_warmup = ltb tick p.warmup_end

  -- adaptive detection, each metric on its own series
  unfoldable pub adaptive_loop :
      List (AdaptiveMetric F) → List (List (TimeSeries F)) → TickWork F S W → TickWork F S W
  unfolding take_found
  adaptive_loop [] per_metric t = t
  adaptive_loop (am ∷ metrics) [] t = t
  adaptive_loop (am ∷ metrics) (series ∷ per_metric) t = adaptive_loop metrics per_metric (
      take_found is_warmup tick
        (evaluate_adaptive store am.name now (samples_at tick series) t.series) t)

  -- the round of a static rule on the reply to its query; in the warm-up nothing is evaluated
  unfoldable pub static_reply :
      StaticRule F → TickWork F S W → Reply (List (TimeSeries F)) × W → TickWork F S W
  static_reply rule t (failed e, w) = record t {
    query_errors = suc t.query_errors;
    prom_queries = suc t.prom_queries;
    outside = w;
  }
  static_reply rule t (answered series, w) = record t {
    anomalies =
        if is_warmup
        then t.anomalies
        else t.anomalies ++ map (at_tick tick) (evaluate_static rule now (samples_at tick series));
    prom_queries = suc t.prom_queries;
    outside = w;
  }

  unfoldable pub static_loop : List (StaticRule F) → TickWork F S W → TickWork F S W
  unfolding static_reply
  static_loop [] t = t
  static_loop (rule ∷ rules) t = static_loop rules (
      static_reply rule t
        (pollers.query_range rule.query (chunk_start p tick) tick p.step t.outside))

  unfoldable pub log_reply :
      LogPattern → TickWork F S W → Reply (List (TimeSeries F)) × W → TickWork F S W
  unfolding take_found
  log_reply pattern t (failed e, w) = record t {
    query_errors = suc t.query_errors;
    loki_queries = suc t.loki_queries;
    outside = w;
  }
  log_reply pattern t (answered series, w) =
      take_found is_warmup tick
        (evaluate_log_rate store pattern.name now (samples_at tick series) t.series)
        (record t { loki_queries = suc t.loki_queries; outside = w })

  unfoldable pub log_loop : List LogPattern → TickWork F S W → TickWork F S W
  unfolding log_reply
  log_loop [] t = t
  log_loop (pattern ∷ patterns) t = log_loop patterns (
      log_reply pattern t
        (pollers.loki_range pattern.query (chunk_start p tick) tick p.step t.outside))
