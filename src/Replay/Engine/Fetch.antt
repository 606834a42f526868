-- ===== src/Replay/Engine/Fetch.antt =====
-- controller/internal/replay/engine.go: the queries of the adaptive metrics at a tick, which
-- degrade per metric and stop early where the backend is down.
use anomaly_detection.Prelude.{
  ℕ, suc, ◌+◌, String, Bool, false, ◌&&◌, List, [], ◌∷◌, ◌++◌, length, nat_beq, leb, if◌then◌else◌,
}
use anomaly_detection.Config.{AdaptiveMetric}
use anomaly_detection.Worker.{Reply, answered, failed}
use anomaly_detection.Replay.Adapter.{TimeSeries}
use anomaly_detection.Replay.Inject.Injector.{Injector}
use anomaly_detection.Replay.Engine.{Pollers, Plan, chunk_start}

-- The loop so far: the series of each metric, none for a query that failed or was not made, and
-- whether the loop has stopped.
pub record Fetch (F W : Type 0) : Type 0 where
  pub per_metric : List (List (TimeSeries F))
  pub failures : ℕ
  pub succeeded : ℕ
  pub stopped : Bool
  pub query_errors : ℕ
  pub prom_queries : ℕ
  pub injector : Injector F
  pub outside : W

-- systemicFailureThreshold
abbrev pub systemic_failure_threshold : ℕ
systemic_failure_threshold = 3

-- the state before the first query
abbrev pub fetch_start : {F W : Type 0} → Injector F → W → Fetch F W
fetch_start injector w = record {
  per_metric = [];
  failures = 0;
  succeeded = 0;
  stopped = false;
  query_errors = 0;
  prom_queries = 0;
  injector = injector;
  outside = w;
}

module _ {F W : Type 0} (pollers : Pollers F W)
    (perturb : String → List (TimeSeries F) → Injector F → List (TimeSeries F) × Injector F)
    (p : Plan F) (tick : ℕ) where
  -- a round of the loop on the reply to its query
  unfoldable pub fetch_reply :
      AdaptiveMetric F → Fetch F W → Reply (List (TimeSeries F)) × W → Fetch F W
  fetch_reply am f (failed e, w) =
      let failures = suc f.failures in
      record f {
        per_metric = f.per_metric ++ ([] ∷ []);
        failures = failures;
        stopped =
            leb systemic_failure_threshold failures && nat_beq (length f.per_metric + 1) failures;
        query_errors = suc f.query_errors;
        prom_queries = suc f.prom_queries;
        outside = w;
      }
  fetch_reply am f (answered series, w) =
      let (perturbed, injector) = perturb am.name series f.injector in
      record f {
        per_metric = f.per_metric ++ (perturbed ∷ []);
        succeeded = suc f.succeeded;
        prom_queries = suc f.prom_queries;
        injector = injector;
        outside = w;
      }

  -- a metric behind the stop has no series
  unfoldable pub fetch_one : AdaptiveMetric F → Fetch F W → Fetch F W
  unfolding fetch_reply
  fetch_one am f =
      if f.stopped
      then record f { per_metric = f.per_metric ++ ([] ∷ []) }
      else fetch_reply am f
          (pollers.query_range am.query (chunk_start p tick) tick p.step f.outside)

  unfoldable pub fetch_all : List (AdaptiveMetric F) → Fetch F W → Fetch F W
  unfolding fetch_one
  fetch_all [] f = f
  fetch_all (am ∷ metrics) f = fetch_all metrics (fetch_one am f)
