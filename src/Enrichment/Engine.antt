-- ===== src/Enrichment/Engine.antt =====
-- controller/internal/enrichment/engine.go and template.go: the bundle of queries that is run for an
-- identity, and its cache. strings.Replacer, encoding/json and Redis are parameters. The queries of
-- a bundle run concurrently and each writes its own result, so that a function of the query stands
-- for the answers of a source; counters are left out.
pub mod Cached
use Prim.Native.String.{◌++◌}
use anomaly_detection.Prelude.{
  ℕ, String, Bool, true, false, not, Option, none, some, List, [], ◌∷◌, ◌==◌, ◌+◌, map,
  if◌then◌else◌,
}
use anomaly_detection.Float64.{Float64}
use anomaly_detection.Labels.{Labels}
use anomaly_detection.Detection.{Sample}
use anomaly_detection.Worker.{Reply, answered, failed}
use anomaly_detection.Enrichment.Identity.{
  Identity, unknown_kind, pod_kind, service_kind, identity_kind, cache_key,
}

-- config.EnrichmentQuery
pub record EnrichmentQuery : Type 0 where
  pub name : String
  pub query : String
  pub source : String

-- config.Enrichment, without the timeout and the limit of the concurrency
pub record EnrichmentConfig : Type 0 where
  pub enabled : Bool
  pub cache_ttl : ℕ
  pub pod_bundle : List EnrichmentQuery
  pub service_bundle : List EnrichmentQuery

-- the struct `Result`
pub record EnrichmentResult (F : Type 0) : Type 0 where
  pub name : String
  pub source : String
  pub value : F
  pub labels : Labels
  pub error : String

pub record Bundle (F : Type 0) : Type 0 where
  pub identity : Identity
  pub results : List (EnrichmentResult F)
  pub cached : Bool
  pub took : ℕ

-- The interface `enrichCache`, over a state `R` and with the clock: Get, with no answer for an error,
-- and SetWithTTL, with whether it succeeded.
pub record EnrichCache (R : Type 0) : Type 0 where
  pub fetch : R → ℕ → String → Option String
  pub set_with_ttl : R → ℕ → String → String → ℕ → R × Bool

-- json.Marshal and json.Unmarshal on bundles
pub record Codec (F : Type 0) : Type 0 where
  pub marshal : Bundle F → Option String
  pub unmarshal : String → Option (Bundle F)

-- Prometheus, and Loki where it is configured
pub record Sources (F : Type 0) : Type 0 where
  pub vm : String → Reply (List (Sample F))
  pub loki : Option (String → Reply (List (Sample F)))

-- `substitute`; `replace` is strings.NewReplacer(pairs...).Replace
unfoldable pub substitute : (List (String × String) → String → String) → String → Identity → String
substitute replace query i =
    replace
      (("$cluster", i.cluster)
        ∷ ("$namespace", i.namespace)
        ∷ ("$pod", i.pod)
        ∷ ("$container", i.container)
        ∷ ("$service_name", i.service_name)
        ∷ ("$workload", i.workload)
        ∷ ("$node", i.node)
        ∷ [])
      query

-- `bundleFor`
unfoldable pub bundle_for : EnrichmentConfig → Identity → List EnrichmentQuery
bundle_for cfg i = elim (identity_kind i) [
  | pod_kind ↦ cfg.pod_bundle
  | service_kind ↦ cfg.service_bundle
  | unknown_kind ↦ []
]

-- a text of the cache that is read as a bundle
abbrev decoded : {F : Type 0} → Codec F → Option String → Option (Bundle F)
decoded codec none = none
decoded codec (some raw) = if raw == "" then none else codec.unmarshal raw

-- the zero value of `Bundle` with an identity
abbrev pub empty_bundle : {F : Type 0} → Identity → Bundle F
empty_bundle i = record { identity = i; results = []; cached = false; took = 0 }

module _ {F : Type 0} ⦃fl : Float64 F⦄ where
  -- a result without a value
  abbrev pub failed_result : String → String → String → EnrichmentResult F
  failed_result name source error = record {
    name = name;
    source = source;
    value = fl.lit 0 1;
    labels = [];
    error = error;
  }

  -- the result for the reply of a source: its first sample
  unfoldable pub result_of : String → String → Reply (List (Sample F)) → EnrichmentResult F
  result_of name source (failed e) = failed_result name source e
  result_of name source (answered []) = failed_result name source "no_data"
  result_of name source (answered (s ∷ samples)) = record {
    name = name;
    source = source;
    value = s.value;
    labels = s.labels;
    error = "";
  }

  abbrev loki_result :
      String → String → Option (String → Reply (List (Sample F))) → EnrichmentResult F
  loki_result name rendered none = failed_result name "loki" "loki_not_configured"
  loki_result name rendered (some loki) = result_of name "loki" (loki rendered)

  -- `runOne`
  unfoldable pub run_one :
      (List (String × String) → String → String)
      → Sources F
      → Identity
      → EnrichmentQuery
      → EnrichmentResult F
  unfolding result_of substitute
  run_one replace sources i q =
      let rendered = substitute replace q.query i in
      let source = if q.source == "" then "prometheus" else q.source in
      if source == "prometheus"
      then result_of q.name source (sources.vm rendered)
      else if source == "loki"
      then loki_result q.name rendered sources.loki
      else failed_result q.name source ("unknown_source: " ++ source)

  module _ {R : Type 0} (replace : List (String × String) → String → String) (codec : Codec F)
      (cfg : EnrichmentConfig) where
    -- `loadCache`; without Redis there is no cache
    unfoldable pub load_cache : Option (EnrichCache R) → R → ℕ → Identity → Option (Bundle F)
    load_cache none r now i = none
    load_cache (some cache) r now i = decoded codec (cache.fetch r now (cache_key i))

    abbrev stored : EnrichCache R → R → ℕ → String → Option String → R
    stored cache r now key none = r
    stored cache r now key (some raw) = (cache.set_with_ttl r now key raw cfg.cache_ttl).0

    -- `storeCache`: a bundle that cannot be encoded is not stored, and an error of Redis is ignored
    unfoldable pub store_cache : Option (EnrichCache R) → R → ℕ → Bundle F → R
    store_cache none r now b = r
    store_cache (some cache) r now b = stored cache r now (cache_key b.identity) (codec.marshal b)

    -- the rest of `Run` on what the cache holds; `took` is the time that the queries take
    unfoldable pub run_queries :
        Option (EnrichCache R)
        → Sources F
        → ℕ
        → ℕ
        → Identity
        → List EnrichmentQuery
        → R
        → Option (Bundle F)
        → Bundle F × R
    unfolding store_cache run_one
    run_queries cache sources now took i queries r (some b) = (record b { cached = true }, r)
    run_queries cache sources now took i queries r none =
        let b : Bundle F = record {
          identity = i;
          results = map (run_one replace sources i) queries;
          cached = false;
          took = took;
        } in
        (b, store_cache cache r (now + took) b)

    unfoldable pub run_bundle :
        Option (EnrichCache R)
        → Sources F
        → ℕ
        → ℕ
        → Identity
        → List EnrichmentQuery
        → R
        → Bundle F × R
    unfolding run_queries load_cache
    run_bundle cache sources now took i [] r = (empty_bundle i, r)
    run_bundle cache sources now took i (q ∷ queries) r =
        run_queries cache sources now took i (q ∷ queries) r (load_cache cache r now i)

    -- `Run`
    unfoldable pub run_enrichment :
        Option (EnrichCache R) → Sources F → ℕ → ℕ → Identity → R → Bundle F × R
    unfolding run_bundle
    run_enrichment cache sources now took i r =
        if not cfg.enabled
        then (empty_bundle i, r)
        else run_bundle cache sources now took i (bundle_for cfg i) r
