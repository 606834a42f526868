-- ===== src/Enrichment/Engine/Cached.antt =====
-- controller/internal/enrichment/engine.go: what the cache of the bundles answers.
use anomaly_detection.Prelude.{
  ℕ, ◌+◌, ◌≤◌, ◌<◌, ◌≡◌, refl, String, true, false, none, some, List, ◌∷◌, ◌==◌, map,
}
use anomaly_detection.Float64.{Float64}
use anomaly_detection.Enrichment.Identity.{Identity, cache_key}
use anomaly_detection.Enrichment.Engine.{
  EnrichmentQuery, EnrichmentConfig, Bundle, EnrichCache, Codec, Sources, bundle_for, load_cache,
  store_cache, run_one, run_queries, run_bundle, run_enrichment,
}

-- A text that was set reads back until its time to live is over.
pub record IsKeeping {R : Type 0} (cache : EnrichCache R) : Type 0 where
  pub keeps :
      (r : R) (now later : ℕ) (key value : String) (ttl : ℕ)
      → now ≤ later
      → later < now + ttl
      → cache.fetch (cache.set_with_ttl r now key value ttl).0 later key ≡ some value

-- The bundle has a text, which is not empty and reads back as the bundle.
pub record ReadsBack {F : Type 0} (codec : Codec F) (b : Bundle F) (raw : String) : Type 0 where
  pub text : codec.marshal b ≡ some raw
  pub full : (raw == "") ≡ false
  pub back : codec.unmarshal raw ≡ some b

module _ {F R : Type 0} ⦃fl : Float64 F⦄ (replace : List (String × String) → String → String)
    (codec : Codec F) (cfg : EnrichmentConfig) (cache : EnrichCache R) where
  -- a run on a hit and on a miss
  run_enrichment-hit :
      (sources : Sources F) (now took : ℕ) (i : Identity) (r : R) (q : EnrichmentQuery)
      (queries : List EnrichmentQuery) (b : Bundle F)
      → cfg.enabled ≡ true
      → bundle_for cfg i ≡ q ∷ queries
      → load_cache replace codec cfg (some cache) r now i ≡ some b
      → run_enrichment replace codec cfg (some cache) sources now took i r
        ≡ (record b { cached = true }, r)
  unfolding run_enrichment run_bundle run_queries
  run_enrichment-hit sources now took i r q queries b on bundle hit = rw (bundle, hit, on) refl

  -- the bundle that the queries of an identity give
  abbrev pub fresh_bundle : Sources F → ℕ → Identity → Bundle F
  fresh_bundle sources took i = record {
    identity = i;
    results = map (run_one replace sources i) (bundle_for cfg i);
    cached = false;
    took = took;
  }

  run_enrichment-miss :
      (sources : Sources F) (now took : ℕ) (i : Identity) (r : R) (q : EnrichmentQuery)
      (queries : List EnrichmentQuery)
      → cfg.enabled ≡ true
      → bundle_for cfg i ≡ q ∷ queries
      → load_cache replace codec cfg (some cache) r now i ≡ none
      → run_enrichment replace codec cfg (some cache) sources now took i r ≡ (
        fresh_bundle sources took i,
        store_cache replace codec cfg (some cache) r (now + took) (fresh_bundle sources took i),
      )
  unfolding run_enrichment run_bundle run_queries
  run_enrichment-miss sources now took i r q queries on bundle miss = rw (bundle, miss, on) refl

  -- a stored bundle is what an identity of the same key reads
  load_cache-store_cache :
      (b : Bundle F) (raw : String) (j : Identity) (r : R) (now later : ℕ)
      → IsKeeping cache
      → ReadsBack codec b raw
      → cache_key j ≡ cache_key b.identity
      → now ≤ later
      → later < now + cfg.cache_ttl
      → load_cache replace codec cfg
          (some cache)
          (store_cache replace codec cfg (some cache) r now b)
          later
          j
        ≡ some b
  unfolding load_cache store_cache
  load_cache-store_cache b raw j r now later keeping reads same after before =
      let kept = keeping.keeps r now later (cache_key b.identity) raw cfg.cache_ttl after before in
      rw (reads.text, same, kept, reads.full) reads.back

  -- Over a cache that keeps texts for their time to live: a run that finds nothing cached runs every
  -- query of the bundle of its identity; if that bundle reads back from its JSON text, each later run within the
  -- time to live, of any identity with the same key and a bundle, answers with that bundle, marked
  -- as cached, whatever the sources would answer, and leaves the cache as it is.
  pub run_enrichment_cached :
      (first then : Sources F) (now took later took' : ℕ) (i j : Identity) (r : R)
      (q q' : EnrichmentQuery) (queries queries' : List EnrichmentQuery) (raw : String)
      → IsKeeping cache
      → cfg.enabled ≡ true
      → bundle_for cfg i ≡ q ∷ queries
      → bundle_for cfg j ≡ q' ∷ queries'
      → cache_key j ≡ cache_key i
      → load_cache replace codec cfg (some cache) r now i ≡ none
      → ReadsBack codec (fresh_bundle first took i) raw
      → now + took ≤ later
      → later < now + took + cfg.cache_ttl
      → let (b, r') = run_enrichment replace codec cfg (some cache) first now took i r in
        (b ≡ fresh_bundle first took i)
        × (run_enrichment replace codec cfg (some cache) then later took' j r'
            ≡ (record b { cached = true }, r'))
  run_enrichment_cached first then now took later took' i j r q q' queries queries' raw keeping on
        bundle bundle' same miss reads after before =
      let b = fresh_bundle first took i in
      let r' = store_cache replace codec cfg (some cache) r (now + took) b in
      rw (run_enrichment-miss first now took i r q queries on bundle miss) (
        refl,
        run_enrichment-hit then later took' j r' q' queries' b on bundle'
            (load_cache-store_cache b raw j r (now + took) later keeping reads same after before),
      )
