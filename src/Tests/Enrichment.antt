-- ===== src/Tests/Enrichment.antt =====
-- The theorems on the feature vector of an alert, and on the cache of the enrichment bundles: of two
-- containers of one pod, the second is answered with what the queries said of the first.
use anomaly_detection.Prelude.{
  ℕ, ◌+◌, ◌<◌, ◌≡◌, refl, ap, ◌∙◌, String, true, false, Option, none, some, List, [], ◌∷◌, eq_iff,
  leb, suc, arith, if◌then◌else◌,
}
use anomaly_detection.Float64.Nano.{Nano, nano}
use anomaly_detection.Labels.{lookup, insert, lookup-insert}
use anomaly_detection.Detection.{Anomaly}
use anomaly_detection.Ml.{
  MlClient, FeatureVector, build_feature_vector, detection_of, detect_from_features,
}
use anomaly_detection.Ml.Features.{latest, own_feature, build_feature_vector_lem}
use anomaly_detection.Tests.Fdr.{anomaly_of}
use anomaly_detection.Worker.{answered, failed}
use anomaly_detection.Enrichment.Identity.{Identity, identity_kind, cache_key}
use anomaly_detection.Enrichment.Engine.{
  EnrichmentConfig, Bundle, EnrichCache, Codec, Sources, bundle_for, load_cache, run_one,
  run_enrichment,
}
use anomaly_detection.Enrichment.Engine.Cached.{
  IsKeeping, ReadsBack, fresh_bundle, run_enrichment_cached,
}

-- the texts with the times at which they expire
abbrev Texts : Type 0
Texts = List (String × (String × ℕ))

abbrev unless_expired : ℕ → Option (String × ℕ) → Option String
unless_expired now none = some ""
unless_expired now (some (text, end)) = if leb (suc now) end then some text else some ""

abbrev texts : EnrichCache Texts
texts = record {
  fetch = λ r now key. unless_expired now (lookup key r);
  set_with_ttl = λ r now key value ttl. (insert key (value, now + ttl) r, true);
}

still_there :
    (later end : ℕ) (text : String)
    → later < end
    → unless_expired later (some (text, end)) ≡ some text
still_there later end text h = ground (arith, h)

texts-IsKeeping : IsKeeping texts
texts-IsKeeping = record {
  keeps = λ r now later key value ttl after before.
      ap (unless_expired later) (
        lookup-insert key key (value, now + ttl) r
        ∙ ap (λ b. if b then some (value, now + ttl) else lookup key r) ((eq_iff key key).1 refl))
      ∙ still_there later (now + ttl) value before;
}

abbrev cfg : EnrichmentConfig
cfg = record {
  enabled = true;
  cache_ttl = 10;
  pod_bundle = record { name = "memory"; query = "mem"; source = "" } ∷ [];
  service_bundle = [];
}

abbrev container : String → Identity
container name = record {
  cluster = "c";
  namespace = "shop";
  pod = "api-0";
  container = name;
  service_name = "";
  workload = "";
  node = "";
}

-- queries without placeholders are left as they are
abbrev replace : List (String × String) → String → String
replace pairs query = query

abbrev sources : Sources Nano
sources = record {
  vm = λ q. answered (record { labels = []; value = nano.lit 7 1 } ∷ []);
  loki = none;
}

abbrev silent : Sources Nano
silent = record { vm = λ q. failed "down"; loki = none }

abbrev bundle : Bundle Nano
bundle = record {
  identity = container "main";
  results =
      record {
        name = "memory";
        source = "prometheus";
        value = nano.lit 7 1;
        labels = [];
        error = "";
      }
      ∷ [];
  cached = false;
  took = 2;
}

abbrev codec : Codec Nano
codec = record { marshal = λ b. some b.identity.pod; unmarshal = λ raw. some bundle }

same_key : cache_key (container "sidecar") ≡ cache_key (container "main")
unfolding cache_key
same_key = refl

pods : bundle_for cfg (container "main") ≡ cfg.pod_bundle
unfolding bundle_for identity_kind
pods = refl

pods_of_sidecar : bundle_for cfg (container "sidecar") ≡ cfg.pod_bundle
unfolding bundle_for identity_kind
pods_of_sidecar = refl

nothing_cached : load_cache replace codec cfg (some texts) [] 100 (container "main") ≡ none
unfolding load_cache lookup
nothing_cached = refl

reads_back :
    ReadsBack codec (fresh_bundle replace codec cfg texts sources 2 (container "main")) "api-0"
unfolding bundle_for identity_kind run_one
reads_back = record { text = refl; full = refl; back = refl }

run_enrichment_cached_example :
    let (b, r') =
      run_enrichment replace codec cfg (some texts) sources 100 2 (container "main") [] in
    (b ≡ fresh_bundle replace codec cfg texts sources 2 (container "main"))
    × (run_enrichment replace codec cfg (some texts) silent 105 1 (container "sidecar") r'
        ≡ (record b { cached = true }, r'))
run_enrichment_cached_example =
    run_enrichment_cached replace codec cfg texts sources silent 100 2 105 1 (container "main")
      (container "sidecar") [] _ _ [] [] "api-0" texts-IsKeeping refl pods pods_of_sidecar same_key
      nothing_cached reads_back (omega arith) (omega arith)

abbrev client : MlClient Nano
client = record {
  enabled = true;
  service = record {
    forecast = λ metric values times threshold. failed "no model";
    multivariate = λ features. answered (record {
      is_anomaly = true;
      anomaly_score = nano.lit 9 10;
      contributing_metrics = "memory" ∷ [];
    });
  };
}

abbrev rep : Anomaly Nano
rep = anomaly_of "adaptive" [] 90 9

build_feature_vector_lem_example :
    (f : FeatureVector Nano) × (build_feature_vector rep bundle ≡ some f)
    × ((k : String) → lookup k f ≡ latest k bundle.results (own_feature rep k))
    × (detect_from_features client f ≡ detection_of f (client.service.multivariate f))
build_feature_vector_lem_example = build_feature_vector_lem client rep bundle
