-- ===== src/Enrichment/Identity.antt =====
-- controller/internal/enrichment/identity.go: the identity that the labels of an anomaly give.
use Prim.Native.String.{◌++◌}
use anomaly_detection.Prelude.{
  String, Bool, false, not, ◌&&◌, Option, none, some, List, [], ◌∷◌, ◌==◌, if◌then◌else◌,
}
use anomaly_detection.Labels.{Labels, lookup}
use anomaly_detection.Baseline.Keys.{sort_strings}

pub record Identity : Type 0 where
  pub cluster : String
  pub namespace : String
  pub pod : String
  pub container : String
  pub service_name : String
  pub workload : String
  pub node : String

pub data IdentityKind : Type 0 where
  unknown_kind pod_kind service_kind : IdentityKind

abbrev is_set : String → Bool
is_set s = not (s == "")

-- `Kind`
unfoldable pub identity_kind : Identity → IdentityKind
identity_kind i =
    if is_set i.pod && is_set i.namespace
    then pod_kind
    else if is_set i.service_name
    then service_kind
    else unknown_kind

abbrev usable : Option String → Bool
usable none = false
usable (some v) = is_set v

abbrev value_of : Option String → String
value_of none = ""
value_of (some v) = v

-- `firstNonEmpty`
unfoldable pub first_non_empty : Labels → List String → String
first_non_empty m [] = ""
first_non_empty m (k ∷ keys) =
    if usable (lookup k m) then value_of (lookup k m) else first_non_empty m keys

-- `IdentityFromLabels`
unfoldable pub identity_from_labels : Labels → Identity
unfolding first_non_empty
identity_from_labels m = record {
  cluster = first_non_empty m ("cluster" ∷ "k8s_cluster_name" ∷ "k8s.cluster.name" ∷ []);
  namespace = first_non_empty m ("namespace" ∷ "k8s_namespace_name" ∷ "k8s.namespace.name" ∷ []);
  pod = first_non_empty m ("pod" ∷ "k8s_pod_name" ∷ "k8s.pod.name" ∷ []);
  container = first_non_empty m ("container" ∷ "container_name" ∷ "k8s.container.name" ∷ []);
  service_name = first_non_empty m ("service_name" ∷ "service.name" ∷ []);
  workload = first_non_empty m ("workload" ∷ "deployment" ∷ "k8s_deployment_name" ∷ []);
  node = first_non_empty m ("node" ∷ "k8s_node_name" ∷ "k8s.node.name" ∷ []);
}

-- one entry "name=value" for a field that is set
abbrev part : String → String → List String → List String
part name value rest = if is_set value then (name ++ ("=" ++ value)) ∷ rest else rest

-- strings.Join(parts, ",")
unfoldable pub join_commas : List String → String
join_commas [] = ""
join_commas (p ∷ []) = p
join_commas (p ∷ q ∷ rest) = p ++ ("," ++ join_commas (q ∷ rest))

-- `CacheKey`
unfoldable pub cache_key : Identity → String
unfolding join_commas
cache_key i =
    "enrichment:"
    ++ join_commas (
        sort_strings (
          part "cluster" i.cluster
            (part "ns" i.namespace (part "pod" i.pod (part "svc" i.service_name [])))))

-- `String`
unfoldable pub identity_text : Identity → String
unfolding identity_kind
identity_text i = elim (identity_kind i) [
  | pod_kind ↦ "pod=" ++ (i.namespace ++ ("/" ++ i.pod))
  | service_kind ↦ "service=" ++ i.service_name
  | unknown_kind ↦ "unknown"
]
