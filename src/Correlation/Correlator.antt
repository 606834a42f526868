-- ===== src/Correlation/Correlator.antt =====
-- controller/internal/correlation/correlator.go: the types, the keys of the groups, and the alerts
-- built from a group. Children hold the stages of `Flush`.
pub mod Pending
pub mod Patterns
pub mod Finalize
pub mod Flush
use Prim.Native.Char.{Char, code}
use Prim.Native.String
use Prim.Native.String.{◌++◌}
use anomaly_detection.Prelude.{
  ℕ, String, Bool, true, false, not, ◌&&◌, ◌||◌, Option, none, some, List, [], ◌∷◌, map, ◌==◌,
  nat_beq, leb, length, if◌then◌else◌,
}
use anomaly_detection.Labels.{Labels, get, contains}
use anomaly_detection.Detection.{Anomaly}

-- the type `Kind`
pub data AlertKind : Type 0 where
  pod_alert workload_alert : AlertKind

unfoldable pub kind_text : AlertKind → String
kind_text pod_alert = "pod"
kind_text workload_alert = "workload"

pub record Group (F : Type 0) : Type 0 where
  pub anomalies : List (Anomaly F)
  pub first_seen : ℕ

-- The verdict of the ML service on an alert.
pub record MlDetection (F : Type 0) : Type 0 where
  pub is_anomaly : Bool
  pub score : F
  pub contributors : List String
  pub feature_count : ℕ

-- `E` is the type of enrichment bundles; `none` is the bundle of an alert that was not enriched.
pub record CorrelatedAlert (F E : Type 0) : Type 0 where
  pub kind : AlertKind
  pub anomalies : List (Anomaly F)
  pub severity : String
  pub cluster : String
  pub namespace : String
  pub workload : String
  pub signals : List String
  pub enrichment : Option E
  pub ml_detection : Option (MlDetection F)
  pub affected_pods : List String
  pub affected_replicas : ℕ

-- `clusterOrUnknown`
unfoldable pub cluster_or_unknown : Labels → String
cluster_or_unknown labels = let c = get labels "cluster" in if c == "" then "unknown" else c

-- `ExtractWorkloadFromKey`: the text behind the last slash, if there is one
unfoldable pub behind_slash : String → Option String
behind_slash String.[] = none
behind_slash (String.◌∷◌ c s) = elim (behind_slash s) [
  | some r ↦ some r
  | none ↦ if nat_beq (code c) b'/' then some s else none
]

unfoldable pub extract_workload_from_key : String → String
unfolding behind_slash
extract_workload_from_key key = elim (behind_slash key) [ some r ↦ r | none ↦ key ]

-- a key is added to a set that a map stands for
abbrev pub add_to_set : String → List String → List String
add_to_set k set = if contains set k then set else k ∷ set

module _ {F : Type 0} where
  -- `workloadKey`
  unfoldable pub workload_key : Anomaly F → String
  unfolding cluster_or_unknown
  workload_key a =
      let ns = get a.labels "namespace" in
      let pod = get a.labels "pod" in
      let id = if pod == "" then get a.labels "service_name" else pod in
      if ns == "" && id == ""
      then "_unknown_"
      else cluster_or_unknown a.labels ++ ("/" ++ (ns ++ ("/" ++ id)))

  -- signalSet
  unfoldable pub signal_set : List (Anomaly F) → List String
  unfolding contains
  signal_set [] = []
  signal_set (a ∷ rest) = add_to_set a.signal (signal_set rest)

  unfoldable pub any_critical : List (Anomaly F) → Bool
  any_critical [] = false
  any_critical (a ∷ rest) = a.severity == "critical" || any_critical rest

  -- maxSeverity
  unfoldable pub max_severity : List (Anomaly F) → String
  unfolding any_critical
  max_severity anomalies = if any_critical anomalies then "critical" else "warning"

  -- the labels of g.anomalies[0]; the index panics on a group without anomalies, `none`
  unfoldable pub first_labels : List (Anomaly F) → Option Labels
  first_labels [] = none
  first_labels (a ∷ rest) = some a.labels

  module _ {E : Type 0} where
    -- `buildPodAlert` behind the index into the group
    unfoldable pub pod_alert_of : List (Anomaly F) → Labels → CorrelatedAlert F E
    unfolding max_severity signal_set cluster_or_unknown
    pod_alert_of anomalies labels =
        let signals = signal_set anomalies in
        let severity = max_severity anomalies in
        record {
          kind = pod_alert;
          anomalies = anomalies;
          severity =
              if leb 2 (length signals) && severity == "warning" then "critical" else severity;
          cluster = cluster_or_unknown labels;
          namespace = get labels "namespace";
          workload = get labels "pod";
          signals = signals;
          enrichment = none;
          ml_detection = none;
          affected_pods = [];
          affected_replicas = 0;
        }

    -- `buildPodAlert`; `none` is the panic
    unfoldable pub build_pod_alert : Group F → Option (CorrelatedAlert F E)
    unfolding first_labels pod_alert_of
    build_pod_alert g = elim (first_labels g.anomalies) [
      | none ↦ none
      | some l ↦ some (pod_alert_of g.anomalies l)
    ]
