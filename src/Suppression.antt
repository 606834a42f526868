-- ===== src/Suppression.antt =====
-- controller/internal/suppression/suppression.go: which anomalies the operators silence. The sets
-- of `NewFilter` are lists of their keys.
pub mod Silenced
use anomaly_detection.Prelude.{
  ◌≡◌, refl, ◌≢◌, ◌↔◌, ◌⊎◌, inl, inr, String, Bool, true, false, not, ◌&&◌, List, [], ◌∷◌, ◌==◌,
  length, ltb, arith, eq_iff, Bool-cases, select, if◌then◌else◌,
}
use anomaly_detection.Labels.{get, contains}
use anomaly_detection.Detection.{Anomaly}
use anomaly_detection.Correlation.Workload.{extract_workload}

-- config.Suppression
pub record SuppressionConfig : Type 0 where
  pub exclude_namespaces : List String
  pub exclude_static_only : List String
  pub exclude_adaptive_workloads : List String

-- the struct `Filter`
pub record Filter : Type 0 where
  pub exclude_all : List String
  pub exclude_static : List String
  pub exclude_adaptive_workload : List String

unfoldable pub new_filter : SuppressionConfig → Filter
new_filter cfg = record {
  exclude_all = cfg.exclude_namespaces;
  exclude_static = cfg.exclude_static_only;
  exclude_adaptive_workload = cfg.exclude_adaptive_workloads;
}

module _ {F : Type 0} where
  unfoldable pub workload_identity : Anomaly F → String
  workload_identity a =
      let pod = get a.labels "pod" in
      let w = extract_workload pod in
      if pod == "" then get a.labels "service_name" else if w == "" then pod else w

  -- the part of `SuppressReason` behind the workload rule
  unfoldable pub namespace_reason : Filter → Anomaly F → String
  namespace_reason f a =
      let ns = get a.labels "namespace" in
      if ns == ""
      then ""
      else if contains f.exclude_all ns
      then "namespace_all"
      else if contains f.exclude_static ns && a.detector == "static"
      then "namespace_static"
      else ""

  unfoldable pub suppress_reason : Filter → Anomaly F → String
  unfolding namespace_reason workload_identity
  suppress_reason f a =
      if a.detector == "adaptive" && ltb 0 (length f.exclude_adaptive_workload)
      then if contains f.exclude_adaptive_workload (workload_identity a)
        then "adaptive_workload"
        else namespace_reason f a
      else namespace_reason f a

  unfoldable pub should_suppress : Filter → Anomaly F → Bool
  unfolding suppress_reason
  should_suppress f a = not (suppress_reason f a == "")

  unfoldable pub filter_anomalies : Filter → List (Anomaly F) → List (Anomaly F)
  unfolding should_suppress
  filter_anomalies f [] = []
  filter_anomalies f (a ∷ anomalies) =
      let rest = filter_anomalies f anomalies in
      if not (should_suppress f a) then a ∷ rest else rest
