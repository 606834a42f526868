-- ===== src/Suppression/Silenced.antt =====
-- controller/internal/suppression/suppression.go: exactly which anomalies a filter silences.
use anomaly_detection.Prelude.{
  ◌≡◌, refl, ap, ◌≢◌, ◌↔◌, ◌⊎◌, inl, inr, String, Bool, true, false, not, ◌&&◌, ◌||◌, ◌∙◌, List, [],
  ◌∷◌, ◌==◌, length, ltb, arith, eq_iff, Bool-cases, select, if◌then◌else◌,
}
use anomaly_detection.Labels.{get, contains}
use anomaly_detection.Detection.{Anomaly}
use anomaly_detection.Suppression.{
  SuppressionConfig, Filter, new_filter, workload_identity, namespace_reason, suppress_reason,
  should_suppress, filter_anomalies,
}

namespace_test :
    (x y z w : Bool)
    → not (
        (if x then "" else if y then "namespace_all" else if z && w then "namespace_static" else "")
        == "")
      ≡ (not x && (y || (z && w)))
namespace_test true y z w = refl
namespace_test false true z w = refl
namespace_test false false true true = refl
namespace_test false false true false = refl
namespace_test false false false w = refl

workload_test :
    (e l c : Bool) (r : String)
    → not ((if e && l then (if c then "adaptive_workload" else r) else r) == "")
      ≡ ((e && (l && c)) || not (r == ""))
workload_test true true true r = refl
workload_test true true false r = refl
workload_test true false c r = refl
workload_test false l c r = refl

listed :
    (names : List String) (k : String)
    → (ltb 0 (length names) && contains names k) ≡ contains names k
unfolding contains
listed [] k = refl
listed (n ∷ names) k = ground arith

module _ {F : Type 0} where
  -- what the configuration silences: the anomalies of the detector adaptive of the listed
  -- workloads, those of log rates among them, all anomalies of some namespaces, and the static ones
  -- of others
  abbrev pub IsSilenced : SuppressionConfig → Anomaly F → Type 0
  IsSilenced cfg a =
      ((a.detector ≡ "adaptive")
        × (contains cfg.exclude_adaptive_workloads (workload_identity a) ≡ true))
      ⊎ ((get a.labels "namespace" ≢ "")
          × ((contains cfg.exclude_namespaces (get a.labels "namespace") ≡ true)
              ⊎ ((contains cfg.exclude_static_only (get a.labels "namespace") ≡ true)
                  × (a.detector ≡ "static"))))

  suppressed_test :
      (f : Filter) (a : Anomaly F)
      → should_suppress f a ≡ (
          (a.detector == "adaptive" && contains f.exclude_adaptive_workload (workload_identity a))
          || (not (get a.labels "namespace" == "")
              && (contains f.exclude_all (get a.labels "namespace")
                  || (contains f.exclude_static (get a.labels "namespace")
                      && a.detector == "static"))))
  unfolding should_suppress suppress_reason namespace_reason
  suppressed_test f a =
      let names = f.exclude_adaptive_workload in
      let id = workload_identity a in
      let ns = get a.labels "namespace" in
      let e = a.detector == "adaptive" in
      workload_test e (ltb 0 (length names)) (contains names id) (namespace_reason f a)
      ∙ ap (λ (t : Bool). (e && t) || not (namespace_reason f a == "")) (listed names id)
      ∙ ap (λ (t : Bool). (e && contains names id) || t)
          (namespace_test (ns == "") (contains f.exclude_all ns) (contains f.exclude_static ns)
            (a.detector == "static"))

  -- An anomaly is suppressed exactly if the configuration silences its workload for the detector
  -- adaptive, its namespace, or its namespace for the detector static.
  pub should_suppress_iff :
      (cfg : SuppressionConfig) (a : Anomaly F)
      → (should_suppress (new_filter cfg) a ≡ true) ↔ IsSilenced cfg a
  unfolding new_filter
  should_suppress_iff cfg a = ground (
    arith,
    suppressed_test (new_filter cfg) a,
    eq_iff a.detector "adaptive",
    eq_iff a.detector "static",
    eq_iff (get a.labels "namespace") "",
  )

  -- `FilterAnomalies` keeps exactly the anomalies that are not suppressed, in order.
  pub filter_anomalies_lem :
      (f : Filter) (anomalies : List (Anomaly F))
      → filter_anomalies f anomalies ≡ select (λ a. not (should_suppress f a)) anomalies
  unfolding filter_anomalies
  filter_anomalies_lem f [] = refl
  filter_anomalies_lem f (a ∷ anomalies) = elim (Bool-cases (should_suppress f a)) [
    | inl e ↦ rw e (filter_anomalies_lem f anomalies)
    | inr e ↦ rw e (ap (λ (xs : List (Anomaly F)). a ∷ xs) (filter_anomalies_lem f anomalies))
  ]
