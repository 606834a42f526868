-- ===== src/Correlation/Correlator/Patterns.antt =====
-- controller/internal/correlation/correlator.go: `detectWorkloadPatterns`. The groups and the
-- accumulators are taken in the order of their lists, one of the orders in which Go may range over
-- its maps.
pub mod Absorbed
pub mod Counted
pub mod Promotion
use Prim.Native.String.{◌++◌}
use anomaly_detection.Prelude.{
  ℕ, ◌≤◌, ◌≡◌, refl, String, Bool, true, false, not, ◌&&◌, ◌||◌, Option, none, some, List, [], ◌∷◌,
  ◌++◌ as append, ◌==◌, length, All, leb, arith, Bool-cases, inl, inr, if◌then◌else◌,
}
use anomaly_detection.Labels.{Labels, get, lookup, insert, contains}
use anomaly_detection.Detection.{Anomaly}
use anomaly_detection.Baseline.Keys.{sort_strings}
use anomaly_detection.Correlation.Workload.{extract_workload}
use anomaly_detection.Correlation.Correlator.{
  Group, CorrelatedAlert, workload_alert, cluster_or_unknown, extract_workload_from_key, add_to_set,
  max_severity, signal_set,
}

-- the struct `wlAccumulator`
pub record WlAccumulator (F : Type 0) : Type 0 where
  pub anomalies : List (Anomaly F)
  pub pods : List String
  pub pod_keys : List String
  pub cluster : String
  pub namespace : String

-- what a group that may take part in a pattern contributes
pub record Member : Type 0 where
  pub wl_key : String
  pub pod : String
  pub cluster : String
  pub namespace : String

unfoldable pub member_by_labels : Labels → Option Member
unfolding cluster_or_unknown
member_by_labels labels =
    let ns = get labels "namespace" in
    let pod = get labels "pod" in
    let workload = extract_workload pod in
    let cluster = cluster_or_unknown labels in
    if ns == "" || pod == ""
    then none
    else if workload == pod
    then none
    else some (record {
      wl_key = cluster ++ ("/" ++ (ns ++ ("/" ++ workload)));
      pod = pod;
      cluster = cluster;
      namespace = ns;
    })

module _ {F : Type 0} where
  -- the `continue`s of the loop are `none`
  unfoldable pub member_of : List (Anomaly F) → Option Member
  unfolding member_by_labels
  member_of [] = none
  member_of (first ∷ rest) = member_by_labels first.labels

  -- wls[wlKey], or the accumulator made for it
  abbrev pub accumulator : Option (WlAccumulator F) → Member → WlAccumulator F
  accumulator none m = record {
    anomalies = [];
    pods = [];
    pod_keys = [];
    cluster = m.cluster;
    namespace = m.namespace;
  }
  accumulator (some acc) m = acc

  abbrev pub enlarged : WlAccumulator F → Member → String → List (Anomaly F) → WlAccumulator F
  enlarged acc m pod_key anomalies = record acc {
    anomalies = append acc.anomalies anomalies;
    pods = add_to_set m.pod acc.pods;
    pod_keys = append acc.pod_keys (pod_key ∷ []);
  }

  -- one round of the first loop
  unfoldable pub absorb :
      String
      → List (Anomaly F)
      → Option Member
      → List (String × WlAccumulator F)
      → List (String × WlAccumulator F)
  unfolding insert lookup contains
  absorb pod_key anomalies none wls = wls
  absorb pod_key anomalies (some m) wls =
      insert m.wl_key (enlarged (accumulator (lookup m.wl_key wls) m) m pod_key anomalies) wls

  unfoldable pub accumulate :
      List (String × Group F) → List (String × WlAccumulator F) → List (String × WlAccumulator F)
  accumulate [] wls = wls
  accumulate ((pod_key, g) ∷ groups) wls =
      accumulate groups (absorb pod_key g.anomalies (member_of g.anomalies) wls)

  module _ {E : Type 0} where
    -- the alert for a workload, with the representative anomaly
    unfoldable pub workload_alert_of : String → WlAccumulator F → Anomaly F → CorrelatedAlert F E
    workload_alert_of wl_key acc rep =
        let workload = extract_workload_from_key wl_key in
        let labels = insert "pod" "" (insert "workload" workload rep.labels) in
        let pods = sort_strings acc.pods in
        record {
          kind = workload_alert;
          anomalies = record rep { labels = labels } ∷ [];
          severity = max_severity acc.anomalies;
          cluster = acc.cluster;
          namespace = acc.namespace;
          workload = workload;
          signals = sort_strings (signal_set acc.anomalies);
          enrichment = none;
          ml_detection = none;
          affected_pods = pods;
          affected_replicas = length pods;
        }

    -- the promotion; the index acc.anomalies[0] panics on an accumulator without anomalies, `none`
    unfoldable pub promote : String → WlAccumulator F → Option (CorrelatedAlert F E)
    unfolding workload_alert_of
    promote wl_key acc = elim acc.anomalies [
      | [] ↦ none
      | rep ∷ _ ↦ some (workload_alert_of wl_key acc rep)
    ]

    -- the second loop: the alerts and the suppressed keys, or the panic
    unfoldable pub promote_all :
        ℕ → List (String × WlAccumulator F) → Option (List (CorrelatedAlert F E) × List String)
    promote_all min_pods [] = some ([], [])
    promote_all min_pods ((wl_key, acc) ∷ wls) =
        let rest = promote_all min_pods wls in
        if leb min_pods (length acc.pods)
        then elim (promote wl_key acc) [
          | none ↦ none
          | some alert ↦ elim rest [
            | none ↦ none
            | some r ↦ some (alert ∷ r.0, append acc.pod_keys r.1)
          ]
        ]
        else rest

    -- `detectWorkloadPatterns`
    unfoldable pub detect_workload_patterns :
        ℕ → List (String × Group F) → Option (List (CorrelatedAlert F E) × List String)
    detect_workload_patterns min_pods groups = promote_all min_pods (accumulate groups [])
