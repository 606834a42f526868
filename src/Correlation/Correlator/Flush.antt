-- ===== src/Correlation/Correlator/Flush.antt =====
-- controller/internal/correlation/correlator.go: `NewCorrelator` and `Flush`.
pub mod Total
use anomaly_detection.Prelude.{
  ℕ, String, Bool, true, false, Option, none, some, List, [], ◌∷◌, ◌++◌, ltb, if◌then◌else◌,
}
use anomaly_detection.Labels.{Labels, contains}
use anomaly_detection.Enrichment.Identity.{Identity}
use anomaly_detection.Correlation.Correlator.{Group, CorrelatedAlert, build_pod_alert}
use anomaly_detection.Correlation.Correlator.Pending.{ready_groups, still_pending}
use anomaly_detection.Correlation.Correlator.Patterns.{detect_workload_patterns}
use anomaly_detection.Correlation.Correlator.Finalize.{DedupStore, fingerprint, finalize}

-- the fields of `Correlator` that `Flush` reads and changes
pub record Correlator (F D : Type 0) : Type 0 where
  pub dedup : D
  pub window : ℕ
  pub cooldown : ℕ
  pub workload_min_pods : ℕ
  pub pending : List (String × Group F)

-- `NewCorrelator`
unfoldable pub new_correlator : {F D : Type 0} → D → ℕ → ℕ → ℕ → Correlator F D
new_correlator dedup window cooldown workload_min_pods = record {
  dedup = dedup;
  window = window;
  cooldown = cooldown;
  workload_min_pods = if ltb workload_min_pods 2 then 3 else workload_min_pods;
  pending = [];
}

module _ {F E : Type 0} where
  -- the pod alerts of the groups that no pattern absorbed, or the panic
  unfoldable pub pod_alerts :
      List String → List (String × Group F) → Option (List (CorrelatedAlert F E))
  pod_alerts suppressed [] = some []
  pod_alerts suppressed ((key, g) ∷ groups) =
      let rest = pod_alerts suppressed groups in
      if contains suppressed key then rest else elim (build_pod_alert g) [
        | none ↦ none
        | some alert ↦ elim rest [ none ↦ none | some alerts ↦ some (alert ∷ alerts) ]
      ]

  -- append(alerts, workloadAlerts...) before the pod alerts
  unfoldable pub join_alerts :
      List (CorrelatedAlert F E)
      → Option (List (CorrelatedAlert F E))
      → Option (List (CorrelatedAlert F E))
  join_alerts wls none = none
  join_alerts wls (some pods) = some (wls ++ pods)

  unfoldable pub raise_with :
      Option (List (CorrelatedAlert F E) × List String)
      → List (String × Group F)
      → Option (List (CorrelatedAlert F E))
  unfolding join_alerts
  raise_with none groups = none
  raise_with (some found) groups = join_alerts found.0 (pod_alerts found.1 groups)

  -- the alerts before deduplication
  unfoldable pub raised : ℕ → List (String × Group F) → Option (List (CorrelatedAlert F E))
  unfolding raise_with
  raised min_pods groups = raise_with (detect_workload_patterns {E = E} min_pods groups) groups

  module _ {D : Type 0} (store : DedupStore D) (marshal : Labels → String)
      (digest : String → String) (enricher : Option (Identity → E)) where
    -- `Flush`; `none` is a panic
    unfoldable pub flush : ℕ → Correlator F D → Option (List (CorrelatedAlert F E) × Correlator F D)
    flush now c =
        let groups = ready_groups c.window now c.pending in
        elim (raised c.workload_min_pods groups) [
          | none ↦ none
          | some alerts ↦
              let (out, d) =
                finalize store (fingerprint marshal digest) enricher c.cooldown now alerts
                  c.dedup in
              some (out, record c { dedup = d; pending = still_pending c.window now c.pending })
        ]
