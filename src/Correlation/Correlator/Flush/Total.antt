-- ===== src/Correlation/Correlator/Flush/Total.antt =====
-- controller/internal/correlation/correlator.go: `Flush` does not panic on groups that `Add` made,
-- and what it raises for them.
use anomaly_detection.Prelude.{
  ℕ, ◌<◌, ◌≡◌, refl, ap, ◌∙◌, String, Option, some, List, [], ◌∷◌, ◌++◌, length, All, map, select,
  not, arith, Bool-cases, inl, inr,
}
use anomaly_detection.Labels.{Labels, contains}
use anomaly_detection.Detection.{Anomaly}
use anomaly_detection.Enrichment.Identity.{Identity}
use anomaly_detection.Correlation.Correlator.{
  Group, CorrelatedAlert, pod_alert, first_labels, pod_alert_of, build_pod_alert,
}
use anomaly_detection.Correlation.Correlator.Pending.{
  IsKeyed, ready_groups, still_pending, ready_groups_split,
}
use anomaly_detection.Correlation.Correlator.Patterns.{member_of, detect_workload_patterns}
use anomaly_detection.Correlation.Correlator.Patterns.Counted.{IsSettled}
use anomaly_detection.Correlation.Correlator.Patterns.Absorbed.{IsAbsorbed}
use anomaly_detection.Correlation.Correlator.Patterns.Promotion.{
  IsFilled, IsPattern, detect_workload_patterns_total,
}
use anomaly_detection.Correlation.Correlator.Finalize.{DedupStore, fingerprint, finalize}
use anomaly_detection.Correlation.Correlator.Flush.{
  Correlator, pod_alerts, join_alerts, raise_with, raised, flush,
}

module _ {F : Type 0} where
  All-IsFilled : (es : List (String × Group F)) → All IsKeyed es → All IsFilled es
  All-IsFilled [] h = tt
  All-IsFilled (e ∷ es) h = (h.0.0, All-IsFilled es h.1)

  -- the anomalies of the groups whose keys are not suppressed, group by group
  abbrev pub left_over : List String → List (String × Group F) → List (List (Anomaly F))
  left_over suppressed groups =
      map (λ e. e.1.anomalies) (select (λ e. not (contains suppressed e.0)) groups)

  module _ {E : Type 0} where
    build_some :
        (g : Group F) (found : List (Anomaly F))
        → g.anomalies ≡ found
        → 0 < length found
        → (l : Labels) × (build_pod_alert {E = E} g ≡ some (pod_alert_of g.anomalies l))
    unfolding build_pod_alert first_labels
    build_some g [] e p = absurd (omega arith)
    build_some g (a ∷ rest) e p = (a.labels, rw e refl)

    -- an alert for one pod
    abbrev pub IsPodAlert : CorrelatedAlert F E → Type 0
    IsPodAlert a = (a.kind ≡ pod_alert) × (0 < length a.anomalies)

    pod_alerts_total :
        (suppressed : List String) (groups : List (String × Group F))
        → All IsFilled groups
        → (alerts : List (CorrelatedAlert F E)) × (pod_alerts suppressed groups ≡ some alerts)
          × All IsPodAlert alerts
          × (map (λ a. a.anomalies) alerts ≡ left_over suppressed groups)
    unfolding pod_alerts pod_alert_of
    pod_alerts_total suppressed [] h = ([], refl, tt, refl)
    pod_alerts_total suppressed ((key, g) ∷ groups) h =
        let (alerts, done, fine, count) = pod_alerts_total suppressed groups h.1 in
        elim (Bool-cases (contains suppressed key)) [
          | inl e ↦ rw e (alerts, done, fine, count)
          | inr e ↦
              let (l, made) = build_some g g.anomalies refl h.0 in
              rw (e, made, done)
                (
                  pod_alert_of g.anomalies l ∷ alerts,
                  refl,
                  ((refl, h.0), fine),
                  ap (λ rest. g.anomalies ∷ rest) count,
                )
        ]

    -- What `Flush` raises on well-keyed groups, before deduplication: the alerts for workloads, each
    -- with at least the minimum of affected pods, before the pod alerts, which are one for each group
    -- that is not absorbed, in order and with its anomalies. A key is absorbed only if it is that of
    -- a group for whose workload one of the alerts is, and that alert lists the pod of the group; and
    -- the key of a group that takes part in patterns is absorbed unless the groups hold fewer distinct
    -- pods of its workload than the minimum. No panic occurs.
    pub raised_covers :
        (min_pods : ℕ) (groups : List (String × Group F))
        → All IsKeyed groups
        → (wls : List (CorrelatedAlert F E)) × (absorbed : List String) × (pods : List
            (CorrelatedAlert F E))
          × (detect_workload_patterns min_pods groups ≡ some (wls, absorbed))
          × (raised min_pods groups ≡ some (wls ++ pods))
          × All (IsPattern min_pods) wls
          × All IsPodAlert pods
          × All (IsAbsorbed groups wls) absorbed
          × All (λ e. IsSettled min_pods groups absorbed e.0 (member_of e.1.anomalies)) groups
          × (map (λ a. a.anomalies) pods ≡ left_over absorbed groups)
    unfolding raised raise_with
    raised_covers min_pods groups h =
        let filled = All-IsFilled groups h in
        let (found, searched, fine, taken, settled) =
          detect_workload_patterns_total {E = E} min_pods groups filled in
        let (pods, done, single, count) = pod_alerts_total found.1 groups filled in
        (
          found.0,
          found.1,
          pods,
          searched,
          ap (λ o. raise_with {E = E} o groups) searched ∙ ap (join_alerts found.0) done,
          fine,
          single,
          taken,
          settled,
          count,
        )

    -- On well-keyed pending groups `Flush` does not panic, and leaves the groups whose window has not
    -- passed, well keyed.
    pub flush_total :
        {D : Type 0} (store : DedupStore D) (marshal : Labels → String) (digest : String → String)
        (enricher : Option (Identity → E)) (now : ℕ) (c : Correlator F D)
        → All IsKeyed c.pending
        → (out : List (CorrelatedAlert F E)) × (c' : Correlator F D) × (flush store marshal digest
              enricher now c
            ≡ some (out, c'))
          × (c'.pending ≡ still_pending c.window now c.pending)
          × All IsKeyed c'.pending
    unfolding flush
    flush_total store marshal digest enricher now c h =
        let split = ready_groups_split c.window now c.pending h in
        let (wls, absorbed, pods, searched, up, patterns, singles, taken, settled, count) =
          raised_covers c.workload_min_pods (ready_groups c.window now c.pending) split.0 in
        let done =
          finalize store (fingerprint marshal digest) enricher c.cooldown now (wls ++ pods)
            c.dedup in
        rw (up, flush)
          (
            done.0,
            record c { dedup = done.1; pending = still_pending c.window now c.pending },
            refl,
            refl,
            split.1,
          )
