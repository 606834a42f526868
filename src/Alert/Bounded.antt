-- ===== src/Alert/Bounded.antt =====
-- controller/internal/alert/dispatcher.go: the labels of an outgoing alert.
use anomaly_detection.Prelude.{
  ◌≡◌, refl, ap, ◌∙◌, String, false, Option, none, some, List, [], ◌∷◌, ◌==◌, Bool-cases, inl, inr,
  if◌then◌else◌,
}
use anomaly_detection.Labels.{Labels, lookup, get, insert, get-insert}
use anomaly_detection.Detection.{Anomaly}
use anomaly_detection.Correlation.Correlator.{
  AlertKind, pod_alert, workload_alert, CorrelatedAlert, MlDetection,
}
use anomaly_detection.Alert.{
  QueryResult, OutgoingAlert, Dispatcher, Formatter, cluster_for, pod_workload, am_workload_label,
  build_alert, attach_enrichment, attach_ml, attach_workload_fields, outgoing_for, identity_of,
  build_reason, results_of,
}
use anomaly_detection.Correlation.Workload.{extract_workload}
use anomaly_detection.Correlation.Workload.Patterns.{Replica, extract_workload-Replica}

-- a label that none of the attachments sets
abbrev IsPlainLabel : String → Type 0
IsPlainLabel k =
    (("enriched" == k) ≡ false)
    × (("ml_confirmed" == k) ≡ false)
    × (("workload_pattern" == k) ≡ false)

kept : (j k v : String) (m : Labels) → (j == k) ≡ false → get (insert j v m) k ≡ get m k
kept j k v m h = get-insert j k v m ∙ ap (λ b. if b then v else get m k) h

module _ {F : Type 0} (fmt : Formatter F) where
  attach_enrichment-labels :
      (results : List (QueryResult F)) (a : OutgoingAlert) (k : String)
      → IsPlainLabel k
      → get (attach_enrichment fmt results a).labels k ≡ get a.labels k
  unfolding attach_enrichment
  attach_enrichment-labels [] a k h = refl
  attach_enrichment-labels (r ∷ results) a k h = kept "enriched" k "true" a.labels h.0

  attach_ml-labels :
      (det : Option (MlDetection F)) (a : OutgoingAlert) (k : String)
      → IsPlainLabel k
      → get (attach_ml fmt det a).labels k ≡ get a.labels k
  unfolding attach_ml
  attach_ml-labels none a k h = refl
  attach_ml-labels (some det) a k h = elim (Bool-cases det.is_anomaly) [
    | inl e ↦ rw e (kept "ml_confirmed" k "true" a.labels h.1)
    | inr e ↦ rw e refl
  ]

  module _ (d : Dispatcher) where
    attach_workload_fields-labels :
        {E : Type 0} (kind : AlertKind) (ca : CorrelatedAlert F E) (a : OutgoingAlert) (k : String)
        → ca.kind ≡ kind
        → IsPlainLabel k
        → get (attach_workload_fields fmt d ca a).labels k ≡ get a.labels k
    unfolding attach_workload_fields
    attach_workload_fields-labels pod_alert ca a k e h = rw e refl
    attach_workload_fields-labels workload_alert ca a k e h =
        rw e (kept "workload_pattern" k "true" a.labels h.2)

    -- the built alert of a correlated alert
    abbrev plain_alert : CorrelatedAlert F (List (QueryResult F)) → Anomaly F → OutgoingAlert
    plain_alert ca rep =
        build_alert fmt d rep ca.kind (identity_of ca rep) (am_workload_label ca rep)
          (build_reason fmt ca rep)

    plain_labels :
        (ca : CorrelatedAlert F (List (QueryResult F))) (rep : Anomaly F)
        → let labels = (plain_alert ca rep).labels in
          (get labels "severity" ≡ rep.severity)
          × (get labels "cluster" ≡ cluster_for d.cluster rep.labels)
          × (get labels "workload" ≡ am_workload_label ca rep)
    unfolding build_alert get lookup
    plain_labels ca rep = (refl, refl, refl)

    same_workload :
        (ca : CorrelatedAlert F (List (QueryResult F))) (first : Anomaly F)
        → am_workload_label ca (record first { severity = ca.severity })
          ≡ am_workload_label ca first
    unfolding am_workload_label
    same_workload ca first = refl

    -- The alert sent for a correlated alert has the severity of the correlated alert, the cluster of
    -- its labels or else the controller's own, and the bounded workload label, whatever context, ML
    -- verdict and workload fields are attached.
    outgoing_for_labels :
        (ca : CorrelatedAlert F (List (QueryResult F))) (first : Anomaly F)
        → let labels = (outgoing_for fmt d ca first).labels in
          (get labels "severity" ≡ ca.severity)
          × (get labels "cluster" ≡ cluster_for d.cluster first.labels)
          × (get labels "workload" ≡ am_workload_label ca first)
    unfolding outgoing_for
    outgoing_for_labels ca first =
        let rep = record first { severity = ca.severity } in
        let built = plain_alert ca rep in
        let enriched = attach_enrichment fmt (results_of fmt d ca.enrichment) built in
        let judged = attach_ml fmt ca.ml_detection enriched in
        let through : (k : String)
            → IsPlainLabel k
            → get (outgoing_for fmt d ca first).labels k ≡ get built.labels k =
          λ k h.
            attach_workload_fields-labels ca.kind ca judged k refl h
            ∙ attach_ml-labels ca.ml_detection enriched k h
            ∙ attach_enrichment-labels (results_of fmt d ca.enrichment) built k h in
        let (severity, cluster, workload) = plain_labels ca rep in
        (
          through "severity" (refl, refl, refl) ∙ severity,
          through "cluster" (refl, refl, refl) ∙ cluster,
          through "workload" (refl, refl, refl) ∙ workload ∙ same_workload ca first,
        )

    replica_label :
        (ca : CorrelatedAlert F (List (QueryResult F))) (first : Anomaly F) (name : String)
        → ca.kind ≡ pod_alert
        → (get first.labels "pod" == "") ≡ false
        → (name == "") ≡ false
        → extract_workload (get first.labels "pod") ≡ name
        → am_workload_label ca first ≡ name
    unfolding am_workload_label pod_workload
    replica_label ca first name kind present named e = rw (kind, present, e, named) refl

    -- A pod alert for a pod that is a replica of a deployment is sent with the name of the deployment
    -- as its workload label, not with the name of the pod.
    pub outgoing_for-Replica :
        (ca : CorrelatedAlert F (List (QueryResult F))) (first : Anomaly F) (name : String)
        → ca.kind ≡ pod_alert
        → (get first.labels "pod" == "") ≡ false
        → (name == "") ≡ false
        → Replica (get first.labels "pod") name
        → get (outgoing_for fmt d ca first).labels "workload" ≡ name
    outgoing_for-Replica ca first name kind present named replica =
        (outgoing_for_labels ca first).2
        ∙ replica_label ca first name kind present named
            (extract_workload-Replica (get first.labels "pod") name replica)
