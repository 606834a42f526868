-- ===== src/Alert.antt =====
-- controller/internal/alert/dispatcher.go: the labels and annotations of the alerts for the
-- Alertmanager. fmt and strconv are parameters: `decimal p x` is FormatFloat(x, 'f', p, 64), and
-- `int_text` is strconv.Itoa. Logs and the HTTP request are left out.
pub mod Bounded
use Prim.Native.String.{◌++◌}
use anomaly_detection.Prelude.{
  ℕ, String, Bool, true, false, Option, none, some, List, [], ◌∷◌, ◌++◌ as append, ◌==◌,
  if◌then◌else◌,
}
use anomaly_detection.Labels.{Labels, get, insert}
use anomaly_detection.Detection.{Anomaly}
use anomaly_detection.Links.{Links, join_with, grafana, tempo, loki, runbook}
use anomaly_detection.Baseline.Keys.{sort_strings}
use anomaly_detection.Correlation.Workload.{extract_workload}
use anomaly_detection.Correlation.Correlator.{
  AlertKind, pod_alert, workload_alert, kind_text, CorrelatedAlert, MlDetection,
}

-- one result of the enrichment queries; `error` is empty where the query succeeded
pub record QueryResult (F : Type 0) : Type 0 where
  pub name : String
  pub value : F
  pub error : String

-- the struct `alertmanagerAlert`, without its times and its address
pub record OutgoingAlert : Type 0 where
  pub labels : Labels
  pub annotations : Labels

-- `clusterFor`
unfoldable pub cluster_for : String → Labels → String
cluster_for own labels = let c = get labels "cluster" in if c == "" then own else c

-- the identity of a pod alert from the labels, with the alert's workload as the last resort
unfoldable pub pod_identity : Labels → String → String
pod_identity labels workload =
    let pod = get labels "pod" in
    let service = get labels "service_name" in
    if pod == "" then (if service == "" then workload else service) else pod

unfoldable pub pod_workload : Labels → String → String
pod_workload labels workload =
    let pod = get labels "pod" in
    let w = extract_workload pod in
    let service = get labels "service_name" in
    if pod == "" then (if service == "" then workload else service) else if w == "" then pod else w

module _ {F E : Type 0} where
  unfoldable pub identity_of : CorrelatedAlert F E → Anomaly F → String
  unfolding pod_identity
  identity_of ca rep = elim ca.kind [
    | workload_alert ↦ ca.workload
    | pod_alert ↦ pod_identity rep.labels ca.workload
  ]

  -- `amWorkloadLabel`
  unfoldable pub am_workload_label : CorrelatedAlert F E → Anomaly F → String
  unfolding pod_workload
  am_workload_label ca rep = elim ca.kind [
    | workload_alert ↦ ca.workload
    | pod_alert ↦ pod_workload rep.labels ca.workload
  ]

-- fmt and strconv on floating-point numbers: FormatFloat(x, 'f', p, 64), "%.1f" and "%.4g", and Itoa;
-- with "%q" and the Encode of net/url for the links
pub record Formatter (F : Type 0) : Type 0 where
  pub decimal : ℕ → F → String
  pub general : F → String
  pub int_text : ℕ → String
  pub quote : String → String
  pub encode : Labels → String

-- the struct without its HTTP client, its address and the switch of the dry run
pub record Dispatcher : Type 0 where
  pub cluster : String
  pub links : Option Links

module _ {F : Type 0} (fmt : Formatter F) where
  unfoldable pub simple_reason : Anomaly F → String
  simple_reason a =
      if a.detector == "static"
      then a.metric_name ++ (" breached threshold (current " ++ (fmt.general a.value ++ ")"))
      else if a.detector == "adaptive"
      then a.metric_name
        ++ (" spiked "
            ++ (fmt.decimal 1 a.score
                ++ ("σ (current "
                    ++ (fmt.general a.value ++ (" vs baseline " ++ (fmt.general a.mean ++ ")"))))))
      else if a.detector == "ml_isolation_forest"
      then "multivariate anomaly (score " ++ (fmt.decimal 2 a.score ++ ")")
      else if a.detector == "pattern"
      then "event pattern: " ++ a.metric_name
      else if a.metric_name == ""
      then "anomaly detected"
      else a.metric_name

  unfoldable pub build_reason : {E : Type 0} → CorrelatedAlert F E → Anomaly F → String
  build_reason ca rep = elim ca.kind [
    | workload_alert ↦
        "workload pattern: "
        ++ (rep.metric_name
            ++ (" anomalous on "
                ++ (fmt.int_text ca.affected_replicas
                    ++ (" replicas ("
                        ++ (rep.detector ++ (", z=" ++ (fmt.decimal 1 rep.score ++ "σ)")))))))
    | pod_alert ↦ simple_reason rep
  ]

  -- m["pod"] = pod, if there is one
  abbrev note_pod : String → Labels → Labels
  note_pod pod m = if pod == "" then m else insert "pod" pod m

  -- m[name] = u, if there is a link
  abbrev note_link : String → String → Labels → Labels
  note_link name u m = if u == "" then m else insert name u m

  -- the links, of a dispatcher that has a builder of links
  unfoldable pub note_links : Option Links → Anomaly F → Labels → Labels
  note_links none a m = m
  note_links (some cfg) a m = note_link "runbook_url" (runbook cfg a.detector) (
      note_link "loki_url" (loki fmt.quote fmt.encode fmt.int_text cfg a) (
        note_link "tempo_url" (tempo fmt.quote fmt.encode fmt.int_text cfg a)
          (note_link "grafana_url" (grafana fmt.quote fmt.encode fmt.int_text cfg a) m)))

  -- `buildAlert`
  unfoldable pub build_alert :
      Dispatcher → Anomaly F → AlertKind → String → String → String → OutgoingAlert
  unfolding kind_text cluster_for insert note_links
  build_alert d a kind identity workload_label reason =
      let ns = get a.labels "namespace" in
      record {
        labels =
            ("alertname", "AnomalyDetected")
            ∷ ("severity", a.severity)
            ∷ ("cluster", cluster_for d.cluster a.labels)
            ∷ ("namespace", ns)
            ∷ ("workload", workload_label)
            ∷ ("kind", kind_text kind)
            ∷ ("signal", a.signal)
            ∷ ("detector", a.detector)
            ∷ [];
        annotations = note_links d.links a (
            note_pod (get a.labels "pod") (
              (
                "summary",
                "[" ++ (a.severity ++ ("] " ++ (ns ++ ("/" ++ (identity ++ (" — " ++ reason)))))),
              )
              ∷ ("reason", reason)
              ∷ ("metric", a.metric_name)
              ∷ ("current_value", fmt.decimal 4 a.value)
              ∷ ("baseline_mean", fmt.decimal 4 a.mean)
              ∷ ("baseline_stddev", fmt.decimal 4 a.stddev)
              ∷ ("anomaly_score", fmt.decimal 2 a.score)
              ∷ ("identity", identity)
              ∷ []));
      }

  -- the loop over the enrichment results: the annotations, and the parts of the context
  unfoldable pub attach_results : List (QueryResult F) → Labels → List String → Labels × List String
  attach_results [] m parts = (m, parts)
  attach_results (r ∷ results) m parts =
      let val = fmt.decimal 4 r.value in
      let key = "enrich_" ++ r.name in
      attach_results results (insert key (if r.error == "" then val else "error: " ++ r.error) m)
        (if r.error == "" then append parts ((r.name ++ ("=" ++ val)) ∷ []) else parts)

  unfoldable pub attach_enrichment : List (QueryResult F) → OutgoingAlert → OutgoingAlert
  unfolding attach_results
  attach_enrichment [] a = a
  attach_enrichment (r ∷ results) a =
      let (m, parts) = attach_results (r ∷ results) a.annotations [] in
      record {
        labels = insert "enriched" "true" a.labels;
        annotations = insert "context" (join_with " | " (sort_strings parts)) m;
      }

  unfoldable pub attach_ml : Option (MlDetection F) → OutgoingAlert → OutgoingAlert
  attach_ml none a = a
  attach_ml (some det) a =
      let m =
        insert "ml_features" (fmt.int_text det.feature_count)
          (insert "ml_score" (fmt.decimal 4 det.score) a.annotations) in
      if det.is_anomaly
      then record {
        labels = insert "ml_confirmed" "true" a.labels;
        annotations = insert "ml_contributors" (join_with "," det.contributors) m;
      }
      else record a { annotations = m }

  module _ (d : Dispatcher) where
    unfoldable pub attach_workload_fields :
        {E : Type 0} → CorrelatedAlert F E → OutgoingAlert → OutgoingAlert
    attach_workload_fields ca a = elim ca.kind [
      | pod_alert ↦ a
      | workload_alert ↦ record {
        labels = insert "workload_pattern" "true" a.labels;
        annotations =
            insert "affected_pods" (join_with "," ca.affected_pods)
              (insert "affected_replicas" (fmt.int_text ca.affected_replicas) a.annotations);
      }
    ]

    -- the results of the bundle; an alert that was not enriched has none
    abbrev pub results_of : Option (List (QueryResult F)) → List (QueryResult F)
    results_of none = []
    results_of (some rs) = rs

    -- the alert that `FireCorrelated` sends for a representative anomaly
    unfoldable pub outgoing_for :
        CorrelatedAlert F (List (QueryResult F)) → Anomaly F → OutgoingAlert
    unfolding build_reason simple_reason identity_of am_workload_label
    outgoing_for ca first =
        let rep = record first { severity = ca.severity } in
        attach_workload_fields ca (
          attach_ml ca.ml_detection (
            attach_enrichment (results_of ca.enrichment) (
              build_alert d rep ca.kind (identity_of ca rep) (am_workload_label ca rep)
                (build_reason ca rep))))

    -- `FireCorrelated` up to the request; an alert without anomalies is not sent
    unfoldable pub fire_correlated : CorrelatedAlert F (List (QueryResult F)) → Option OutgoingAlert
    unfolding outgoing_for
    fire_correlated ca = elim ca.anomalies [ [] ↦ none | first ∷ _ ↦ some (outgoing_for ca first) ]
