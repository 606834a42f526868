-- ===== src/Links.antt =====
-- controller/internal/alert/links.go: the links into Grafana, Tempo, Loki and the runbooks. The
-- parameters are `quote` for "%q", `encode` for url.Values.Encode and `int_text` for "%d".
use Prim.Native.Char.{code}
use Prim.Native.String.{◌++◌}
use anomaly_detection.Prelude.{
  ℕ, ◌+◌, ◌*◌, ◌-◌, ◌^◌, ◌/◌, String, not, ◌&&◌, ◌||◌, List, [], ◌∷◌, ◌++◌ as append, ◌==◌, nat_beq,
  ltb, if◌then◌else◌,
}
use anomaly_detection.Labels.{Labels, get}
use anomaly_detection.Detection.{Anomaly}

-- config.Links
pub record Links : Type 0 where
  pub grafana_base_url : String
  pub tempo_base_url : String
  pub loki_base_url : String
  pub runbook_base_url : String
  pub grafana_prom_datasource_uid : String
  pub grafana_tempo_datasource_uid : String
  pub grafana_loki_datasource_uid : String

-- strings.TrimRight(s, "/")
unfoldable pub trim_slashes : String → String
trim_slashes String.[] = ""
trim_slashes (String.◌∷◌ c s) =
    let rest = trim_slashes s in
    if nat_beq (code c) b'/' && rest == "" then "" else String.◌∷◌ c rest

-- strings.Join
unfoldable pub join_with : String → List String → String
join_with sep [] = ""
join_with sep (x ∷ xs) =
    let rest = join_with sep xs in elim xs [ [] ↦ x | _ ∷ _ ↦ x ++ (sep ++ rest) ]

-- name="value", if there is a value
abbrev pub filter_on : String → Labels → List String
filter_on name labels =
    let v = get labels name in if v == "" then [] else (name ++ ("=\"" ++ (v ++ "\""))) ∷ []

-- the filters, or others where there are none
abbrev pub or_else : List String → List String → List String
or_else [] others = others
or_else (f ∷ filters) others = f ∷ filters

-- the metric with its filters; without any, its name
abbrev pub selector : String → List String → String
selector metric [] = metric
selector metric (f ∷ filters) = metric ++ ("{" ++ (join_with "," (f ∷ filters) ++ "}"))

-- minutes in nanoseconds
abbrev minutes : ℕ → ℕ
minutes n = n * (60 * 10 ^ 9)

module _ {F : Type 0} where
  unfoldable pub build_prom_ql_expr : Anomaly F → String
  build_prom_ql_expr a =
      let near = append (filter_on "namespace" a.labels) (filter_on "pod" a.labels) in
      if a.metric_name == ""
      then "up"
      else selector a.metric_name (or_else near (filter_on "service_name" a.labels))

  unfoldable pub build_trace_ql : Anomaly F → String
  build_trace_ql a =
      let service = get a.labels "service_name" in
      let pod = get a.labels "pod" in
      if service == ""
      then (if pod == "" then "" else "{ resource.k8s.pod.name = \"" ++ (pod ++ "\" }"))
      else "{ resource.service.name = \"" ++ (service ++ "\" && status = error }")

  unfoldable pub build_log_ql : Anomaly F → String
  build_log_ql a =
      let ns = get a.labels "namespace" in
      let pod = get a.labels "pod" in
      let svc = get a.labels "service_name" in
      if not (ns == "") && not (pod == "")
      then "{k8s_namespace_name=\"" ++ (ns ++ ("\",k8s_pod_name=\"" ++ (pod ++ "\"}")))
      else if not (svc == "")
      then "{service_name=\"" ++ (svc ++ "\"}")
      else if not (ns == "")
      then "{k8s_namespace_name=\"" ++ (ns ++ "\"}")
      else ""

module _ (quote : String → String) (encode : Labels → String) (int_text : ℕ → String) where
  -- t.Add(-d).UnixMilli(), which rounds down, also before 1970
  unfoldable pub milli_before : ℕ → ℕ → String
  milli_before t d =
      if ltb t d
      then "-" ++ int_text (((d - t) + (10 ^ 6 - 1)) / 10 ^ 6)
      else int_text ((t - d) / 10 ^ 6)

  -- the pane of an Explore URL; `query` is the member of the query between refId and datasource
  unfoldable pub pane_of : String → String → String → ℕ → ℕ → String
  unfolding milli_before
  pane_of uid kind query t d =
      "{\"datasource\":\""
      ++ (uid
          ++ ("\",\"queries\":[{\"refId\":\"A\","
              ++ (query
                  ++ (",\"datasource\":{\"type\":\""
                      ++ (kind
                          ++ ("\",\"uid\":\""
                              ++ (uid
                                  ++ ("\"}}],\"range\":{\"from\":\""
                                      ++ (milli_before t d
                                          ++ ("\",\"to\":\""
                                              ++ (int_text ((t + d) / 10 ^ 6) ++ "\"}}")))))))))))

  unfoldable pub explore_url : String → String → String
  unfolding trim_slashes
  explore_url base pane =
      trim_slashes base
      ++ ("/explore?"
          ++ encode (
              ("panes", "{\"a\":" ++ (pane ++ "}")) ∷ ("schemaVersion", "1") ∷ ("orgId", "1") ∷ []))

  module _ {F : Type 0} where
    unfoldable pub grafana : Links → Anomaly F → String
    unfolding explore_url pane_of build_prom_ql_expr
    grafana cfg a =
        if cfg.grafana_base_url == ""
        then ""
        else explore_url cfg.grafana_base_url (
            pane_of cfg.grafana_prom_datasource_uid "prometheus"
              ("\"expr\":" ++ quote (build_prom_ql_expr a)) a.timestamp (minutes 15))

    unfoldable pub tempo : Links → Anomaly F → String
    unfolding explore_url pane_of build_trace_ql
    tempo cfg a =
        if cfg.tempo_base_url == "" || build_trace_ql a == ""
        then ""
        else explore_url cfg.tempo_base_url (
            pane_of cfg.grafana_tempo_datasource_uid "tempo"
              ("\"queryType\":\"traceql\",\"query\":" ++ quote (build_trace_ql a)) a.timestamp
              (minutes 15))

    unfoldable pub loki : Links → Anomaly F → String
    unfolding explore_url pane_of build_log_ql
    loki cfg a =
        if cfg.loki_base_url == "" || build_log_ql a == ""
        then ""
        else explore_url cfg.loki_base_url (
            pane_of cfg.grafana_loki_datasource_uid "loki" ("\"expr\":" ++ quote (build_log_ql a))
              a.timestamp (minutes 5))

unfoldable pub runbook : Links → String → String
unfolding trim_slashes
runbook cfg detector =
    if cfg.runbook_base_url == "" || detector == ""
    then ""
    else trim_slashes cfg.runbook_base_url ++ ("/" ++ detector)
