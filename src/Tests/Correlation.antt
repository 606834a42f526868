-- ===== src/Tests/Correlation.antt =====
-- The theorems on the correlator, the cycle and the alerts, for replicas of one deployment.
use Prim.Native.String.{◌++◌}
use anomaly_detection.Prelude.{
  map, ℕ, ◌+◌, ◌≤◌, ◌<◌, ◌≡◌, ◌↔◌, refl, String, Bool, true, false, Option, none, some, List, [],
  ◌∷◌, ◌++◌ as append, ◌==◌, All, arith, if◌then◌else◌,
}
use anomaly_detection.Float64.Nano.{Nano, nano}
use anomaly_detection.Labels.{Labels, get, lookup, insert}
use anomaly_detection.Detection.{Anomaly}
use anomaly_detection.Enrichment.Identity.{Identity}
use anomaly_detection.Correlation.Workload.{
  is_suffix, is_rs_hash, is_number, is_name, every, deployment_pattern, stateful_set_pattern,
  daemon_set_pattern, extract_workload,
}
use anomaly_detection.Correlation.Workload.Patterns.{
  Replica, Tailed, pattern_iff, extract_workload-Replica,
}
use anomaly_detection.Correlation.Correlator.{
  pod_alert, kind_text, Group, CorrelatedAlert, workload_key, cluster_or_unknown,
}
use anomaly_detection.Correlation.Correlator.Pending.{
  add, ready_groups, still_pending, waiting, IsKeyed, add_keeps, ready_groups_split,
}
use anomaly_detection.Correlation.Correlator.Patterns.{member_of, detect_workload_patterns}
use anomaly_detection.Correlation.Correlator.Patterns.Counted.{IsSettled}
use anomaly_detection.Correlation.Correlator.Patterns.Promotion.{IsPattern}
use anomaly_detection.Correlation.Correlator.Patterns.Absorbed.{IsAbsorbed}
use anomaly_detection.Correlation.Correlator.Flush.{Correlator, raised, flush}
use anomaly_detection.Correlation.Correlator.Flush.Total.{
  IsPodAlert, left_over, raised_covers, flush_total,
}
use anomaly_detection.Correlation.Correlator.Finalize.{fingerprint, enrich, claim_key, finalize}
use anomaly_detection.Correlation.Correlator.Finalize.Cooldown.{
  sent, sent_later, first_out, finalize_cooldown,
}
use anomaly_detection.Alert.{QueryResult, Dispatcher, Formatter, outgoing_for}
use anomaly_detection.Alert.Bounded.{outgoing_for-Replica}
use anomaly_detection.Tests.Servers.{list_dedup, list_dedup-IsRemembering, digest_of}
use anomaly_detection.Tests.Fdr.{anomaly_of}

abbrev labels_of : String → Labels
labels_of pod = ("namespace", "shop") ∷ ("pod", pod) ∷ []

abbrev first_pod : String
first_pod = "api-7d9f8b6c5d-abc12"

abbrev second_pod : String
second_pod = "api-7d9f8b6c5d-xyz34"

abbrev pub one : Anomaly Nano
one = anomaly_of "adaptive" (labels_of first_pod) 90 9

abbrev pub two : Anomaly Nano
two = anomaly_of "static" (labels_of second_pod) 50 1

abbrev key_of_first : String
key_of_first = "unknown/shop/api-7d9f8b6c5d-abc12"

abbrev key_of_second : String
key_of_second = "unknown/shop/api-7d9f8b6c5d-xyz34"

abbrev pending : List (String × Group Nano)
pending =
    (key_of_first, record { anomalies = one ∷ []; first_seen = 0 })
    ∷ (key_of_second, record { anomalies = two ∷ []; first_seen = 50 })
    ∷ []

pub keyed : All IsKeyed pending
unfolding workload_key cluster_or_unknown get lookup
keyed = ((omega arith, (refl, tt)), ((omega arith, (refl, tt)), tt))

replica : Replica first_pod "api"
unfolding is_suffix is_rs_hash is_name every
replica = ("api-7d9f8b6c5d", "abc12", refl, refl, ("7d9f8b6c5d", refl, refl, refl))

pattern_iff_example :
    ((deployment_pattern first_pod ≡ some "api") ↔ Replica first_pod "api")
    × ((stateful_set_pattern first_pod ≡ some "api") ↔ Tailed is_number first_pod "api")
    × ((daemon_set_pattern first_pod ≡ some "api") ↔ Tailed is_suffix first_pod "api")
pattern_iff_example = pattern_iff first_pod "api"

extract_workload-Replica_example : extract_workload first_pod ≡ "api"
extract_workload-Replica_example = extract_workload-Replica first_pod "api" replica

add_keeps_example :
    All IsKeyed (add two 60 pending)
    × ((q : Anomaly Nano → Bool)
        → waiting q (add two 60 pending) ≡ waiting q pending + (if q two then 1 else 0))
add_keeps_example = add_keeps two 60 pending keyed

ready_groups_split_example :
    let ready = ready_groups 100 120 pending in
    let rest = still_pending 100 120 pending in
    All IsKeyed ready
    × All IsKeyed rest
    × All (λ (e : String × Group Nano). e.1.first_seen + 100 ≤ 120) ready
    × All (λ (e : String × Group Nano). 120 < e.1.first_seen + 100) rest
    × ((q : Anomaly Nano → Bool) → waiting q ready + waiting q rest ≡ waiting q pending)
ready_groups_split_example = ready_groups_split 100 120 pending keyed

raised_covers_example :
    (wls : List (CorrelatedAlert Nano String)) × (absorbed : List String) × (pods : List
      (CorrelatedAlert Nano String))
    × (detect_workload_patterns 2 pending ≡ some (wls, absorbed))
    × (raised 2 pending ≡ some (append wls pods))
    × All (IsPattern 2) wls
    × All IsPodAlert pods
    × All (IsAbsorbed pending wls) absorbed
    × All (λ e. IsSettled 2 pending absorbed e.0 (member_of e.1.anomalies)) pending
    × (map (λ a. a.anomalies) pods ≡ left_over absorbed pending)
raised_covers_example = raised_covers 2 pending keyed

abbrev pub correlator : Correlator Nano (List (String × ℕ))
correlator = record {
  dedup = [];
  window = 100;
  cooldown = 300;
  workload_min_pods = 2;
  pending = pending;
}

abbrev pub print_labels : Labels → String
print_labels [] = ""
print_labels ((k, v) ∷ labels) = v ++ ("," ++ print_labels labels)

abbrev pub enricher : Option (Identity → String)
enricher = some (λ i. i.pod)

flush_total_example :
    (out : List (CorrelatedAlert Nano String)) × (c' : Correlator Nano (List (String × ℕ))) × (flush
        list_dedup print_labels digest_of enricher 120 correlator
      ≡ some (out, c'))
    × (c'.pending ≡ still_pending 100 120 pending)
    × All IsKeyed c'.pending
flush_total_example = flush_total list_dedup print_labels digest_of enricher 120 correlator keyed

abbrev formatter : Formatter Nano
formatter = record {
  decimal = λ p x. "x";
  general = λ x. "x";
  int_text = λ n. "n";
  quote = λ s. s;
  encode = λ m. "q";
}

abbrev dispatcher : Dispatcher
dispatcher = record {
  cluster = "main";
  links = some (record {
    grafana_base_url = "https://g/";
    tempo_base_url = "";
    loki_base_url = "https://g";
    runbook_base_url = "https://docs";
    grafana_prom_datasource_uid = "vm";
    grafana_tempo_datasource_uid = "tempo";
    grafana_loki_datasource_uid = "loki";
  });
}

abbrev alert : CorrelatedAlert Nano (List (QueryResult Nano))
alert = record {
  kind = pod_alert;
  anomalies = one ∷ [];
  severity = "critical";
  cluster = "unknown";
  namespace = "shop";
  workload = first_pod;
  signals = "metrics" ∷ [];
  enrichment = some (record { name = "restarts"; value = nano.lit 3 1; error = "" } ∷ []);
  ml_detection = some (record {
    is_anomaly = true;
    score = one.score;
    contributors = "cpu" ∷ [];
    feature_count = 1;
  });
  affected_pods = [];
  affected_replicas = 0;
}

pod_present : (get one.labels "pod" == "") ≡ false
unfolding get lookup
pod_present = refl

pod-Replica : Replica (get one.labels "pod") "api"
unfolding get lookup
pod-Replica = replica

outgoing_for-Replica_example :
    get (outgoing_for formatter dispatcher alert one).labels "workload" ≡ "api"
outgoing_for-Replica_example =
    outgoing_for-Replica formatter dispatcher alert one "api" refl pod_present refl pod-Replica

-- the same alert without its context
abbrev plain : CorrelatedAlert Nano String
plain = record {
  kind = pod_alert;
  anomalies = one ∷ [];
  severity = "critical";
  cluster = "unknown";
  namespace = "shop";
  workload = first_pod;
  signals = "metrics" ∷ [];
  enrichment = none;
  ml_detection = none;
  affected_pods = [];
  affected_replicas = 0;
}

abbrev dedup_key : String
dedup_key = "alert:dedup:pod,unknown,shop,api-7d9f8b6c5d-abc12,critical,"

abbrev twice : List (CorrelatedAlert Nano String)
twice = plain ∷ plain ∷ []

-- two later calls within the cooldown
abbrev later_calls : List (ℕ × List (CorrelatedAlert Nano String))
later_calls = (130, twice) ∷ (419, twice) ∷ []

sent_once :
    0
    < sent print_labels digest_of enricher dedup_key
        (first_out print_labels digest_of enricher list_dedup list_dedup-IsRemembering 300 120 twice
          []).0
unfolding finalize claim_key fingerprint enrich lookup insert kind_text
sent_once = omega arith

finalize_cooldown_example :
    let first =
      first_out print_labels digest_of enricher list_dedup list_dedup-IsRemembering 300 120 twice
        [] in
    (sent print_labels digest_of enricher dedup_key first.0 ≡ 1)
    × (sent_later print_labels digest_of enricher list_dedup list_dedup-IsRemembering 300 120
          dedup_key later_calls first.1
        ≡ 0)
finalize_cooldown_example =
    finalize_cooldown print_labels digest_of enricher list_dedup list_dedup-IsRemembering 300 120
      dedup_key twice later_calls [] sent_once (omega arith, (omega arith, tt)) (omega arith)
