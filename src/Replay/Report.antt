-- ===== src/Replay/Report.antt =====
-- controller/internal/replay/report.go: the report of a replay. Times are nanoseconds since the
-- epoch; the JSON form is output only.
pub mod Build
pub mod Counts
pub mod Keys
use Prim.Native.String.{◌++◌}
use anomaly_detection.Prelude.{
  ℕ, suc, ◌*◌, ◌/◌, ◌^◌, String, Bool, Option, none, some, List, [], ◌∷◌, ◌&&◌, ◌==◌, length, ltb,
  leb, nat_beq, if◌then◌else◌, ◌++◌ as append,
}
use anomaly_detection.Labels.{get, lookup, insert}
use anomaly_detection.Detection.{Anomaly}

-- map[string]int
abbrev pub Counts : Type 0
Counts = List (String × ℕ)

abbrev pub or_zero : Option ℕ → ℕ
or_zero none = 0
or_zero (some n) = n

-- m[key]++
unfoldable pub bump : String → Counts → Counts
bump key m = insert key (suc (or_zero (lookup key m))) m

pub record TimelineEntry : Type 0 where
  pub hour : ℕ
  pub anomalies : ℕ
  pub by_severity : Counts

-- `max_anomalies` is 0 for no limit.
pub record ReportBuilder (F : Type 0) : Type 0 where
  pub anomalies : List (Anomaly F)
  pub max_anomalies : ℕ
  pub warmup_skipped : ℕ
  pub query_errors : ℕ
  pub fdr_rejected : ℕ
  pub floor_filtered : ℕ
  pub direction_filtered : ℕ
  pub timeline : List TimelineEntry
  pub workloads : Counts

unfoldable pub new_report_builder : {F : Type 0} → ℕ → ReportBuilder F
new_report_builder max = record {
  anomalies = [];
  max_anomalies = max;
  warmup_skipped = 0;
  query_errors = 0;
  fdr_rejected = 0;
  floor_filtered = 0;
  direction_filtered = 0;
  timeline = [];
  workloads = [];
}

-- t.Truncate(time.Hour)
unfoldable pub hour_of : ℕ → ℕ
hour_of t = t / (3600 * 10 ^ 9) * (3600 * 10 ^ 9)

unfoldable pub add_to_timeline : ℕ → String → List TimelineEntry → List TimelineEntry
add_to_timeline hour severity [] =
    record { hour = hour; anomalies = 1; by_severity = bump severity [] } ∷ []
add_to_timeline hour severity (e ∷ entries) =
    let rest = add_to_timeline hour severity entries in
    if nat_beq e.hour hour
    then record {
      hour = e.hour;
      anomalies = suc e.anomalies;
      by_severity = bump severity e.by_severity;
    }
      ∷ entries
    else e ∷ rest

module _ {F : Type 0} where
  unfoldable pub workload_name : Anomaly F → String
  workload_name a =
      let wl = get a.labels "workload" in
      let dep = get a.labels "deployment" in
      let sn = get a.labels "service_name" in
      if wl == ""
      then if dep == "" then if sn == "" then get a.labels "pod" else sn else dep
      else wl

  unfoldable pub anomaly_kind : Anomaly F → String
  anomaly_kind a = if get a.labels "pod" == "" then "workload" else "pod"

  -- the key of an anomaly in the map of the workloads
  unfoldable pub report_key : Anomaly F → String
  unfolding workload_name
  report_key a = get a.labels "namespace" ++ ("/" ++ workload_name a)

  -- `addAnomaly` below the limit
  unfoldable pub append_anomaly : ReportBuilder F → Anomaly F → ReportBuilder F
  append_anomaly b a = record b {
    anomalies = append b.anomalies (a ∷ []);
    timeline = add_to_timeline (hour_of a.timestamp) a.severity b.timeline;
    workloads = bump (report_key a) b.workloads;
  }

  unfoldable pub is_full : ReportBuilder F → Bool
  is_full b = ltb 0 b.max_anomalies && leb b.max_anomalies (length b.anomalies)

  -- `addAnomaly`
  unfoldable pub add_anomaly : ReportBuilder F → Anomaly F → ReportBuilder F
  unfolding append_anomaly is_full
  add_anomaly b a = if is_full b then b else append_anomaly b a

  -- addAnomaly on each anomaly in turn
  unfoldable pub add_anomalies : ReportBuilder F → List (Anomaly F) → ReportBuilder F
  unfolding add_anomaly
  add_anomalies b [] = b
  add_anomalies b (a ∷ anomalies) = add_anomalies (add_anomaly b a) anomalies
