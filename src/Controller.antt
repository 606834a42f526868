-- ===== src/Controller.antt =====
-- controller/cmd/controller/main.go: one detection cycle of the controller. The workers' reply to
-- the batch, and the ML service, are parameters.
pub mod Cycle
use anomaly_detection.Prelude.{ℕ, String, List, [], ◌∷◌, ◌++◌, ◌==◌, if◌then◌else◌}
use anomaly_detection.Float64.{Float64}
use anomaly_detection.Detection.Static.{StaticRule}
use anomaly_detection.Config.{AdaptiveMetric, LogPattern, DetectionConfig}

-- The job types of the batch; `unknown_type` is any other number of the enumeration on the wire,
-- 0 for JOB_TYPE_UNSPECIFIED.
pub data JobType : Type 0 where
  metrics_static metrics_adaptive logs : JobType
  unknown_type : ℕ → JobType

-- pb.DetectionJob without its random identifier
pub record DetectionJob (F : Type 0) : Type 0 where
  pub job_type : JobType
  pub name : String
  pub query : String
  pub group_by : List String
  pub threshold : F
  pub operator : String
  pub severity : String

module _ {F : Type 0} ⦃fl : Float64 F⦄ where
  unfoldable pub static_jobs : List (StaticRule F) → List (DetectionJob F)
  static_jobs [] = []
  static_jobs (r ∷ rules) =
      record {
        job_type = metrics_static;
        name = r.name;
        query = r.query;
        group_by = [];
        threshold = r.threshold;
        operator = r.operator;
        severity = r.severity;
      }
      ∷ static_jobs rules

  -- a job with the zero values of the fields that only static rules set
  abbrev rate_job : JobType → String → String → List String → DetectionJob F
  rate_job type name query group_by = record {
    job_type = type;
    name = name;
    query = query;
    group_by = group_by;
    threshold = fl.lit 0 1;
    operator = "";
    severity = "";
  }

  unfoldable pub adaptive_jobs : List (AdaptiveMetric F) → List (DetectionJob F)
  adaptive_jobs [] = []
  adaptive_jobs (m ∷ rules) =
      rate_job metrics_adaptive m.name m.query m.group_by ∷ adaptive_jobs rules

  unfoldable pub log_jobs : List LogPattern → List (DetectionJob F)
  log_jobs [] = []
  log_jobs (p ∷ patterns) =
      let rest = log_jobs patterns in
      if p.pattern_type == "pattern_match"
      then rest
      else rate_job logs p.name p.query p.group_by ∷ rest

  -- `buildJobBatch`
  unfoldable pub build_job_batch : DetectionConfig F → List (DetectionJob F)
  unfolding static_jobs adaptive_jobs log_jobs
  build_job_batch d =
      static_jobs d.static_rules ++ (adaptive_jobs d.adaptive_metrics ++ log_jobs d.log_patterns)
