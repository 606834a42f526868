-- ===== src/Config/Defaults.antt =====
-- controller/internal/config/config.go: `setDefaults` on the settings that have a default. A zero
-- stands for a setting that is not given; numbers below zero stay as they are.
pub mod Settled
use anomaly_detection.Prelude.{
  ℕ, ◌*◌, ◌^◌, ◌<◌, ◌≡◌, refl, ap, ◌∙◌, String, Bool, true, false, ◌==◌, nat_beq, arith, Bool-cases,
  inl, inr, if◌then◌else◌,
}
use anomaly_detection.Prelude.Int.{ℤ, pos, negsuc}
use anomaly_detection.Float64.{Float64}

-- durations are nanoseconds
pub record Settings (F : Type 0) : Type 0 where
  pub cluster : String
  pub job_interval : ℤ
  pub correlation_window : ℤ
  pub cooldown : ℤ
  pub controller_metrics_port : ℤ
  pub workload_pattern_min_pods : ℤ
  pub lease_duration : ℤ
  pub renew_deadline : ℤ
  pub retry_period : ℤ
  pub lease_name : String
  pub lease_namespace : String
  pub grpc_port : ℤ
  pub worker_metrics_port : ℤ
  pub concurrency : ℤ
  pub window_size : ℤ
  pub ewma_alpha : F
  pub zscore_threshold : F
  pub warm_up_samples : ℤ
  pub seasonal_min_days : ℤ
  pub prometheus_timeout : ℤ
  pub loki_timeout : ℤ
  pub ml_timeout : ℤ
  pub cache_ttl : ℤ
  pub query_timeout : ℤ
  pub max_concurrent : ℤ

abbrev pub is_zero : ℤ → Bool
is_zero (pos n) = nat_beq n 0
is_zero (negsuc n) = false

-- if x == 0 { x = d }
unfoldable pub int_or : ℤ → ℤ → ℤ
int_or d x = if is_zero x then d else x

unfoldable pub text_or : String → String → String
text_or d x = if x == "" then d else x

abbrev pub seconds : ℕ → ℤ
seconds n = pos (n * 10 ^ 9)

module _ {F : Type 0} ⦃fl : Float64 F⦄ where
  unfoldable pub float_or : F → F → F
  float_or d x = if fl.eq x (fl.lit 0 1) then d else x

  -- `setDefaults` but for the lists of the suppression; `env` is os.Getenv("CLUSTER_NAME")
  unfoldable pub set_defaults : String → Settings F → Settings F
  unfolding int_or text_or float_or
  set_defaults env s = record {
    cluster = text_or (text_or "unknown" env) s.cluster;
    job_interval = int_or (seconds 30) s.job_interval;
    correlation_window = int_or (seconds 120) s.correlation_window;
    cooldown = int_or (seconds 300) s.cooldown;
    controller_metrics_port = int_or (pos 8080) s.controller_metrics_port;
    workload_pattern_min_pods = int_or (pos 3) s.workload_pattern_min_pods;
    lease_duration = int_or (seconds 15) s.lease_duration;
    renew_deadline = int_or (seconds 10) s.renew_deadline;
    retry_period = int_or (seconds 2) s.retry_period;
    lease_name = text_or "staffops-ad-controller" s.lease_name;
    lease_namespace = text_or "monitoring" s.lease_namespace;
    grpc_port = int_or (pos 50052) s.grpc_port;
    worker_metrics_port = int_or (pos 8081) s.worker_metrics_port;
    concurrency = int_or (pos 5) s.concurrency;
    window_size = int_or (pos 60) s.window_size;
    ewma_alpha = float_or (fl.lit 3 10) s.ewma_alpha;
    zscore_threshold = float_or (fl.lit 3 1) s.zscore_threshold;
    warm_up_samples = int_or (pos 60) s.warm_up_samples;
    seasonal_min_days = int_or (pos 7) s.seasonal_min_days;
    prometheus_timeout = int_or (seconds 10) s.prometheus_timeout;
    loki_timeout = int_or (seconds 15) s.loki_timeout;
    ml_timeout = int_or (seconds 5) s.ml_timeout;
    cache_ttl = int_or (seconds 10) s.cache_ttl;
    query_timeout = int_or (seconds 5) s.query_timeout;
    max_concurrent = int_or (pos 5) s.max_concurrent;
  }
