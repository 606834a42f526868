-- ===== src/Tests/Settings.antt =====
-- The theorem on the defaults of the settings at concrete inputs.
use anomaly_detection.Prelude.Int.{pos, negsuc}
use anomaly_detection.Float64.Nano.{Nano, nano}
use anomaly_detection.Config.Defaults.{Settings, set_defaults}

-- only the job interval, a negative cooldown and the threshold are given
abbrev given : Settings Nano
given = record {
  cluster = "";
  job_interval = pos 60_000_000_000;
  correlation_window = pos 0;
  cooldown = negsuc 0;
  controller_metrics_port = pos 0;
  workload_pattern_min_pods = pos 0;
  lease_duration = pos 0;
  renew_deadline = pos 0;
  retry_period = pos 0;
  lease_name = "";
  lease_namespace = "";
  grpc_port = pos 0;
  worker_metrics_port = pos 0;
  concurrency = pos 0;
  window_size = pos 0;
  ewma_alpha = nano.lit 0 1;
  zscore_threshold = nano.lit 4 1;
  warm_up_samples = pos 0;
  seasonal_min_days = pos 0;
  prometheus_timeout = pos 0;
  loki_timeout = pos 0;
  ml_timeout = pos 0;
  cache_ttl = pos 0;
  query_timeout = pos 0;
  max_concurrent = pos 0;
}

abbrev loaded : Settings Nano
loaded = set_defaults "" given
