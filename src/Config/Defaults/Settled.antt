-- ===== src/Config/Defaults/Settled.antt =====
-- controller/internal/config/config.go: what holds of the settings behind `setDefaults`.
use anomaly_detection.Prelude.{List, [], ◌∷◌}
use anomaly_detection.Prelude.Int.{ℤ}
use anomaly_detection.Float64.{Float64}
use anomaly_detection.Config.Defaults.{Settings}

module _ {F : Type 0} ⦃fl : Float64 F⦄ where
  -- the durations, the ports and the counts
  abbrev pub numbers : Settings F → List ℤ
  numbers s =
      s.job_interval ∷ s.correlation_window ∷ s.cooldown ∷ s.controller_metrics_port
      ∷ s.workload_pattern_min_pods ∷ s.lease_duration ∷ s.renew_deadline ∷ s.retry_period
      ∷ s.grpc_port ∷ s.worker_metrics_port ∷ s.concurrency ∷ s.window_size ∷ s.warm_up_samples
      ∷ s.seasonal_min_days ∷ s.prometheus_timeout ∷ s.loki_timeout ∷ s.ml_timeout ∷ s.cache_ttl
      ∷ s.query_timeout ∷ s.max_concurrent ∷ []
