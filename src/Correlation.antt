-- ===== src/Correlation.antt =====
-- controller/internal/correlation: from anomalies to alerts.
pub mod Workload
pub mod Correlator
