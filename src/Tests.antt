-- ===== src/Tests.antt =====
-- Concrete instances of the parameters of the model, and the theorems at concrete inputs.
pub mod Servers
pub mod Worker
pub mod Fdr
pub mod Baseline
pub mod Correlation
pub mod Cycle
pub mod Enrichment
pub mod Filters
pub mod Ingestion
pub mod Replay
pub mod Report
pub mod Settings
