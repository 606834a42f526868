-- ===== src/Replay.antt =====
-- controller/internal/replay: detection over recorded data.
pub mod InMem
pub mod Adapter
pub mod Tick
pub mod Inject
pub mod Report
pub mod Engine
pub mod Percentile
pub mod Window
