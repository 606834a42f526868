-- ===== src/Lib.antt =====
-- StaffOps anomaly detection: the controller under controller/ reads metrics, log rates and events,
-- keeps a statistical baseline per series, and turns deviations into correlated alerts.
--
-- The parts and their interaction. The controller (controller/cmd/controller) sends the rules as
-- jobs to the workers (controller/cmd/worker), which query Prometheus and Loki
-- (controller/internal/ingestion), run the detectors (controller/internal/detection) over baselines in
-- Redis (controller/internal/baseline) and drop what is suppressed (controller/internal/suppression).
-- The controller collects the anomalies of a cycle, drops those of the harmless direction and below the floor of
-- their rule, corrects the adaptive ones for multiple testing, and hands the rest to the correlator
-- (controller/internal/correlation), which groups them by workload, promotes groups of replicas,
-- removes duplicates and enriches what is left (controller/internal/enrichment); the ML service
-- (controller/internal/ml) may confirm an alert, and the dispatcher (controller/internal/alert) labels
-- it. A replay (controller/internal/replay) runs the detectors over history with injected faults
-- and scores them. Beside the cycle stands the tracker of silent series
-- (controller/internal/absence).
--
-- Which file models which part:
-- - Prelude, Labels, Float64: shared names; Go's maps of texts as lists of entries, of which the first
--   with a key counts; float64 as an interface whose laws of order and rounding are hypotheses of the
--   theorems that need them. Float64/Nano meets the laws with multiples of 10^-9.
-- - Detection: engine.go, static.go, pattern.go, adaptive.go, floor.go, direction.go and fdr.go of
--   controller/internal/detection, one module each. Go filters in place; the model returns the slice.
-- - Baseline: baseline/store.go (Keys, Store) and baseline/seasonal.go (Seasonal). The state of a
--   process is StoreState; Redis is the interface HashStore, which may fail at each call.
-- - Worker: cmd/worker/main.go, processJob and the cache of queries (Worker), ProcessJobs (Batch). The
--   limiters and pollers are the interface Backends.
-- - Ingestion: metrics.go and logs.go, the replies from the decoded JSON on.
-- - Replay: inmem_baseline.go (InMem), adapter.go (Adapter), engine.go (Tick for the filters, Engine for
--   the queries and the loop), report.go (Report), the window of metrics.go (Percentile), window.go
--   (Window), and replay/inject (Inject: the profile, Faults, Injector, Scorer).
-- - Correlation: workload.go (Workload) and correlator.go (Correlator: Pending for Add, Patterns for
--   detectWorkloadPatterns, Finalize, Flush). A panic of Go is `none`.
-- - Enrichment: identity.go (Identity), engine.go and template.go (Engine). Ml: features.go and
--   client.go of controller/internal/ml. Suppression, Absence, Config, Alert: the packages of these
--   names; of Config, setDefaults is Defaults and splitCSV is Csv. Links: alert/links.go.
--   Controller: buildJobBatch, and runCycle (Cycle).
-- - Tests: concrete instances of the parameters, and each theorem at a concrete input.
--
-- Conventions. Times and durations are natural numbers of nanoseconds, but for the signed settings of
-- Config/Defaults and times of Replay/Window; one reading of the clock stands for those of a loop.
-- The laws of rounding are asked of finite values and of counts that an int holds. Counters of the program are natural numbers: no series reaches 2^63
-- samples. Mutexes make each operation one step. The order of a list that stands for a map is one of
-- the orders in which Go may range over it. Recursion is on lists and texts, but for the
-- loop over the ticks of a replay, which has fuel: a window of n nanoseconds has at most n ticks.
--
-- Parameters, as no code of the repository defines them: SHA-256, encoding/json, net/url, fmt,
-- strconv, strings.Replacer, math/rand, IEEE arithmetic, Redis, Prometheus, Loki and the ML
-- service.
--
-- Not modelled: generated code, start-up and shutdown, HTTP, gRPC and Kubernetes clients, logs and
-- metrics, the loading of the configuration, leader election, readiness probes, the Markdown of
-- the replay, and the ML service in Python.
pub mod Absence
pub mod Alert
pub mod Baseline
pub mod Config
pub mod Controller
pub mod Correlation
pub mod Detection
pub mod Enrichment
pub mod Float64
pub mod Ingestion
pub mod Labels
pub mod Links
pub mod Ml
pub mod Prelude
pub mod Replay
pub mod Suppression
pub mod Tests
pub mod Worker
