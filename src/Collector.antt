-- ===== src/Collector.antt =====
-- internal/collector: what the watchers read from Kubernetes, the alerts they build from it, and
-- how they hand their work to the worker pool and the state manager.
pub mod Objects
pub mod Builder
pub mod MetricBuilder
pub mod Watcher
pub mod PodWatcher
pub mod Severities
pub mod Dashboard
pub mod Metrics
pub mod MetricsLoop
pub mod Client
pub mod MetricsWatcher
pub mod NodeWatcher
