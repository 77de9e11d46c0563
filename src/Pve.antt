-- ===== src/Pve.antt =====
-- Package pve (internal/pve): the API rows, the samples made of them, and the way they are polled.
pub mod Metrics
pub mod Api
pub mod Parse
pub mod Resources
pub mod Help
pub mod Client
pub mod Ha
pub mod Node
pub mod Group
pub mod Snapshot
pub mod Collector
pub mod Prometheus
pub mod Otlp
