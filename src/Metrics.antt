-- ===== src/Metrics.antt =====
-- The Prometheus metrics of utils/metrics.rs, and where lib.rs records them (with the feature
-- `metrics`).
pub mod Instruments
pub mod Init
pub mod Connections
pub mod Recorded
pub mod Labels
pub mod Scrape
