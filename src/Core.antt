-- ===== src/Core.antt =====
-- The directory core/.
pub mod CheckNames
pub mod MetricType
pub mod Labels
pub mod LabelHasher
pub mod ClientMetric
pub mod Gauge
pub mod Counter
pub mod Info
pub mod Histogram
pub mod Ckms
pub mod TimeWindow
pub mod Summary
pub mod Metric
pub mod Family
pub mod Registry
pub mod Collectable
pub mod TextSerializer
