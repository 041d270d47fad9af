-- ===== src/Core/MetricType.antt =====
-- core/include/prometheus/metric_type.h.
pub data MetricType : Type 0 where
  counter gauge summary untyped histogram info : MetricType
