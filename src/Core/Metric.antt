-- ===== src/Core/Metric.antt =====
-- What `Family<T>` uses of a metric class `T`: `T::metric_type` and `T::Collect`.
use prometheus_cpp.Common.{Option, some}
use prometheus_cpp.Double.{Double}
use prometheus_cpp.Core.MetricType.{MetricType}
use prometheus_cpp.Core.ClientMetric.{ClientMetric}
use prometheus_cpp.Core.Counter.{Counter}
use prometheus_cpp.Core.Counter
use prometheus_cpp.Core.Gauge.{Gauge}
use prometheus_cpp.Core.Gauge
use prometheus_cpp.Core.Histogram.{Histogram}
use prometheus_cpp.Core.Histogram
use prometheus_cpp.Core.Info.{Info}
use prometheus_cpp.Core.Info
use prometheus_cpp.Core.Summary.{Summary, Clock}
use prometheus_cpp.Core.Summary

-- The five instantiations of the templates.
pub data Kind : Type 0 where
  counters gauges histograms infos summaries : Kind

abbrev pub Object : Kind → Type 0 → Type 0
Object counters D = Counter D
Object gauges D = Gauge D
Object histograms D = Histogram D
Object infos D = Info
Object summaries D = Summary D

abbrev pub metric_type : Kind → MetricType
metric_type counters = MetricType.counter
metric_type gauges = MetricType.gauge
metric_type histograms = MetricType.histogram
metric_type infos = MetricType.info
metric_type summaries = MetricType.summary

module _ {D : Type 0} ⦃d : Double D⦄ where
  -- A summary's `Collect` rotates its time window; `none` means that it does not return.
  unfoldable pub collect :
      (k : Kind) → Object k D → Clock → Option (ClientMetric D × Object k D × Clock)
  unfolding Counter.collect Gauge.collect Histogram.collect Info.collect Summary.collect
  collect counters x clock = some (Counter.collect x, x, clock)
  collect gauges x clock = some (Gauge.collect x, x, clock)
  collect histograms x clock = some (Histogram.collect x, x, clock)
  collect infos x clock = some (Info.collect x, x, clock)
  collect summaries x clock = Summary.collect x clock
