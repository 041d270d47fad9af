-- ===== src/Core/ClientMetric.antt =====
-- core/include/prometheus/client_metric.h and metric_family.h. The records of one kind that share a
-- type of values take it as the parameter `D`.
use prometheus_cpp.Common.{ℕ, List, [], Bytes, ℤ, pos}
use prometheus_cpp.Double.{Double, zero_value}
use prometheus_cpp.Core.MetricType.{MetricType}

pub record LabelPair : Type 0 where
  pub name : Bytes
  pub value : Bytes

pub record Quantile (D : Type 0) : Type 0 where
  pub quantile : D
  pub value : D

pub record SummaryData (D : Type 0) : Type 0 where
  pub sample_count : ℕ
  pub sample_sum : D
  pub quantile : List (Quantile D)

pub record Bucket (D : Type 0) : Type 0 where
  pub cumulative_count : ℕ
  pub upper_bound : D

pub record HistogramData (D : Type 0) : Type 0 where
  pub sample_count : ℕ
  pub sample_sum : D
  pub bucket : List (Bucket D)

-- `counter`, `gauge`, `info` and `untyped` are the `value` of those structs.
pub record ClientMetric (D : Type 0) : Type 0 where
  pub label : List LabelPair
  pub counter : D
  pub gauge : D
  pub info : D
  pub summary : SummaryData D
  pub histogram : HistogramData D
  pub untyped : D
  pub timestamp_ms : ℤ

pub record MetricFamily (D : Type 0) : Type 0 where
  pub name : Bytes
  pub help : Bytes
  pub type : MetricType
  pub metric : List (ClientMetric D)

module _ {D : Type 0} ⦃d : Double D⦄ where
  -- A value-initialised `ClientMetric`.
  abbrev pub empty_metric : ClientMetric D
  empty_metric = record {
    label = [];
    counter = zero_value;
    gauge = zero_value;
    info = d.of_uint 1;
    summary = record { sample_count = 0; sample_sum = zero_value; quantile = [] };
    histogram = record { sample_count = 0; sample_sum = zero_value; bucket = [] };
    untyped = zero_value;
    timestamp_ms = pos 0;
  }
