-- ===== src/Pull/MetricsCollector/Tests.antt =====
-- A list with an expired pointer, over the two registries of the sample.
use prometheus_cpp.Double.Sample.{number_double}
