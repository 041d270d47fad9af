-- ===== src/Lib.antt =====
-- A model of prometheus-cpp, the C++ client library for Prometheus: metrics that a program updates, families of
-- metrics with labels, the registry that collects them, and the push and pull sides that give them out.
--
-- The parts, and where they are modelled:
-- - core/src/check_names.cc (CheckMetricName, CheckLabelName): Core/CheckNames.
-- - core/include/prometheus/client_metric.h, metric_family.h, metric_type.h, labels.h, the data that a collection
--   gives: Core/ClientMetric, Core/MetricType, Core/Labels.
-- - core/src/gauge.cc, counter.cc, info.cc, histogram.cc, summary.cc, the metric classes: Core/Gauge,
--   Core/Counter, Core/Info, Core/Histogram, Core/Summary. `Gauge::Change` is also modelled access by access, as a
--   step relation on the shared value and the threads, in Core/Gauge/Concurrent.
-- - core/src/detail/ckms_quantiles.cc and time_window_quantiles.cc, on which the summary stands: Core/Ckms and
--   Core/TimeWindow.
-- - core/src/family.cc: Core/Family, over Core/Metric, which stands for the template's five instances.
-- - core/src/detail/utils.cc and hash.h (LabelHasher): Core/LabelHasher.
-- - core/src/registry.cc and core/src/detail/builder.cc: Core/Registry, over Core/Family.
-- - core/src/text_serializer.cc and core/src/serializer.cc: Core/TextSerializer, over Core/ClientMetric.
-- - util/include/prometheus/detail/base64.h: Util/Base64.
-- - push/src/detail/label_encoder.cc (encodeLabel): Push/LabelEncoder, over Util/Base64.
-- - core/include/prometheus/collectable.h, which the gateway and the handler call: Core/Collectable, with the
--   registries of a program as its implementation in Core/Collectable/Registries.
-- - push/src/detail/curl_wrapper.cc: Push/CurlWrapper.
-- - push/src/gateway.cc: Push/Gateway, over the curl wrapper, the label encoder, the serializer and the
--   collectables; its asynchronous push, with the tasks as a step relation: Push/Gateway/Async; the calls that
--   only choose a method or start a task: Push/Gateway/Calls.
-- - pull/src/basic_auth.cc: Pull/BasicAuth, over Util/Base64.
-- - pull/src/metrics_collector.cc and pull/src/handler.cc: Pull/MetricsCollector, Pull/Response for the writing of
--   a response, and Pull/Handler, whose own metrics stand in a registry (Pull/Handler/Own).
-- - pull/src/endpoint.cc and pull/src/exposer.cc: Pull/Endpoint and Pull/Exposer, over the handlers.
-- Common holds the shared helpers: tests, lists, bytes, integers, decimal printing.
--
-- How code and model correspond. A class is a record of its fields, a method a function from the record to the
-- record afterwards and what is returned, an exception a value of `Result`. Calls that hold a mutex throughout are
-- whole steps. An object behind a pointer is known by its address, which the allocator chooses and the model takes
-- as an argument. A function that writes to a stream gives the text that it writes; how a stream prints a finite
-- `double` is the serializer's parameter. A family's hash table is a list in the order of insertion; `std::hash`
-- is a parameter of the hash of labels, of which no other definition makes use. A `double` is any type with the
-- operations of Double.antt; the laws of IEEE arithmetic that a theorem needs (`IsOrdered`, `IsMonotone`,
-- `IsExact`) are its named hypotheses, and Double/Sample is an instance that has them all. Readings of the clock
-- are arguments. A weak pointer is the number of its object's control block, which is never used again.
--
-- Code of others is a parameter: libcurl (Curl of Push/CurlWrapper), zlib (Zlib of Pull/Response) and civetweb's
-- server (CivetServer of Pull/Endpoint) are records of the calls that the code makes, and what a theorem needs
-- of their documented behaviour is a record of laws (Remembers, Tracks, Tables, and Ends of Pull/Response/Gzip)
-- that the theorem takes and that a concrete instance has. Of a connection the model has the value of the header
-- that is asked for, and the text that is printed and written to it.
--
-- Bounds and fuel. The loop of `TimeWindowQuantiles::rotate` runs on fuel, one more than the ticks that have
-- passed; that is enough where the interval is positive, and where it is zero no fuel is, as for the code. The
-- digits of a number are printed on the number itself as fuel, and the readers of the text format, which stand
-- beside their theorems, on a given fuel that the number of labels bounds from below. The compression's loop
-- runs on fuel that may depend on the text; fuel above what zlib has left to write is enough. Every other loop
-- is by recursion on what it walks through. A `std::string` is its list of bytes. Sizes in `size_t` and counts
-- in `uint64_t` wrap at 2^64 where the code subtracts or counts without a bound, and so does the hash of labels;
-- the `int` weights and ranks of the CKMS samples are unbounded, as they stay below the number of values: this
-- is the code up to 2^31 - 1 values between two resets. `std::sort` of a buffer with NaN in it is undefined, and
-- gives one order here.
--
-- Not modelled: the list of ports that the exposer asks of the server, and the build with no zlib. The scheduling
-- of the server's threads is not modelled: calls that hold a mutex throughout are whole steps, and a scrape is one
-- step, although it counts itself after it has given the mutex back. The exceptions of one class that differ in
-- their text only are one.
pub mod Common
pub mod Double
pub mod Core
pub mod Util
pub mod Push
pub mod Pull
