-- ===== src/Core/Registry/Tests.antt =====
-- Families of three types, after core/tests/registry_test.cc.
use prometheus_cpp.Common.{
  ◌≡◌, ◌≤◌, some, refl, arith, true, false, List, [], ◌∷◌, codes, Bytes, ok, err, invalid_argument,
  pos,
}
use prometheus_cpp.Double.Sample.{Number, fin, number_double}
use prometheus_cpp.Core.Labels.{Labels}
use prometheus_cpp.Core.CheckNames.{check_metric_name, check_label_name}
use prometheus_cpp.Core.ClientMetric.{MetricFamily}
use prometheus_cpp.Core.Metric.{counters, gauges, infos}
use prometheus_cpp.Core.Summary.{Clock}
use prometheus_cpp.Core.Gauge
use prometheus_cpp.Core.Gauge.{Gauge}
use prometheus_cpp.Core.Metric
use prometheus_cpp.Core.MetricType.{gauge}
use prometheus_cpp.Core.Family
use prometheus_cpp.Core.Registry.{
  InsertBehavior, Registry, merge, throw, make, add, remove, register, build, with_name, collect,
  find_family,
}
use prometheus_cpp.Core.Registry.Calls.{Call, registers, adds_metric, perform}
use prometheus_cpp.Core.Registry.Collected.{collected_count, collect-run}
use prometheus_cpp.Core.Summary
use prometheus_cpp.Core.Registry.Ready.{IsReadyRegistry, collect_times, collect_times-returns}

abbrev requests : Bytes
requests = codes "requests"

-- A gauge family with one metric, a second one that is merged, a counter family of that name that is
-- rejected, an info family without a metric.
abbrev calls : List (Call Number)
calls =
    registers gauges requests [] [] 1
    ∷ adds_metric gauges 1 ((codes "k", codes "v") ∷ []) 10 (record { value = fin (pos 4) })
    ∷ registers gauges requests [] [] 2
    ∷ registers counters requests [] [] 3
    ∷ registers infos (codes "build") [] [] 4
    ∷ []

-- A registry of one family, as `Add` leaves it.
abbrev registered : InsertBehavior → Registry Number
registered behavior = record (make behavior) {
  gauge_families =
      record {
        address = 1;
        family = record { metrics = []; name = requests; help = []; constant_labels = [] };
      }
      ∷ [];
}

steady : Clock
steady n = n

outcomes :
    ((register gauges (with_name requests build) 1 (make merge)) ≡ (registered merge, ok 1))
    × ((register gauges (with_name requests build) 2 (registered merge)).1 ≡ ok 1)
    × ((register gauges (with_name requests build) 2 (registered throw)).1 ≡ err invalid_argument)
    × ((register counters (with_name requests build) 2 (registered merge)).1 ≡ err invalid_argument)
    × ((remove gauges 1 (registered merge)).1 ≡ true)
    × ((remove gauges 2 (registered merge)).1 ≡ false)
unfolding register find_family Family.make Family.labels_valid check_metric_name check_label_name
    remove
outcomes = (refl, refl, refl, refl, refl, refl)

abbrev level : Gauge Number
level = record { value = fin (pos 4) }

abbrev labels : Labels
labels = (codes "k", codes "v") ∷ []

-- What the calls leave: the second call is merged and the counter family is rejected.
abbrev left : Registry Number
left = record (make merge) {
  gauge_families =
      record {
        address = 1;
        family = record {
          metrics = record { labels = labels; address = 10; object = level } ∷ [];
          name = requests;
          help = [];
          constant_labels = [];
        };
      }
      ∷ [];
  info_families =
      record {
        address = 4;
        family = record { metrics = []; name = codes "build"; help = []; constant_labels = [] };
      }
      ∷ [];
}

-- The info family has no metric, so it gives no result.
abbrev results : List (MetricFamily Number)
unfolding Gauge.collect
results =
    record {
      name = requests;
      help = [];
      type = gauge;
      metric =
          record (Gauge.collect level) {
            label = record { name = codes "k"; value = codes "v" } ∷ [];
          }
          ∷ [];
    }
    ∷ []

collect-run_example : collected_count requests results ≤ 1
unfolding perform add find_family Family.make Family.labels_valid Family.add Family.find_labels
    Family.labels_rejected check_metric_name check_label_name collect Metric.collect Gauge.collect
collect-run_example = collect-run merge calls steady steady left results refl requests

-- A registry with a summary, which is made at tick 0 with two buckets of five ticks.
abbrev with_summary : Registry Number
unfolding Summary.make
with_summary = record (make merge) {
  summary_families =
      record {
        address = 1;
        family = record {
          metrics =
              record { labels = []; address = 2; object = (Summary.make [] 10 2 steady).0 } ∷ [];
          name = codes "s";
          help = [];
          constant_labels = [];
        };
      }
      ∷ [];
}

collect_times-returns_example :
    (y : Registry Number × Clock) × (collect_times 3 with_summary steady ≡ some y)
    × IsReadyRegistry y.0 (y.1 0)
unfolding with_summary Summary.make steady
collect_times-returns_example =
    collect_times-returns 3 with_summary steady (λ n. omega arith)
      ((record { positive = omega arith; past = omega arith; in_bounds = omega arith }, tt), tt)
