-- ===== src/Pull/Handler/Tests.antt =====
-- A handler on a new registry, and a scrape of it that its own metrics are not counted in yet.
use prometheus_cpp.Common.{
  length, has_prefix, ℕ, ◌^◌, ◌*◌, List, [], ◌∷◌, Option, some, none, ok, Bytes, codes, ◌≡◌, refl,
  arith,
}
use prometheus_cpp.Double.Sample.{Number, number_double}
use prometheus_cpp.Core.ClientMetric.{MetricFamily}
use prometheus_cpp.Core.Metric.{counters}
use prometheus_cpp.Core.Counter
use prometheus_cpp.Core.CheckNames.{check_metric_name}
use prometheus_cpp.Core.Family
use prometheus_cpp.Core.Summary.{later}
use prometheus_cpp.Core.Summary
use prometheus_cpp.Core.Registry.{Registry, merge}
use prometheus_cpp.Core.Registry
use prometheus_cpp.Core.Collectable.Registries.{Registries, registries, collect_shared}
use prometheus_cpp.Core.Collectable.Sample.{steady_clock, program, print_number}
use prometheus_cpp.Core.TextSerializer.{serialize}
use prometheus_cpp.Pull.MetricsCollector.{collect_metrics}
use prometheus_cpp.Pull.Response.Framed.{NamesGzip, IsResponse}
use prometheus_cpp.Pull.Response.Gzip.{Compresses}
use prometheus_cpp.Pull.Response.Sample.{storing, storing-Ends, rounds}
use prometheus_cpp.Pull.Handler.Own.{Reference, read_metric}
use prometheus_cpp.Pull.Handler.{MetricsHandler, latency_quantiles, registry_at, make, handle_get}
use prometheus_cpp.Pull.Handler.Made.{
  made, bytes_family, scrapes_family, latencies_family, make-returns,
}
use prometheus_cpp.Pull.Handler.Returns.{IsServing, scrapes, scrapes-returns}
use prometheus_cpp.Pull.Handler.Scrape.{on_some, handle_get-counts}

abbrev reference : ℕ → Reference
reference n = record { family = n; metric = n }

abbrev handler : MetricsHandler
handler = record {
  collectables = 1 ∷ 2 ∷ [];
  registry = 9;
  bytes_transferred = reference 1;
  num_scrapes = reference 2;
  request_latencies = reference 3;
}

abbrev own : Registry Number
own = (make 9 (reference 1) (reference 2) (reference 3) (Registry.make merge) steady_clock).0

make-returns_example :
    let (object, clock') =
      Summary.make {D = Number} latency_quantiles (60 * 10 ^ 9) 5 steady_clock in
    make 9 (reference 1) (reference 2) (reference 3) (Registry.make merge) steady_clock ≡ (
      made
          (bytes_family (reference 1) ∷ scrapes_family (reference 2) ∷ [])
          (latencies_family (reference 3) object ∷ []),
      ok (record handler { collectables = [] }),
      clock',
    )
make-returns_example =
    make-returns (reference 1) (reference 2) (reference 3) 9 steady_clock (λ e. omega (arith, e))

abbrev world : Registries Number
world = record program { shared = record { number = 9; registry = own } ∷ program.shared }

abbrev client : Option Bytes
client = some (codes "gzip")

abbrev scraped : Option (Bytes × Registries Number)
unfolding handle_get
scraped = handle_get print_number storing rounds handler client world

abbrev sent : Bytes
unfolding scraped
sent = elim scraped [ none ↦ [] | some x ↦ x.0 ]

abbrev after : Registries Number
unfolding scraped
after = elim scraped [ none ↦ world | some x ↦ x.1 ]

answered : scraped ≡ some (sent, after)
unfolding scraped sent after make handle_get collect_metrics read_metric collect_shared
    Registry.find_family Family.make check_metric_name Family.labels_valid Family.find_labels
    Family.labels_rejected has_prefix
answered = refl

handle_get-counts_example :
    (metrics : List (MetricFamily Number)) × (w1 : Registries Number) × (packed : Bytes)
    × (size : ℕ) × (r r' : Registry Number) × (collect_metrics registries
          (1 ∷ 2 ∷ [])
          (record world { clock = later world.clock })
        ≡ some (metrics, w1))
    × (NamesGzip client → Compresses storing (serialize print_number metrics) packed)
    × IsResponse client (serialize print_number metrics) packed sent size
    × (registry_at 9 w1.shared ≡ some r)
    × (registry_at 9 after.shared ≡ some r')
    × (read_metric counters (reference 2) r'
        ≡ on_some Counter.increment (read_metric counters (reference 2) r))
    × (read_metric counters (reference 1) r'
        ≡ on_some
            (Counter.increment_by (number_double.of_uint size))
            (read_metric counters (reference 1) r))
unfolding scraped
handle_get-counts_example =
    handle_get-counts print_number storing rounds handler client world after sent
      (λ e. omega (arith, e)) answered

-- Just behind the constructor, at tick 0.
serving : IsServing handler world
unfolding make Registry.find_family Family.make check_metric_name Family.labels_valid
    Family.find_labels Family.labels_rejected
serving = record {
  steady = λ n. omega arith;
  ready = (
    ((record { positive = omega arith; past = omega arith; in_bounds = omega arith }, tt), tt),
    (tt, (tt, tt)),
  );
  own = (3, 3 ∷ []) ∷ [];
  there = refl;
  latencies = refl;
}

scrapes-returns_example :
    (y : List Bytes × Registries Number) × (scrapes print_number storing rounds handler
        (none ∷ some (codes "gzip") ∷ [])
        world
      ≡ some y)
    × IsServing handler y.1
    × (length y.0 ≡ length (none ∷ some (codes "gzip") ∷ []))
scrapes-returns_example =
    scrapes-returns print_number storing rounds handler (none ∷ some (codes "gzip") ∷ []) world
      storing-Ends (λ text. omega arith) serving
