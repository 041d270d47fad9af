-- ===== src/Core/Collectable/Sample.antt =====
-- Two registries of a program, for tests.
use prometheus_cpp.Common.{[], ◌∷◌, codes, Bytes, pos}
use prometheus_cpp.Double.Sample.{Number, fin}
use prometheus_cpp.Core.Summary.{Clock}
use prometheus_cpp.Core.Registry.{Registry, merge}
use prometheus_cpp.Core.Registry
use prometheus_cpp.Core.Collectable.Registries.{Registries}

abbrev pub steady_clock : Clock
steady_clock n = n

-- A registry of one gauge.
abbrev pub gauge_registry : Registry Number
gauge_registry = record (Registry.make merge) {
  gauge_families =
      record {
        address = 1;
        family = record {
          metrics =
              record { labels = []; address = 10; object = record { value = fin (pos 4) } } ∷ [];
          name = codes "g";
          help = [];
          constant_labels = [];
        };
      }
      ∷ [];
}

-- The second registry is expired.
abbrev pub program : Registries Number
program = record {
  shared =
      record { number = 1; registry = gauge_registry }
      ∷ record { number = 3; registry = Registry.make merge }
      ∷ [];
  clock = steady_clock;
}

abbrev pub print_number : Number → Bytes
print_number x = codes "4"
