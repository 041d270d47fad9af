-- ===== src/Core/Summary/Tests.antt =====
-- A summary with two buckets of an interval of five ticks.
use prometheus_cpp.Common.{◌*◌, [], ◌∷◌, some, pos, ◌≡◌, arith}
use prometheus_cpp.Double.Sample.{Number, fin, number_double}
use prometheus_cpp.Core.TimeWindow.Ready.{IsReady}
use prometheus_cpp.Core.Summary.{Clock, Summary, make}
use prometheus_cpp.Core.Summary.Returns.{observes, collects, run, run-returns}

abbrev ticking : Clock
ticking n = 7 * n

run-returns_example :
    let (m, clock1) = make {D = Number} [] 10 2 ticking in
    (x : Summary Number × Clock) × (run (observes (fin (pos 3)) ∷ collects ∷ collects ∷ []) m clock1
      ≡ some x)
    × IsReady x.0.quantile_values (x.1 0)
run-returns_example =
    run-returns [] 10 2 ticking (observes (fin (pos 3)) ∷ collects ∷ collects ∷ []) (omega arith)
      (omega arith) (λ n. omega arith)
