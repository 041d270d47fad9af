-- ===== src/Core/Family/Tests.antt =====
-- A family of gauges with one constant label, after core/tests/family_test.cc.
use mathlib.Core.List.{Permᴰ}
use mathlib.Core.List.Permᴰ
use prometheus_cpp.Common.{
  ◌≡◌, refl, false, List, [], ◌∷◌, codes, ok, err, invalid_argument, arith, pos, length,
}
use prometheus_cpp.Double.Sample.{Number, fin}
use prometheus_cpp.Core.Labels.{Labels}
use prometheus_cpp.Core.MetricType.{gauge}
use prometheus_cpp.Core.CheckNames.{check_metric_name, check_label_name}
use prometheus_cpp.Core.Metric.{gauges}
use prometheus_cpp.Core.Gauge.{Gauge}
use prometheus_cpp.Core.Family.{
  Family, make, labels_valid, find_labels, labels_rejected, add, remove, has,
}
use prometheus_cpp.Core.Family.Invariant.{
  Call, adds, removes, asks, run, IsWellFormed, run-make-IsWellFormed,
}
use prometheus_cpp.Core.Family.Reordered.{
  added, removed, present, done, call, answer, answers, IsReordered, Shuffled,
}
use prometheus_cpp.Core.Family.Order.{Shuffled-make}

abbrev constant : Labels
constant = (codes "component", codes "test") ∷ []

abbrev first : Labels
first = (codes "name", codes "counter1") ∷ []

abbrev second : Labels
second = (codes "name", codes "counter2") ∷ []

abbrev level : Gauge Number
level = record { value = fin (pos 4) }

abbrev empty_family : Family (Gauge Number)
empty_family = record {
  metrics = [];
  name = codes "total_requests";
  help = codes "Help";
  constant_labels = constant;
}

abbrev one_metric : Family (Gauge Number)
one_metric = record empty_family {
  metrics = record { labels = first; address = 1; object = level } ∷ [];
}

abbrev calls : List (Call (Gauge Number))
calls =
    adds first 1 level
    ∷ adds constant 2 level
    ∷ adds second 2 level
    ∷ adds first 3 level
    ∷ removes 1
    ∷ []

-- The second call is rejected and the fourth finds the first one's metric, so one metric is left.
left : length (run gauge calls empty_family).metrics ≡ 1
unfolding run add find_labels remove labels_rejected check_label_name
left = refl

names_rejected :
    (make gauges Number (codes "a-b") [] [] ≡ err invalid_argument)
    × (make gauges Number (codes "a") [] ((codes "__l", []) ∷ []) ≡ err invalid_argument)
unfolding make labels_valid check_metric_name check_label_name
names_rejected = (refl, refl)

run-make-IsWellFormed_example : IsWellFormed gauge (run gauge calls empty_family)
unfolding make labels_valid add find_labels remove labels_rejected check_metric_name
    check_label_name
run-make-IsWellFormed_example =
    run-make-IsWellFormed gauges Number (codes "total_requests") (codes "Help") constant
      empty_family refl calls (omega arith)

-- Two metrics, whose entries are swapped before the first one is removed.
abbrev few : List (Call (Gauge Number))
few = adds first 1 level ∷ adds second 2 level ∷ removes 1 ∷ asks first ∷ []

abbrev two_metrics : Family (Gauge Number)
two_metrics = record empty_family {
  metrics =
      record { labels = first; address = 1; object = level }
      ∷ record { labels = second; address = 2; object = level }
      ∷ [];
}

abbrev swapped : Family (Gauge Number)
swapped = record empty_family {
  metrics =
      record { labels = second; address = 2; object = level }
      ∷ record { labels = first; address = 1; object = level }
      ∷ [];
}

abbrev second_left : Family (Gauge Number)
second_left = record empty_family {
  metrics = record { labels = second; address = 2; object = level } ∷ [];
}

same : (f : Family (Gauge Number)) → IsReordered f f
same f = record { metrics = Permᴰ.refl f.metrics; name = refl; help = refl; constant_labels = refl }

few-Shuffled :
    Shuffled gauge empty_family few
      (added (ok 1) ∷ added (ok 2) ∷ removed ∷ present false ∷ [])
      second_left
unfolding add remove has find_labels labels_rejected check_label_name answer
few-Shuffled = call _ empty_family _ _ _ _ (same empty_family) (
    call _ one_metric _ _ _ _ (same one_metric) (
      call _ swapped _ _ _ _
        (record {
          metrics = Permᴰ.swap refl refl;
          name = refl;
          help = refl;
          constant_labels = refl;
        })
        (call _ second_left _ _ _ _ (same second_left) (done _ _ (same second_left)))))

Shuffled-make_example :
    (added (ok 1) ∷ added (ok 2) ∷ removed ∷ present false ∷ [] ≡ answers gauge few empty_family)
    × IsReordered (run gauge few empty_family) second_left
unfolding make labels_valid add find_labels remove labels_rejected check_metric_name
    check_label_name
Shuffled-make_example =
    Shuffled-make gauges Number (codes "total_requests") (codes "Help") constant empty_family
      second_left few (added (ok 1) ∷ added (ok 2) ∷ removed ∷ present false ∷ []) refl
      (omega arith) few-Shuffled
