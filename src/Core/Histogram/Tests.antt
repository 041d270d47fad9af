-- ===== src/Core/Histogram/Tests.antt =====
-- Runs after core/tests/histogram_test.cc, and the theorems at concrete histograms.
use prometheus_cpp.Common.{
  ℕ, ◌≡◌, ◌≢◌, ◌⊎◌, refl, List, [], ◌∷◌, arith, pos, negsuc, length, get_elem?, ok, err,
  invalid_argument, length_error, some,
}
use prometheus_cpp.Double.Sample.{Number, nan, fin, number_double, Number-IsOrdered, Number-IsExact}
use prometheus_cpp.Core.Counter.{Counter, increment_by}
use prometheus_cpp.Core.Histogram.{Histogram, make, observe_multiple, collect}
use prometheus_cpp.Core.Histogram.Shape.{fresh, Call, observes, observes_multiple}
use prometheus_cpp.Core.Histogram.Observe.{observe_multiple_lem}
use prometheus_cpp.Core.Histogram.Cumulative.{observe_all, cumulative, collect-observe_all}

abbrev bounds : List Number
bounds = fin (pos 1) ∷ fin (pos 2) ∷ []

abbrev start : Histogram Number
start = fresh bounds

abbrev values : List Number
values = fin (pos 1) ∷ fin (pos 9) ∷ fin (negsuc 3) ∷ fin (pos 2) ∷ []

unsorted : make {D = Number} (fin (pos 2) ∷ fin (pos 1) ∷ []) ≡ err invalid_argument
unfolding make
unsorted = refl

-- The test of the constructor lets NaN pass.
nan_boundary : make {D = Number} (nan ∷ nan ∷ []) ≡ ok (fresh (nan ∷ nan ∷ []))
unfolding make
nan_boundary = refl

run_counts : (collect (observe_all values start)).histogram.bucket ≡ cumulative bounds values
unfolding collect observe_all
run_counts = refl

made : make bounds ≡ ok start
unfolding make
made = refl

abbrev history : List (Call Number)
history = observes (fin (pos 7)) ∷ observes_multiple [] nan ∷ observes nan ∷ []

observe_multiple_lem_example :
    ((length bounds ≢ length start.bucket_counts)
      × (observe_multiple bounds nan start ≡ err length_error))
    ⊎ ((length bounds ≡ length start.bucket_counts)
        × ((h' : Histogram Number) × (observe_multiple bounds nan start ≡ ok h')
            × (h'.bucket_boundaries ≡ start.bucket_boundaries)
            × (h'.sum.value ≡ nan)
            × ((j : ℕ) (c : Counter Number) (v : Number)
                → get_elem? start.bucket_counts j ≡ some c
                → get_elem? bounds j ≡ some v
                → get_elem? h'.bucket_counts j ≡ some (increment_by v c))))
observe_multiple_lem_example = observe_multiple_lem start bounds nan

collect-observe_all_example :
    let r = (collect (observe_all values start)).histogram in
    (r.bucket ≡ cumulative bounds values) × (r.sample_count ≡ 4)
collect-observe_all_example =
    collect-observe_all Number-IsOrdered Number-IsExact bounds values start (refl, (refl, tt)) made
      (refl, (refl, (refl, (refl, tt)))) (omega arith)
