-- ===== src/Core/Counter/Tests.antt =====
-- The counter's laws over the sample numbers.
use prometheus_cpp.Common.{List, ◌≡◌, refl, true, [], ◌∷◌, pos, negsuc}
use prometheus_cpp.Double.{Double, ◌≼◌, zero_value}
use prometheus_cpp.Double.Sample.{
  Number, nan, fin, number_double, Number-IsOrdered, Number-IsExact, Number-IsMonotone,
}
use prometheus_cpp.Core.Counter.{new_counter, value}
use prometheus_cpp.Core.Counter.Monotone.{Call, plain, by, run, run-grows, run-nan}

abbrev calls : List (Call Number)
calls = plain ∷ by (fin (negsuc 6)) ∷ by (fin (pos 4)) ∷ []

total : value (run calls new_counter) ≡ fin (pos 5)
unfolding run
total = refl

run-grows_example :
    (value new_counter ≼ value (run calls new_counter))
    × (zero_value ≼ value (run calls new_counter))
run-grows_example =
    run-grows Number-IsOrdered Number-IsExact Number-IsMonotone calls new_counter
      (tt, (refl, (refl, tt))) refl

run-nan_example : Double.is_nan number_double (value (run (by nan ∷ calls) new_counter)) ≡ true
run-nan_example = run-nan Number-IsMonotone nan calls new_counter refl
