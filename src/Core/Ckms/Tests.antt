-- ===== src/Core/Ckms/Tests.antt =====
-- The quantiles' laws over the sample numbers.
use prometheus_cpp.Common.{◌+◌, ◌≡◌, ◌⊎◌, refl, All, List, [], ◌∷◌, pos}
use mathlib.Core.List.{cons-ne-nil}
use prometheus_cpp.Double.{◌≼◌}
use prometheus_cpp.Double.Sample.{Number, nan, fin, number_double, Number-IsOrdered}
use prometheus_cpp.Core.Ckms.{Quantile, make, get}
use prometheus_cpp.Core.Ckms.History.{Call, inserts, gets, resets, run, seen}
use prometheus_cpp.Core.Ckms.Weight.{IsWeighted, run-Holds}
use prometheus_cpp.Core.Ckms.Values.{In, get-run}
use prometheus_cpp.Core.Ckms.Read.{IsReadAt, bound_of, get-IsReadAt}
use prometheus_cpp.Core.Ckms.Sorted.{IsSorted, run-IsSorted}

abbrev targets : List (Quantile Number)
targets =
    record { quantile = fin (pos 0); error = fin (pos 0); u = fin (pos 1); v = fin (pos 1) } ∷ []

abbrev calls : List (Call Number)
calls =
    inserts (fin (pos 8))
    ∷ resets
    ∷ inserts (fin (pos 5))
    ∷ inserts (fin (pos 3))
    ∷ gets (fin (pos 0))
    ∷ inserts (fin (pos 4))
    ∷ []

run-Holds_example :
    IsWeighted (run calls (make targets))
    × ((run calls (make targets)).count + (run calls (make targets)).buffer_count ≡ 3)
run-Holds_example = run-Holds targets calls

get-run_example :
    ((seen [] calls ≡ []) × ((get (fin (pos 1)) (run calls (make targets))).0 ≡ nan))
    ⊎ In (get (fin (pos 1)) (run calls (make targets))).0 (seen [] calls)
get-run_example = get-run targets calls (fin (pos 1))

run-IsSorted_example : IsSorted (run calls (make targets)).sample
run-IsSorted_example =
    run-IsSorted Number-IsOrdered targets calls (refl, (tt, (refl, (refl, (tt, (refl, tt))))))

lowest : (get (fin (pos 0)) (run calls (make targets))).0 ≡ fin (pos 3)
unfolding get run make
lowest = refl

get-IsReadAt_example :
    let r = get (fin (pos 0)) (run calls (make targets)) in
    (at : IsReadAt (bound_of (fin (pos 0)) r.1) (seen [] calls) 0 r.1.sample r.0) × ((at.rest ≡ [])
      → All (λ v. v ≼ r.0) (seen [] calls))
get-IsReadAt_example =
    get-IsReadAt Number-IsOrdered targets calls (fin (pos 0))
      (refl, (tt, (refl, (refl, (tt, (refl, tt)))))) (cons-ne-nil _ _)
