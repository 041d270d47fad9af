-- ===== src/Core/Gauge/Tests.antt =====
-- A run of two concurrent calls, in which the second call's swap fails once.
use mathlib.Core.List.{Perm, foldl}
use prometheus_cpp.Common.{◌≡◌, refl, [], ◌∷◌, pos, negsuc, List}
use prometheus_cpp.Double.{Double}
use prometheus_cpp.Double.Sample.{Number, fin, number_double}
use prometheus_cpp.Core.Gauge.{decrement}
use prometheus_cpp.Core.Gauge.Concurrent.{
  State, start, trying, finished, Reach, here, next, at, load, swap, retry, Reach-serial,
}

abbrev one : Number
one = fin (pos 1)

abbrev two : Number
two = fin (pos 2)

abbrev begin : State Number
begin = record { value = fin (pos 0); threads = start one ∷ start two ∷ [] }

abbrev end : State Number
end = record { value = fin (pos 3); threads = finished one ∷ finished two ∷ [] }

contended : Reach begin end
contended =
    next
      (next
        (next
          (next
            (next here (
              at [] (start two ∷ []) (start one) (trying one (fin (pos 0))) (fin (pos 0)) (load one)
                refl refl))
            (at (trying one (fin (pos 0)) ∷ []) [] (start two) (trying two (fin (pos 0)))
              (fin (pos 0)) (load two) refl refl))
          (at [] (trying two (fin (pos 0)) ∷ []) (trying one (fin (pos 0))) (finished one)
            (fin (pos 1)) (swap one (fin (pos 0)) refl) refl refl))
        (at (finished one ∷ []) [] (trying two (fin (pos 0))) (trying two (fin (pos 1)))
          (fin (pos 1)) (retry two (fin (pos 0))) refl refl))
      (at (finished one ∷ []) [] (trying two (fin (pos 1))) (finished two) (fin (pos 3))
        (swap two (fin (pos 1)) refl) refl refl)

Reach-serial_example :
    (log : List Number) × Perm log (one ∷ two ∷ [])
    × (fin (pos 3) ≡ foldl (λ x y. Double.add number_double x y) (fin (pos 0)) log)
Reach-serial_example = Reach-serial {s = begin} {t = end} (tt, (tt, tt)) contended (tt, (tt, tt))

below_zero :
    decrement {D = Number} (record { value = fin (pos 0) }) ≡ record { value = fin (negsuc 0) }
unfolding decrement
below_zero = refl
