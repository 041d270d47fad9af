-- ===== src/Core/Histogram/Observe.antt =====
-- Which bucket an observation counts in, what `ObserveMultiple` does, and `Reset`.
use mathlib.Core.Option
use prometheus_cpp.Common.{
  ℕ, zero, suc, ◌≡◌, ◌≢◌, ◌⊎◌, refl, sym, ap, ◌∙◌, true, List, [], ◌∷◌, map, some, arith, length,
  length-replicate, replicate, get_elem?, All, ok, err, length_error, ◌==◌, if◌then◌else◌,
  Bool-cases, inl, inr, ==_iff,
}
use prometheus_cpp.Double.{Double, IsNumber, ◌≼◌, IsOrdered}
use prometheus_cpp.Core.Gauge
use prometheus_cpp.Core.Counter.{Counter, new_counter, increment, increment_by}
use prometheus_cpp.Core.Counter
use prometheus_cpp.Core.Histogram.{
  Histogram, make, lower_bound, increment_at, observe, increment_all, observe_multiple, reset,
}
use prometheus_cpp.Core.Histogram.Shape.{IsShaped, fresh, Call, run, run_keeps}

module _ {D : Type 0} ⦃d : Double D⦄ where
  -- Bucket `i` is the half-open interval that ends at boundary `i` and holds it: `v` is above every
  -- earlier boundary and not above this one. The last bucket has no end.
  abbrev pub InBucket : List D → ℕ → D → Type 0
  InBucket [] zero v = Unit
  InBucket [] (suc i) v = ⊥
  InBucket (b ∷ bs) zero v = v ≼ b
  InBucket (b ∷ bs) (suc i) v = (d.lt b v ≡ true) × InBucket bs i v

  lower_bound-InBucket :
      IsOrdered D
      → (bs : List D) (v : D) → All IsNumber bs
      → IsNumber v
      → InBucket bs (lower_bound bs v) v
  unfolding lower_bound
  lower_bound-InBucket o [] v n k = tt
  lower_bound-InBucket o (b ∷ bs) v n k =
      ground (arith, o.lt-not-le b v n.0 k, lower_bound-InBucket o bs v n.1 k)

  InBucket-unique :
      IsOrdered D
      → (bs : List D) (i : ℕ) (v : D) → All IsNumber bs
      → IsNumber v
      → InBucket bs i v
      → lower_bound bs v ≡ i
  unfolding lower_bound
  InBucket-unique o [] zero v n k h = refl
  InBucket-unique o [] (suc i) v n k h = absurd h
  InBucket-unique o (b ∷ bs) zero v n k h = ground (arith, o.lt-not-le b v n.0 k)
  InBucket-unique o (b ∷ bs) (suc i) v n k h = ground (arith, InBucket-unique o bs i v n.1 k h.1)

  get-increment_at :
      (cs : List (Counter D)) (i j : ℕ)
      → get_elem? (increment_at cs i) j
        ≡ (if j == i then Option.map increment (get_elem? cs j) else get_elem? cs j)
  unfolding increment_at
  get-increment_at [] i j = ground arith
  get-increment_at (c ∷ cs) zero zero = refl
  get-increment_at (c ∷ cs) zero (suc j) = ground arith
  get-increment_at (c ∷ cs) (suc i) zero = ground arith
  get-increment_at (c ∷ cs) (suc i) (suc j) = ground (arith, get-increment_at cs i j)

  -- An observation that is a number falls into exactly one bucket. `Observe` increments its counter by
  -- one, leaves every other counter and the boundaries alone, and adds the value to the sum.
  observe_lem :
      IsOrdered D
      → (h : Histogram D) (v : D) (i : ℕ) → All IsNumber h.bucket_boundaries
      → IsNumber v
      → InBucket h.bucket_boundaries i v
      → let h' = observe v h in
        ((j : ℕ)
          → get_elem? h'.bucket_counts j ≡ (
              if j == i
              then Option.map increment (get_elem? h.bucket_counts j)
              else get_elem? h.bucket_counts j))
        × (h'.bucket_boundaries ≡ h.bucket_boundaries)
        × (h'.sum.value ≡ d.add h.sum.value v)
        × ((k : ℕ) → InBucket h.bucket_boundaries k v → k ≡ i)
  unfolding observe Gauge.increment_by
  observe_lem o h v i n k b =
      let e = InBucket-unique o h.bucket_boundaries i v n k b in
      (
        λ j. rw (← e) (get-increment_at h.bucket_counts (lower_bound h.bucket_boundaries v) j),
        refl,
        refl,
        λ j c. sym (InBucket-unique o h.bucket_boundaries j v n k c) ∙ e,
      )

  get-increment_all :
      (cs : List (Counter D)) (vs : List D) (j : ℕ) {c : Counter D} {v : D}
      → get_elem? cs j ≡ some c
      → get_elem? vs j ≡ some v
      → get_elem? (increment_all cs vs) j ≡ some (increment_by v c)
  unfolding increment_all
  get-increment_all [] vs j p q = ground arith
  get-increment_all (c ∷ cs) [] j p q = ground arith
  get-increment_all (c ∷ cs) (v ∷ vs) zero p q = ground arith
  get-increment_all (c ∷ cs) (v ∷ vs) (suc j) p q = get-increment_all cs vs j p q

  -- `ObserveMultiple` throws exactly when the number of increments is not the number of buckets, and
  -- otherwise increments each counter by the amount at its index and the sum by the sum.
  pub observe_multiple_lem :
      (h : Histogram D) (vs : List D) (s : D)
      → ((length vs ≢ length h.bucket_counts) × (observe_multiple vs s h ≡ err length_error))
        ⊎ ((length vs ≡ length h.bucket_counts)
            × ((h' : Histogram D) × (observe_multiple vs s h ≡ ok h')
                × (h'.bucket_boundaries ≡ h.bucket_boundaries)
                × (h'.sum.value ≡ d.add h.sum.value s)
                × ((j : ℕ) (c : Counter D) (v : D)
                    → get_elem? h.bucket_counts j ≡ some c
                    → get_elem? vs j ≡ some v
                    → get_elem? h'.bucket_counts j ≡ some (increment_by v c))))
  unfolding observe_multiple Gauge.increment_by
  observe_multiple_lem h vs s = elim (Bool-cases (length vs == length h.bucket_counts)) [
    | inl e ↦ inr (
      (==_iff _ _).0 e,
      (
        record h {
          sum = Gauge.increment_by s h.sum;
          bucket_counts = increment_all h.bucket_counts vs;
        },
        rw e,
        refl,
        refl,
        λ j c v p q. get-increment_all h.bucket_counts vs j p q,
      ),
    )
    | inr e ↦ inl (λ q. ground (arith, ==_iff (length vs) (length h.bucket_counts)), rw e)
  ]

  map-reset : (cs : List (Counter D)) → map Counter.reset cs ≡ replicate (length cs) new_counter
  unfolding Counter.reset Gauge.set
  map-reset [] = refl
  map-reset (c ∷ cs) = ap (◌∷◌ new_counter) (map-reset cs)

  make-fresh : (bs : List D) (h : Histogram D) → make bs ≡ ok h → h ≡ fresh bs
  unfolding make
  make-fresh bs h e = ground arith

  reset_to :
      (h : Histogram D) (bs : List D) → h.bucket_boundaries ≡ bs → IsShaped h → reset h ≡ fresh bs
  unfolding reset Gauge.set
  reset_to h bs e s = ground (arith, map-reset h.bucket_counts)

  -- After any series of calls, failed ones included, `Reset` makes the histogram what its constructor
  -- made.
  reset-run :
      (calls : List (Call D)) (bs : List D) (h : Histogram D)
      → make bs ≡ ok h
      → reset (run calls h) ≡ h
  reset-run calls bs h e = rw (make-fresh bs h e) (
      let (bounds, shaped) = run_keeps calls (fresh bs) (length-replicate _ _) in
      reset_to (run calls (fresh bs)) bs bounds shaped)
