-- ===== src/Core/Histogram/Shape.antt =====
-- A histogram has one bucket more than boundaries, through every call.
use prometheus_cpp.Common.{
  ℕ, zero, suc, ◌+◌, ◌≤◌, ◌≡◌, ◌↔◌, refl, sym, ap, ◌∙◌, true, List, [], ◌∷◌, ◌++◌, arith, length,
  replicate, length-map, length-replicate, All, Result, ok, err, Bool-cases, inl, inr,
}
use prometheus_cpp.Double.{Double, IsNumber, IsOrdered}
use prometheus_cpp.Core.Counter.{Counter, increment, new_counter}
use prometheus_cpp.Core.Gauge.{new_gauge}
use prometheus_cpp.Core.Histogram.{
  Histogram, is_strict_sorted, make, lower_bound, increment_at, observe, increment_all,
  observe_multiple, reset,
}

module _ {D : Type 0} ⦃d : Double D⦄ where
  abbrev pub IsShaped : Histogram D → Type 0
  IsShaped h = length h.bucket_counts ≡ length h.bucket_boundaries + 1

  -- Each boundary is below the next.
  abbrev pub IsIncreasing : List D → Type 0
  IsIncreasing [] = Unit
  IsIncreasing (a ∷ []) = Unit
  IsIncreasing (a ∷ b ∷ rest) = (d.lt a b ≡ true) × IsIncreasing (b ∷ rest)

  pub sorted_iff :
      IsOrdered D → (bs : List D) → All IsNumber bs → (is_strict_sorted bs ≡ true) ↔ IsIncreasing bs
  unfolding is_strict_sorted
  sorted_iff o [] n = ground arith
  sorted_iff o (a ∷ []) n = ground arith
  sorted_iff o (a ∷ b ∷ bs) n = ground (arith, sorted_iff o (b ∷ bs) n.1, o.lt-not-le a b n.0 n.1.0)

  -- What the constructors make.
  abbrev pub fresh : List D → Histogram D
  fresh bs = record {
    bucket_boundaries = bs;
    bucket_counts = replicate (length bs + 1) new_counter;
    sum = new_gauge;
  }

  -- The constructor accepts boundaries that are numbers exactly when they increase, and then makes a
  -- histogram with these boundaries and one bucket more.
  make_iff :
      IsOrdered D
      → (bs : List D) → All IsNumber bs
      → ((h : Histogram D) × (make bs ≡ ok h) × (h.bucket_boundaries ≡ bs) × IsShaped h)
        ↔ IsIncreasing bs
  unfolding make
  make_iff o bs n = elim (Bool-cases (is_strict_sorted bs)) [
    | inl e ↦ (λ _. (sorted_iff o bs n).0 e, λ _. (fresh bs, rw e, refl, length-replicate _ _))
    | inr e ↦ ground (arith, sorted_iff o bs n)
  ]

  -- The bucket of an observation exists.
  pub lower_bound-le : (bs : List D) (v : D) → lower_bound bs v ≤ length bs
  unfolding lower_bound
  lower_bound-le [] v = omega arith
  lower_bound-le (b ∷ bs) v = ground (arith, lower_bound-le bs v)

  length-increment_at : (cs : List (Counter D)) (i : ℕ) → length (increment_at cs i) ≡ length cs
  unfolding increment_at
  length-increment_at [] i = refl
  length-increment_at (c ∷ cs) zero = refl
  length-increment_at (c ∷ cs) (suc i) = ap suc (length-increment_at cs i)

  length-increment_all :
      (cs : List (Counter D)) (vs : List D) → length (increment_all cs vs) ≡ length cs
  unfolding increment_all
  length-increment_all [] vs = refl
  length-increment_all (c ∷ cs) [] = refl
  length-increment_all (c ∷ cs) (v ∷ vs) = ap suc (length-increment_all cs vs)

-- The calls that change a histogram.
pub data Call (D : Type 0) : Type 0 where
  observes : D → Call D
  observes_multiple : List D → D → Call D
  resets : Call D

module _ {D : Type 0} ⦃d : Double D⦄ where
  -- A call that throws leaves the histogram as it was.
  abbrev after : Histogram D → Result (Histogram D) → Histogram D
  after h (ok h') = h'
  after h (err e) = h

  pub perform : Call D → Histogram D → Histogram D
  unfolding observe observe_multiple reset
  perform (observes v) h = observe v h
  perform (observes_multiple vs s) h = after h (observe_multiple vs s h)
  perform resets h = reset h

  unfoldable pub run : List (Call D) → Histogram D → Histogram D
  unfolding perform
  run [] h = h
  run (call ∷ calls) h = run calls (perform call h)

  perform_keeps :
      (call : Call D) (h : Histogram D)
      → ((perform call h).bucket_boundaries ≡ h.bucket_boundaries)
        × (length (perform call h).bucket_counts ≡ length h.bucket_counts)
  unfolding perform observe observe_multiple reset
  perform_keeps (observes v) h = (refl, length-increment_at _ _)
  perform_keeps (observes_multiple vs s) h = ground (arith, length-increment_all h.bucket_counts vs)
  perform_keeps resets h = (refl, length-map _ _)

  pub run_keeps :
      (calls : List (Call D)) (h : Histogram D)
      → IsShaped h
      → ((run calls h).bucket_boundaries ≡ h.bucket_boundaries) × IsShaped (run calls h)
  unfolding run
  run_keeps [] h s = (refl, s)
  run_keeps (call ∷ calls) h s =
      let (bounds, size) = perform_keeps call h in
      let (b, q) =
        run_keeps calls (perform call h) (size ∙ s ∙ ap (λ l. length l + 1) (sym bounds)) in
      (b ∙ bounds, q)

  -- The counter in front of which `i` others stand is incremented, and the others are as they were.
  pub record IncrementedAt (i : ℕ) (before after : List (Counter D)) : Type 0 where
    pub front : List (Counter D)
    pub counter : Counter D
    pub back : List (Counter D)
    pub place : length front ≡ i
    pub was : before ≡ front ++ counter ∷ back
    pub is_now : after ≡ front ++ increment counter ∷ back
