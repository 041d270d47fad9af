-- ===== src/Core/Counter/Monotone.antt =====
-- A counter under a series of increments.
use prometheus_cpp.Common.{◌≡◌, true, false, List, [], ◌∷◌, arith, All, Bool-cases, inl, inr}
use prometheus_cpp.Double.{Double, IsNumber, ◌≼◌, zero_value, IsOrdered, IsExact, IsMonotone}
use prometheus_cpp.Core.Counter.{Counter, increment, increment_by, value}

-- `Increment()` and `Increment(val)`.
pub data Call (D : Type 0) : Type 0 where
  plain : Call D
  by : D → Call D

module _ {D : Type 0} ⦃d : Double D⦄ where
  pub perform : Call D → Counter D → Counter D
  unfolding increment increment_by
  perform plain c = increment c
  perform (by v) c = increment_by v c

  unfoldable pub run : List (Call D) → Counter D → Counter D
  unfolding perform
  run [] c = c
  run (call ∷ calls) c = run calls (perform call c)

  -- The amount of the call is no NaN.
  abbrev pub HasNumber : Call D → Type 0
  HasNumber plain = Unit
  HasNumber (by v) = IsNumber v

  not_negative :
      IsOrdered D → IsExact D → (v : D) → IsNumber v → d.lt v zero_value ≡ false → zero_value ≼ v
  not_negative o x v n e =
      ground (arith, o.lt-not-le v zero_value n (x.of_uint_order 0 0 (omega arith)))

  module _ (o : IsOrdered D) (x : IsExact D) (m : IsMonotone D) where
    perform-grows :
        (call : Call D) (c : Counter D)
        → HasNumber call
        → zero_value ≼ value c
        → value c ≼ value (perform call c)
    unfolding perform increment increment_by
    perform-grows plain c n h =
        m.le-add (value c) (d.of_uint 1) h (x.of_uint_order 0 1 (omega arith))
    perform-grows (by v) c n h = elim (Bool-cases (d.lt v zero_value)) [
      | inl e ↦ rw e ((o.numbers_of_le _ _ h).1)
      | inr e ↦ rw e (m.le-add (value c) v h (not_negative o x v n e))
    ]

    -- A counter that starts at zero or above never decreases, whatever amounts it is incremented by, negative
    -- ones included, as long as none is NaN; and it stays at zero or above.
    pub run-grows :
        (calls : List (Call D)) (c : Counter D)
        → All HasNumber calls
        → zero_value ≼ value c
        → (value c ≼ value (run calls c)) × (zero_value ≼ value (run calls c))
    unfolding run
    run-grows [] c n h = ((o.numbers_of_le _ _ h).1, h)
    run-grows (call ∷ calls) c n h =
        let step = perform-grows call c n.0 h in
        let (grows, above) = run-grows calls (perform call c) n.1 (o.le_trans _ _ _ h step) in
        (o.le_trans _ _ _ step grows, above)

  perform-nan :
      IsMonotone D
      → (call : Call D) (c : Counter D) → d.is_nan (value c) ≡ true
      → d.is_nan (value (perform call c)) ≡ true
  unfolding perform increment increment_by
  perform-nan m plain c h = m.nan-add (value c) (d.of_uint 1) h
  perform-nan m (by v) c h = ground (arith, m.nan-add (value c) v)

  run_keeps_nan :
      IsMonotone D
      → (calls : List (Call D)) (c : Counter D) → d.is_nan (value c) ≡ true
      → d.is_nan (value (run calls c)) ≡ true
  unfolding run
  run_keeps_nan m [] c h = h
  run_keeps_nan m (call ∷ calls) c h =
      run_keeps_nan m calls (perform call c) (perform-nan m call c h)

  added_nan :
      IsMonotone D
      → (v : D) (c : Counter D) → d.is_nan v ≡ true
      → d.is_nan (value (perform (by v) c)) ≡ true
  unfolding perform increment_by
  added_nan m v c h = ground (arith, m.nan_unordered v zero_value h, m.add-nan (value c) v h)

  -- Once NaN has been added, only a reset takes a counter back to a number: `Increment` tests for
  -- negative amounts alone.
  pub run-nan :
      IsMonotone D
      → (v : D) (calls : List (Call D)) (c : Counter D) → d.is_nan v ≡ true
      → d.is_nan (value (run (by v ∷ calls) c)) ≡ true
  unfolding run
  run-nan m v calls c h = run_keeps_nan m calls (perform (by v) c) (added_nan m v c h)
