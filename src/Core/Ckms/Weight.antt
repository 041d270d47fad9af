-- ===== src/Core/Ckms/Weight.antt =====
-- The weights of the samples: they add up to the number of values, through every call.
use prometheus_cpp.Common.{
  ℕ, ◌+◌, ◌≤◌, ◌<◌, ◌≡◌, refl, ap, ◌∙◌, List, [], ◌∷◌, ◌++◌, length, set, take, drop, length-append,
  length-set, length-take, length-replicate, take-append-drop, All, arith, ◌==◌, Bool-cases, inl,
  inr,
}
use prometheus_cpp.Double.{Double, zero_value}
use prometheus_cpp.Core.Ckms.{
  Quantile, Ckms, buffer_size, make, sort, insert_batch, compress, insert, get, reset,
}
use prometheus_cpp.Core.Ckms.History.{Call, inserts, gets, resets, perform, run, seen}
use prometheus_cpp.Core.Ckms.Total.{
  total, HasWeight, length-sort, insert_values-Grows, insert_first-insert_values, total-compress,
  HasWeight-compress,
}

-- The state's numbers agree: the buffer is an array of 500 with room for a value, and the weights, which are
-- positive, add up to the count.
module _ {D : Type 0} where
  pub record IsWeighted (c : Ckms D) : Type 0 where
    pub size : length c.buffer ≡ buffer_size
    pub room : c.buffer_count < buffer_size
    pub weight : total c.sample ≡ c.count
    pub positive : All HasWeight c.sample

module _ {D : Type 0} ⦃d : Double D⦄ where
  compress-IsWeighted : {c : Ckms D} → IsWeighted c → IsWeighted (compress c)
  unfolding compress
  compress-IsWeighted {c} w = record {
    size = w.size;
    room = w.room;
    weight = total-compress c.quantiles c.sample ∙ w.weight;
    positive = HasWeight-compress c.quantiles c.sample w.positive;
  }

  length-take_all : (n : ℕ) (xs : List D) → n ≤ length xs → length (take n xs) ≡ n
  length-take_all n xs h = omega (arith, length-take n xs)

  length-batch :
      (n : ℕ) (xs : List D) → n ≤ length xs → length (sort (take n xs) ++ drop n xs) ≡ length xs
  length-batch n xs h = omega (
    arith,
    length-append (sort (take n xs)) (drop n xs),
    length-sort (take n xs),
    length-append (take n xs) (drop n xs),
    ap length (take-append-drop n xs),
  )

  -- The batch empties the buffer into the samples. A full buffer is allowed here.
  insert_batch-IsWeighted :
      (c : Ckms D)
      → length c.buffer ≡ buffer_size
      → c.buffer_count ≤ buffer_size
      → total c.sample ≡ c.count
      → All HasWeight c.sample
      → let c' = (insert_batch c).0 in
        IsWeighted c' × (c'.count ≡ c.count + c.buffer_count) × (c'.buffer_count ≡ 0)
  unfolding insert_batch
  insert_batch-IsWeighted c size room weight positive = elim (Bool-cases (c.buffer_count == 0)) [
    | inl e ↦ ground arith
    | inr e ↦
        let values = sort (take c.buffer_count c.buffer) in
        let b = record c { buffer = values ++ drop c.buffer_count c.buffer } in
        let g = insert_values-Grows values b in
        let n =
          length-sort (take c.buffer_count c.buffer)
          ∙ length-take_all c.buffer_count c.buffer (omega arith) in
        let l = length-batch c.buffer_count c.buffer (omega arith) in
        rw (e, insert_batch, insert_first-insert_values values b)
          (
            record {
              size = ap length g.same_buffer ∙ l ∙ size;
              room = omega arith;
              weight = omega (arith, g.weighed, g.counted);
              positive = g.kept positive;
            },
            omega (arith, g.counted),
            refl,
          )
  ]

  pub insert-IsWeighted :
      {c : Ckms D} (v : D)
      → IsWeighted c
      → IsWeighted (insert v c)
        × ((insert v c).count + (insert v c).buffer_count ≡ c.count + c.buffer_count + 1)
  unfolding insert compress
  insert-IsWeighted {c} v w =
      let b = record c {
        buffer = set c.buffer c.buffer_count v;
        buffer_count = c.buffer_count + 1;
      } in
      let l = length-set c.buffer c.buffer_count v ∙ w.size in
      let (full, counted, empty) =
        insert_batch-IsWeighted b l (omega (arith, w.room)) w.weight w.positive in
      elim (Bool-cases (b.buffer_count == length b.buffer)) [
        | inl e ↦ rw e (compress-IsWeighted full, omega (arith, counted, empty))
        | inr e ↦ rw e (
          record {
            size = l;
            room = ground (arith, w.room);
            weight = w.weight;
            positive = w.positive;
          },
          omega arith,
        )
      ]

  pub make-IsWeighted : (qs : List (Quantile D)) → IsWeighted (make qs)
  unfolding make
  make-IsWeighted qs = record {
    size = length-replicate {A = D} buffer_size zero_value;
    room = omega arith;
    weight = refl;
    positive = tt;
  }

  pub get-IsWeighted :
      {c : Ckms D} (q : D)
      → IsWeighted c
      → IsWeighted (get q c).1
        × ((get q c).1.count ≡ c.count + c.buffer_count)
        × ((get q c).1.buffer_count ≡ 0)
  unfolding get compress
  get-IsWeighted {c} q w =
      let (full, counted, empty) =
        insert_batch-IsWeighted c w.size (omega (arith, w.room)) w.weight w.positive in
      (compress-IsWeighted full, counted, empty)

  -- A state that holds a number of values, in its samples and its buffer.
  abbrev pub Holds : ℕ → Ckms D → Type 0
  Holds n c = IsWeighted c × (c.count + c.buffer_count ≡ n)

  perform-Holds :
      (call : Call D) (before : List D) (c : Ckms D)
      → Holds (length before) c
      → Holds (length (seen before (call ∷ []))) (perform call c)
  unfolding perform
  perform-Holds (inserts v) before c (w, n) =
      let (w', n') = insert-IsWeighted v w in (w', omega (arith, n, n'))
  perform-Holds (gets q) before c (w, n) =
      let (w', n', e) = get-IsWeighted q w in (w', omega (arith, n, n', e))
  perform-Holds resets before c (w, n) =
      unfold reset in
      (record { size = w.size; room = omega arith; weight = refl; positive = tt }, omega arith)

  pub run-Holds_from :
      (calls : List (Call D)) (before : List D) (c : Ckms D)
      → Holds (length before) c
      → Holds (length (seen before calls)) (run calls c)
  unfolding run
  run-Holds_from [] before c h = h
  run-Holds_from (inserts v ∷ calls) before c h =
      run-Holds_from calls (v ∷ before) _ (perform-Holds (inserts v) before c h)
  run-Holds_from (gets q ∷ calls) before c h =
      run-Holds_from calls before _ (perform-Holds (gets q) before c h)
  run-Holds_from (resets ∷ calls) before c h =
      run-Holds_from calls [] _ (perform-Holds resets before c h)

  -- After any series of inserts, reads and resets, the buffer has room for a value, every sample's weight is
  -- positive, the weights add up to `count_`, and with the values still in the buffer that is the number
  -- of values inserted since the last reset.
  pub run-Holds :
      (qs : List (Quantile D)) (calls : List (Call D))
      → IsWeighted (run calls (make qs))
        × ((run calls (make qs)).count + (run calls (make qs)).buffer_count
            ≡ length (seen [] calls))
  run-Holds qs calls =
      run-Holds_from calls [] (make qs) (make-IsWeighted qs, unfold make in omega arith)
