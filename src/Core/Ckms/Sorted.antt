-- ===== src/Core/Ckms/Sorted.antt =====
-- The samples stand in ascending order, as the binary search of `insertBatch` and the scan of `get` need.
use prometheus_cpp.Common.{
  ℕ, zero, suc, ◌+◌, ◌-◌, ◌<◌, ◌≡◌, refl, true, List, [], ◌∷◌, ◌++◌, append_assoc, length, set,
  take, drop, All, arith, ◌==◌, Bool-cases, inl, inr,
}
use prometheus_cpp.Double.{Double, IsNumber, ◌≼◌, IsOrdered}
use prometheus_cpp.Core.Ckms.{
  Quantile, Item, Ckms, insert_at, make, lower_bound, insert_value, insert_values, sort,
  insert_batch, compress_loop, compress_samples, compress, insert, get, reset,
}
use prometheus_cpp.Core.Ckms.History.{Call, inserts, gets, resets, perform, run}
use prometheus_cpp.Core.Ckms.Total.{insert_first-insert_values}
use prometheus_cpp.Core.Ckms.Weight.{IsWeighted, insert-IsWeighted, get-IsWeighted, make-IsWeighted}
use prometheus_cpp.Core.Ckms.Values.{
  AllValues, live_write, All-sort, AllValues-insert, AllValues-insert_batch, AllValues-compress,
}

module _ {D : Type 0} ⦃d : Double D⦄ where
  -- Every sample is a number, and none is above a later one.
  abbrev pub IsSorted : List (Item D) → Type 0
  IsSorted [] = Unit
  IsSorted (i ∷ is) = (IsNumber i.value × All (λ j. i.value ≼ j.value) is) × IsSorted is

  abbrev pub AboveAll : D → List (Item D) → Type 0
  AboveAll v is = All (λ j. v ≼ j.value) is

  pub above_trans :
      IsOrdered D → (v w : D) (is : List (Item D)) → v ≼ w → AboveAll w is → AboveAll v is
  above_trans o v w [] h a = tt
  above_trans o v w (i ∷ is) h a = (o.le_trans v w i.value h a.0, above_trans o v w is h a.1)

  above_insert_at :
      (v : D) (n : ℕ) (i : Item D) (is : List (Item D))
      → v ≼ i.value
      → AboveAll v is
      → AboveAll v (insert_at n i is)
  unfolding insert_at
  above_insert_at v zero i is h a = (h, a)
  above_insert_at v (suc n) i [] h a = (h, tt)
  above_insert_at v (suc n) i (j ∷ is) h a = (a.0, above_insert_at v n i is h a.1)

  pub lt_le : IsOrdered D → (v w : D) → d.lt v w ≡ true → v ≼ w
  lt_le o v w h =
      let (n, m) = o.numbers_of_lt v w h in ground (arith, o.lt-not-le v w n m, o.le_total v w n m)

  pub IsSorted-insert_at :
      IsOrdered D
      → (i : Item D) (is : List (Item D)) → IsNumber i.value
      → IsSorted is
      → IsSorted (insert_at (lower_bound is i.value) i is)
  unfolding insert_at lower_bound
  IsSorted-insert_at o i [] n s = ((n, tt), tt)
  IsSorted-insert_at o i (j ∷ is) n s = elim (Bool-cases (d.lt j.value i.value)) [
    | inl e ↦
        rw (e, insert_at)
          (
            (s.0.0, above_insert_at j.value _ i is (lt_le o j.value i.value e) s.0.1),
            IsSorted-insert_at o i is n s.1,
          )
    | inr e ↦
        let w : i.value ≼ j.value = ground (arith, o.lt-not-le j.value i.value s.0.0 n) in
        rw (e, insert_at) ((n, (w, above_trans o i.value j.value is w s.0.1)), s)
  ]

  IsSorted-insert_values :
      IsOrdered D
      → (vs : List D) (c : Ckms D) → All IsNumber vs
      → IsSorted c.sample
      → IsSorted (insert_values vs c).sample
  unfolding insert_values insert_value
  IsSorted-insert_values o [] c n s = s
  IsSorted-insert_values o (v ∷ vs) c n s =
      IsSorted-insert_values o vs _ n.1 (IsSorted-insert_at o _ c.sample n.0 s)

  above_drop :
      (v : D) (front : List (Item D)) (i j k : Item D) (rest : List (Item D))
      → k.value ≡ j.value
      → AboveAll v (front ++ i ∷ j ∷ rest)
      → AboveAll v (front ++ k ∷ rest)
  above_drop v [] i j k rest e a = (rw e a.1.0, a.1.1)
  above_drop v (f ∷ front) i j k rest e a = (a.0, above_drop v front i j k rest e a.1)

  -- Taking a sample out of the middle, when the next one takes its weight.
  IsSorted-drop :
      (front : List (Item D)) (i j k : Item D) (rest : List (Item D))
      → k.value ≡ j.value
      → IsSorted (front ++ i ∷ j ∷ rest)
      → IsSorted (front ++ k ∷ rest)
  IsSorted-drop [] i j k rest e s = rw e s.1
  IsSorted-drop (f ∷ front) i j k rest e s =
      ((s.0.0, above_drop f.value front i j k rest e s.0.1), IsSorted-drop front i j k rest e s.1)

  IsSorted-compress_loop :
      (qs : List (Quantile D)) (front : List (Item D)) (last : Item D) (n : ℕ)
      (rest : List (Item D))
      → IsSorted (front ++ last ∷ rest)
      → IsSorted (compress_loop qs front last n rest)
  unfolding compress_loop
  IsSorted-compress_loop qs front last n [] s = s
  IsSorted-compress_loop qs front last n (cur ∷ rest) s =
      let merged = record cur { g = last.g + cur.g } in
      ground (
        arith,
        IsSorted-compress_loop qs front merged (n - 1) rest
            (IsSorted-drop front last cur merged rest refl s),
        IsSorted-compress_loop qs (front ++ last ∷ []) cur n rest
            (rw (append_assoc front (last ∷ []) (cur ∷ rest)) s),
      )

  IsSorted-compress :
      (qs : List (Quantile D)) (is : List (Item D))
      → IsSorted is
      → IsSorted (compress_samples qs is)
  unfolding compress_samples
  IsSorted-compress qs [] s = s
  IsSorted-compress qs (i ∷ []) s = s
  IsSorted-compress qs (i ∷ j ∷ is) s = IsSorted-compress_loop qs [] i _ (j ∷ is) s

  abbrev pub Live : Ckms D → Type 0
  Live c = All IsNumber (take c.buffer_count c.buffer)

  IsSorted-insert_batch :
      IsOrdered D → (c : Ckms D) → Live c → IsSorted c.sample → IsSorted (insert_batch c).0.sample
  unfolding insert_batch
  IsSorted-insert_batch o c l s = elim (Bool-cases (c.buffer_count == 0)) [
    | inl e ↦ rw e s
    | inr e ↦
        let values = sort (take c.buffer_count c.buffer) in
        let c' = record c { buffer = values ++ drop c.buffer_count c.buffer } in
        rw (e, insert_first-insert_values values c')
          (IsSorted-insert_values o values c' (All-sort IsNumber _ l) s)
  ]

  IsSorted-insert :
      IsOrdered D
      → (v : D) (c : Ckms D) → IsNumber v
      → c.buffer_count < length c.buffer
      → Live c
      → IsSorted c.sample
      → IsSorted (insert v c).sample
  unfolding insert compress
  IsSorted-insert o v c n room l s =
      let c' = record c {
        buffer = set c.buffer c.buffer_count v;
        buffer_count = c.buffer_count + 1;
      } in
      elim (Bool-cases (c'.buffer_count == length c'.buffer)) [
        | inl e ↦ rw e (
            IsSorted-compress (insert_batch c').0.quantiles (insert_batch c').0.sample
              (IsSorted-insert_batch o c' (live_write IsNumber v c room n l) s))
        | inr e ↦ rw e s
      ]

  -- The amount of the call is no NaN.
  abbrev pub HasNumber : Call D → Type 0
  HasNumber (inserts v) = IsNumber v
  HasNumber (gets q) = Unit
  HasNumber resets = Unit

  -- What the calls keep: the numbers of `Holds`, numbers only, in order.
  abbrev pub Ordered : Ckms D → Type 0
  Ordered c = IsWeighted c × AllValues IsNumber c × IsSorted c.sample

  Ordered-insert :
      IsOrdered D → (v : D) (c : Ckms D) → IsNumber v → Ordered c → Ordered (insert v c)
  Ordered-insert o v c n (w, a, s) = (
    (insert-IsWeighted v w).0,
    AllValues-insert IsNumber v c (omega (arith, w.room, w.size)) n a,
    IsSorted-insert o v c n (omega (arith, w.room, w.size)) a.1 s,
  )

  pub Ordered-perform :
      IsOrdered D
      → (call : Call D) (c : Ckms D) → HasNumber call
      → Ordered c
      → Ordered (perform call c)
  unfolding perform
  Ordered-perform o (inserts v) c n k = Ordered-insert o v c n k
  Ordered-perform o (gets q) c n (w, a, s) = (
    (get-IsWeighted q w).0,
    unfold get in
        AllValues-compress IsNumber (insert_batch c).0 (AllValues-insert_batch IsNumber c a),
    unfold get compress in
        IsSorted-compress (insert_batch c).0.quantiles (insert_batch c).0.sample
          (IsSorted-insert_batch o c a.1 s),
  )
  Ordered-perform o resets c n (w, a, s) =
      unfold reset in
      (record { size = w.size; room = omega arith; weight = refl; positive = tt }, (tt, tt), tt)

  Ordered-run :
      IsOrdered D
      → (calls : List (Call D)) (c : Ckms D) → All HasNumber calls
      → Ordered c
      → Ordered (run calls c)
  unfolding run
  Ordered-run o [] c n k = k
  Ordered-run o (call ∷ calls) c n k =
      Ordered-run o calls (perform call c) n.1 (Ordered-perform o call c n.0 k)

  -- After any series of inserts of numbers, reads and resets the samples stand in ascending order.
  pub run-IsSorted :
      IsOrdered D
      → (qs : List (Quantile D)) (calls : List (Call D)) → All HasNumber calls
      → IsSorted (run calls (make qs)).sample
  run-IsSorted o qs calls n =
      (Ordered-run o calls (make qs) n
        (make-IsWeighted qs, unfold make in (tt, tt), unfold make in tt)).2
