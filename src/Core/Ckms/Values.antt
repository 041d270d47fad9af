-- ===== src/Core/Ckms/Values.antt =====
-- The values of the samples: every one was inserted, and a read returns one of them.
use mathlib.Core.Path.{subst}
use mathlib.Core.List.{cons-ne-nil}
use native.Mathlib.Numerals.{add-one}
use prometheus_cpp.Common.{
  ℕ, zero, suc, ◌+◌, ◌-◌, ◌<◌, ◌≡◌, ◌≢◌, ◌⊎◌, inl, inr, refl, ap, List, [], ◌∷◌, ◌++◌, length, set,
  take, drop, All, All-append, All-mono, arith, ◌==◌, Bool-cases,
}
use prometheus_cpp.Double.{Double}
use prometheus_cpp.Core.Ckms.{
  Quantile, Item, Ckms, insert_at, make, insert_sorted, sort, insert_value, insert_values,
  insert_batch, compress_loop, compress_samples, compress, insert, scan, get, read, reset,
}
use prometheus_cpp.Core.Ckms.History.{Call, inserts, gets, resets, perform, run, seen}
use prometheus_cpp.Core.Ckms.Total.{total, HasWeight, insert_first-insert_values}
use prometheus_cpp.Core.Ckms.Weight.{Holds, run-Holds_from, run-Holds, get-IsWeighted}

abbrev pub In : {A : Type 0} → A → List A → Type 0
In x [] = ⊥
In x (y ∷ ys) = (x ≡ y) ⊎ In x ys

pub take-set :
    {A : Type 0} (n : ℕ) (xs : List A) (v : A)
    → n < length xs
    → take (suc n) (set xs n v) ≡ take n xs ++ v ∷ []
take-set n [] v h = absurd (omega arith)
take-set zero (x ∷ xs) v h = refl
take-set (suc n) (x ∷ xs) v h = ap (◌∷◌ x) (take-set n xs v (omega arith))

-- A property of values that the samples and the live part of the buffer keep.
module _ {D : Type 0} ⦃d : Double D⦄ (P : D → Type 0) where
  abbrev pub Sampled : List (Item D) → Type 0
  Sampled = All (λ i. P i.value)

  abbrev pub AllValues : Ckms D → Type 0
  AllValues c = Sampled c.sample × All P (take c.buffer_count c.buffer)

  All-insert_sorted : (x : D) (ys : List D) → P x → All P ys → All P (insert_sorted x ys)
  unfolding insert_sorted
  All-insert_sorted x [] h a = (h, tt)
  All-insert_sorted x (y ∷ ys) h a = ground (arith, All-insert_sorted x ys h a.1)

  pub All-sort : (xs : List D) → All P xs → All P (sort xs)
  unfolding sort
  All-sort [] a = tt
  All-sort (x ∷ xs) a = All-insert_sorted x (sort xs) a.0 (All-sort xs a.1)

  Sampled-insert_at :
      (n : ℕ) (i : Item D) (is : List (Item D))
      → P i.value
      → Sampled is
      → Sampled (insert_at n i is)
  unfolding insert_at
  Sampled-insert_at zero i is h a = (h, a)
  Sampled-insert_at (suc n) i [] h a = (h, tt)
  Sampled-insert_at (suc n) i (j ∷ is) h a = (a.0, Sampled-insert_at n i is h a.1)

  Sampled-insert_values :
      (vs : List D) (c : Ckms D) → All P vs → Sampled c.sample → Sampled (insert_values vs c).sample
  unfolding insert_values insert_value
  Sampled-insert_values [] c h a = a
  Sampled-insert_values (v ∷ vs) c h a =
      Sampled-insert_values vs _ h.1 (Sampled-insert_at _ _ c.sample h.0 a)

  pub AllValues-insert_batch : (c : Ckms D) → AllValues c → AllValues (insert_batch c).0
  unfolding insert_batch
  AllValues-insert_batch c (s, b) = elim (Bool-cases (c.buffer_count == 0)) [
    | inl e ↦ rw e (s, b)
    | inr e ↦
        let values = sort (take c.buffer_count c.buffer) in
        let c' = record c { buffer = values ++ drop c.buffer_count c.buffer } in
        rw (e, insert_first-insert_values values c')
          (Sampled-insert_values values c' (All-sort _ b) s, tt)
  ]

  Sampled-compress_loop :
      (qs : List (Quantile D)) (front : List (Item D)) (last : Item D) (n : ℕ)
      (rest : List (Item D))
      → Sampled front
      → P last.value
      → Sampled rest
      → Sampled (compress_loop qs front last n rest)
  unfolding compress_loop
  Sampled-compress_loop qs front last n [] f l r = All-append _ front (last ∷ []) f (l, tt)
  Sampled-compress_loop qs front last n (cur ∷ rest) f l r = ground (
    arith,
    Sampled-compress_loop qs front (record cur { g = last.g + cur.g }) (n - 1) rest f r.0 r.1,
    Sampled-compress_loop qs (front ++ last ∷ []) cur n rest
        (All-append (λ i. P i.value) front (last ∷ []) f (l, tt)) r.0 r.1,
  )

  Sampled-compress :
      (qs : List (Quantile D)) (is : List (Item D)) → Sampled is → Sampled (compress_samples qs is)
  unfolding compress_samples
  Sampled-compress qs [] h = h
  Sampled-compress qs (i ∷ []) h = h
  Sampled-compress qs (i ∷ j ∷ is) h = Sampled-compress_loop qs [] i _ (j ∷ is) tt h.0 h.1

  pub AllValues-compress : (c : Ckms D) → AllValues c → AllValues (compress c)
  unfolding compress
  AllValues-compress c (s, b) = (Sampled-compress c.quantiles c.sample s, b)

  -- A value written behind the live part of the buffer.
  pub live_write :
      (v : D) (c : Ckms D)
      → c.buffer_count < length c.buffer
      → P v
      → All P (take c.buffer_count c.buffer)
      → All P (take (c.buffer_count + 1) (set c.buffer c.buffer_count v))
  live_write v c room h b =
      rw (add-one, take-set c.buffer_count c.buffer v room)
        (All-append P (take c.buffer_count c.buffer) (v ∷ []) b (h, tt))

  pub AllValues-insert :
      (v : D) (c : Ckms D)
      → c.buffer_count < length c.buffer
      → P v
      → AllValues c
      → AllValues (insert v c)
  unfolding insert
  AllValues-insert v c room h (s, b) =
      let c' = record c {
        buffer = set c.buffer c.buffer_count v;
        buffer_count = c.buffer_count + 1;
      } in
      let live = live_write v c room h b in
      elim (Bool-cases (c'.buffer_count == length c'.buffer)) [
        | inl e ↦
            rw e (AllValues-compress (insert_batch c').0 (AllValues-insert_batch c' (s, live)))
        | inr e ↦ rw e (s, live)
      ]

  P-scan :
      (bound : D) (prev : Item D) (rank : ℕ) (rest : List (Item D))
      → P prev.value
      → Sampled rest
      → P (scan bound prev rank rest)
  unfolding scan
  P-scan bound prev rank [] h a = h
  P-scan bound prev rank (cur ∷ rest) h a =
      ground (arith, P-scan bound cur (rank + prev.g) rest a.0 a.1)

  P-read :
      (q : D) (c : Ckms D) (is : List (Item D))
      → c.sample ≡ is
      → is ≢ []
      → Sampled is
      → P (read q c)
  unfolding read
  P-read q c [] e n a = absurd (n refl)
  P-read q c (i ∷ is) e n a = rw (e, read) (P-scan _ i 0 is a.0 a.1)

module _ {D : Type 0} ⦃d : Double D⦄ where
  -- A state that holds exactly as many values as were inserted, each of them one of those.
  abbrev pub Keeps : List D → Ckms D → Type 0
  Keeps before c = Holds (length before) c × AllValues (λ x. In x before) c

  pub Keeps-insert :
      (v : D) (before : List D) (c : Ckms D) → Keeps before c → Keeps (v ∷ before) (insert v c)
  Keeps-insert v before c (h, (s, b)) = (
    unfold run perform in run-Holds_from (inserts v ∷ []) before c h,
    AllValues-insert (λ x. In x (v ∷ before)) v c (omega (arith, h.0.room, h.0.size)) (inl refl)
        (
          All-mono _ _ c.sample (λ i p. inr p) s,
          All-mono _ _ (take c.buffer_count c.buffer) (λ x p. inr p) b,
        ),
  )

  pub Keeps-get : (q : D) (before : List D) (c : Ckms D) → Keeps before c → Keeps before (get q c).1
  Keeps-get q before c (h, a) = (
    unfold run perform in run-Holds_from (gets q ∷ []) before c h,
    unfold get in
        AllValues-compress (λ x. In x before) (insert_batch c).0
          (AllValues-insert_batch (λ x. In x before) c a),
  )

  pub Keeps-reset : (before : List D) (c : Ckms D) → Keeps before c → Keeps [] (reset c)
  Keeps-reset before c (h, a) =
      (unfold run perform in run-Holds_from (resets ∷ []) before c h, unfold reset in (tt, tt))

  run-Keeps :
      (calls : List (Call D)) (before : List D) (c : Ckms D)
      → Keeps before c
      → Keeps (seen before calls) (run calls c)
  unfolding run perform
  run-Keeps [] before c k = k
  run-Keeps (inserts v ∷ calls) before c k =
      run-Keeps calls (v ∷ before) _ (Keeps-insert v before c k)
  run-Keeps (gets q ∷ calls) before c k = run-Keeps calls before _ (Keeps-get q before c k)
  run-Keeps (resets ∷ calls) before c k = run-Keeps calls [] _ (Keeps-reset before c k)

  pub Keeps-make : (qs : List (Quantile D)) → Keeps [] (make qs)
  unfolding make run
  Keeps-make qs = (run-Holds qs [], (tt, tt))

  read-Keeps :
      (q : D) (before : List D) (c : Ckms D) (is : List (Item D))
      → c.sample ≡ is
      → c.buffer_count ≡ 0
      → Keeps before c
      → ((before ≡ []) × (read q c ≡ d.quiet_nan)) ⊎ In (read q c) before
  read-Keeps q [] c [] e z k = inl (refl, unfold read in rw (e, read))
  read-Keeps q [] c (i ∷ is) e z ((w, n), a) =
      absurd (omega (arith, ap total e, w.weight, n, (subst (All HasWeight) e w.positive).0))
  read-Keeps q (v ∷ before) c [] e z ((w, n), a) = absurd (omega (arith, ap total e, w.weight, n))
  read-Keeps q (v ∷ before) c (i ∷ is) e z (h, (s, b)) = inr (
      P-read (λ x. In x (v ∷ before)) q c (i ∷ is) e (cons-ne-nil i is)
        (subst (All (λ j. In j.value (v ∷ before))) e s))

  -- A read of such a state.
  pub read_of-Keeps :
      (q : D) (before : List D) (c : Ckms D)
      → Keeps before c
      → ((before ≡ []) × ((get q c).0 ≡ d.quiet_nan)) ⊎ In (get q c).0 before
  unfolding get
  read_of-Keeps q before c k =
      let c' = compress (insert_batch c).0 in
      read-Keeps q before c' c'.sample refl (get-IsWeighted q k.0.0).2 (Keeps-get q before c k)

  -- After any series of calls, a read gives NaN if nothing was inserted since the last reset, and
  -- otherwise a value that was.
  pub get-run :
      (qs : List (Quantile D)) (calls : List (Call D)) (q : D)
      → ((seen [] calls ≡ []) × ((get q (run calls (make qs))).0 ≡ d.quiet_nan))
        ⊎ In (get q (run calls (make qs))).0 (seen [] calls)
  get-run qs calls q =
      read_of-Keeps q (seen [] calls) (run calls (make qs))
        (run-Keeps calls [] (make qs) (Keeps-make qs))
