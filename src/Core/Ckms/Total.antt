-- ===== src/Core/Ckms/Total.antt =====
-- The weights of the samples, through each step of inserting and compressing.
use native.Mathlib.Numerals.{one-add}
use prometheus_cpp.Common.{
  ℕ, zero, suc, ◌+◌, ◌-◌, ◌<◌, ◌≡◌, refl, ap, ◌∙◌, List, [], ◌∷◌, ◌++◌, length, All, All-append,
  arith,
}
use prometheus_cpp.Double.{Double}
use prometheus_cpp.Core.Ckms.{
  Quantile, Item, Ckms, insert_at, insert_sorted, sort, insert_value, insert_values, insert_first,
  lower_bound, new_delta, compress_loop, compress_samples,
}

module _ {D : Type 0} where
  abbrev pub total : List (Item D) → ℕ
  total [] = 0
  total (i ∷ is) = i.g + total is

  abbrev pub HasWeight : Item D → Type 0
  HasWeight i = 0 < i.g

  pub total-append : (xs ys : List (Item D)) → total (xs ++ ys) ≡ total xs + total ys
  total-append [] ys = omega arith
  total-append (x ∷ xs) ys = omega (arith, total-append xs ys)

  total-insert_at :
      (n : ℕ) (i : Item D) (is : List (Item D)) → total (insert_at n i is) ≡ i.g + total is
  unfolding insert_at
  total-insert_at zero i is = refl
  total-insert_at (suc n) i [] = refl
  total-insert_at (suc n) i (j ∷ is) = omega (arith, total-insert_at n i is)

  HasWeight-insert_at :
      (n : ℕ) (i : Item D) (is : List (Item D))
      → HasWeight i
      → All HasWeight is
      → All HasWeight (insert_at n i is)
  unfolding insert_at
  HasWeight-insert_at zero i is h a = (h, a)
  HasWeight-insert_at (suc n) i [] h a = (h, tt)
  HasWeight-insert_at (suc n) i (j ∷ is) h a = (a.0, HasWeight-insert_at n i is h a.1)

module _ {D : Type 0} ⦃d : Double D⦄ where
  length-insert_sorted : (x : D) (ys : List D) → length (insert_sorted x ys) ≡ suc (length ys)
  unfolding insert_sorted
  length-insert_sorted x [] = refl
  length-insert_sorted x (y ∷ ys) = ground (arith, length-insert_sorted x ys)

  pub length-sort : (xs : List D) → length (sort xs) ≡ length xs
  unfolding sort
  length-sort [] = refl
  length-sort (x ∷ xs) = length-insert_sorted x (sort xs) ∙ ap suc (length-sort xs)

  total-insert_value :
      (qs : List (Quantile D)) (v : D) (is : List (Item D))
      → total (insert_value qs v is) ≡ suc (total is)
  unfolding insert_value
  total-insert_value qs v is = total-insert_at _ _ is ∙ one-add (total is)

  HasWeight-insert_value :
      (qs : List (Quantile D)) (v : D) (is : List (Item D))
      → All HasWeight is
      → All HasWeight (insert_value qs v is)
  unfolding insert_value
  HasWeight-insert_value qs v is h = HasWeight-insert_at _ _ is (omega arith) h

  -- What inserting some values does to the numbers.
  pub record Grows (n : ℕ) (c c' : Ckms D) : Type 0 where
    pub counted : c'.count ≡ c.count + n
    pub weighed : total c'.sample ≡ total c.sample + n
    pub kept : All HasWeight c.sample → All HasWeight c'.sample
    pub same_buffer : c'.buffer ≡ c.buffer

  pub insert_values-Grows : (vs : List D) (c : Ckms D) → Grows (length vs) c (insert_values vs c)
  unfolding insert_values
  insert_values-Grows [] c = record {
    counted = omega arith;
    weighed = omega arith;
    kept = λ h. h;
    same_buffer = refl;
  }
  insert_values-Grows (v ∷ vs) c =
      let c' = record c { sample = insert_value c.quantiles v c.sample; count = c.count + 1 } in
      let r = insert_values-Grows vs c' in
      record {
        counted = omega (arith, r.counted);
        weighed = omega (arith, r.weighed, total-insert_value c.quantiles v c.sample);
        kept = λ h. r.kept (HasWeight-insert_value c.quantiles v c.sample h);
        same_buffer = r.same_buffer;
      }

  first_of_empty :
      (v : D) (vs : List D) (c : Ckms D) (is : List (Item D))
      → c.sample ≡ is
      → insert_first (v ∷ vs) c ≡ insert_values (v ∷ vs) c
  unfolding insert_first insert_values insert_value lower_bound new_delta insert_at
  first_of_empty v vs c [] e = ground arith
  first_of_empty v vs c (i ∷ is) e = ground arith

  -- The first value of an empty sample set is no special case.
  pub insert_first-insert_values :
      (vs : List D) (c : Ckms D) → insert_first vs c ≡ insert_values vs c
  insert_first-insert_values [] c = unfold insert_first insert_values in refl
  insert_first-insert_values (v ∷ vs) c = first_of_empty v vs c c.sample refl

  total-compress_loop :
      (qs : List (Quantile D)) (front : List (Item D)) (last : Item D) (n : ℕ)
      (rest : List (Item D))
      → total (compress_loop qs front last n rest) ≡ total front + last.g + total rest
  unfolding compress_loop
  total-compress_loop qs front last n [] = omega (arith, total-append front (last ∷ []))
  total-compress_loop qs front last n (cur ∷ rest) = ground (
    arith,
    total-append front (last ∷ []),
    total-compress_loop qs front (record cur { g = last.g + cur.g }) (n - 1) rest,
    total-compress_loop qs (front ++ last ∷ []) cur n rest,
  )

  HasWeight-compress_loop :
      (qs : List (Quantile D)) (front : List (Item D)) (last : Item D) (n : ℕ)
      (rest : List (Item D))
      → All HasWeight front
      → HasWeight last
      → All HasWeight rest
      → All HasWeight (compress_loop qs front last n rest)
  unfolding compress_loop
  HasWeight-compress_loop qs front last n [] f l r =
      All-append HasWeight front (last ∷ []) f (l, tt)
  HasWeight-compress_loop qs front last n (cur ∷ rest) f l r = ground (
    arith,
    All-append HasWeight front (last ∷ []) f (l, tt),
    HasWeight-compress_loop qs front (record cur { g = last.g + cur.g }) (n - 1) rest f
        (omega arith) r.1,
    λ (h : All HasWeight (front ++ last ∷ [])).
        HasWeight-compress_loop qs (front ++ last ∷ []) cur n rest h r.0 r.1,
  )

  pub total-compress :
      (qs : List (Quantile D)) (is : List (Item D)) → total (compress_samples qs is) ≡ total is
  unfolding compress_samples
  total-compress qs [] = refl
  total-compress qs (i ∷ []) = refl
  total-compress qs (i ∷ j ∷ is) =
      omega (arith, total-compress_loop qs [] i (length (i ∷ j ∷ is)) (j ∷ is))

  pub HasWeight-compress :
      (qs : List (Quantile D)) (is : List (Item D))
      → All HasWeight is
      → All HasWeight (compress_samples qs is)
  unfolding compress_samples
  HasWeight-compress qs [] h = h
  HasWeight-compress qs (i ∷ []) h = h
  HasWeight-compress qs (i ∷ j ∷ is) h = HasWeight-compress_loop qs [] i _ (j ∷ is) tt h.0 h.1
