-- ===== src/Core/Ckms/Rank.antt =====
-- The ranks that the weights of the samples stand for.
use mathlib.Core.Path.{subst}
use prometheus_cpp.Common.{
  ℕ, ◌+◌, ◌-◌, ◌≤◌, ◌≡◌, refl, sym, List, [], ◌∷◌, ◌++◌, append_assoc, length, All, arith,
  if◌then◌else◌, Bool-cases, inl, inr,
}
use prometheus_cpp.Double.{Double, IsNumber, ◌≼◌, IsOrdered}
use prometheus_cpp.Core.Ckms.{
  Quantile, Item, insert_at, lower_bound, insert_sorted, sort, compress_loop, compress_samples,
}
use prometheus_cpp.Core.Ckms.Sorted.{IsSorted, AboveAll, above_trans, lt_le}

module _ {D : Type 0} ⦃d : Double D⦄ where
  -- How many of the values are not above `x`.
  abbrev pub rank : D → List D → ℕ
  rank x [] = 0
  rank x (y ∷ ys) = (if d.le y x then 1 else 0) + rank x ys

  rank_mono : IsOrdered D → (x y : D) (vs : List D) → x ≼ y → rank x vs ≤ rank y vs
  rank_mono o x y [] h = omega arith
  rank_mono o x y (v ∷ vs) h = ground (arith, rank_mono o x y vs h, o.le_trans v x y)

  pub rank-append : (x : D) (vs ws : List D) → rank x (vs ++ ws) ≡ rank x vs + rank x ws
  rank-append x [] ws = omega arith
  rank-append x (v ∷ vs) ws = omega (arith, rank-append x vs ws)

  rank-insert_sorted : (x v : D) (vs : List D) → rank x (insert_sorted v vs) ≡ rank x (v ∷ vs)
  unfolding insert_sorted
  rank-insert_sorted x v [] = refl
  rank-insert_sorted x v (w ∷ vs) = ground (arith, rank-insert_sorted x v vs)

  pub rank-sort : (x : D) (vs : List D) → rank x (sort vs) ≡ rank x vs
  unfolding sort
  rank-sort x [] = refl
  rank-sort x (v ∷ vs) = omega (arith, rank-insert_sorted x v (sort vs), rank-sort x vs)

  rank-length : (x : D) (vs : List D) → rank x vs ≤ length vs
  rank-length x [] = omega arith
  rank-length x (v ∷ vs) = ground (arith, rank-length x vs)

  pub rank-full : (x : D) (vs : List D) → length vs ≤ rank x vs → All (λ v. v ≼ x) vs
  rank-full x [] h = tt
  rank-full x (v ∷ vs) h = elim (Bool-cases (d.le v x)) [
    | inl e ↦ (e, rank-full x vs (ground arith))
    | inr e ↦ absurd (ground (arith, rank-length x vs))
  ]

  -- Behind samples of weight `r`, the weights up to a sample are no more than the values not above it.
  abbrev pub Ranked : List D → ℕ → List (Item D) → Type 0
  Ranked vs r [] = Unit
  Ranked vs r (i ∷ is) = (r + i.g ≤ rank i.value vs) × Ranked vs (r + i.g) is

  Ranked-shift :
      (v : D) (vs : List D) (r : ℕ) (is : List (Item D))
      → AboveAll v is
      → Ranked vs r is
      → Ranked (v ∷ vs) (r + 1) is
  Ranked-shift v vs r [] a k = tt
  Ranked-shift v vs r (i ∷ is) a k = (
    ground arith,
    subst (λ n. Ranked (v ∷ vs) n is) (omega arith) (Ranked-shift v vs (r + i.g) is a.1 k.1),
  )

  pub Ranked-insert_at :
      IsOrdered D
      → (i : Item D) (vs : List D) (r : ℕ) (is : List (Item D)) → IsNumber i.value
      → i.g ≡ 1
      → IsSorted is
      → r ≤ rank i.value vs
      → Ranked vs r is
      → Ranked (i.value ∷ vs) r (insert_at (lower_bound is i.value) i is)
  unfolding insert_at lower_bound
  Ranked-insert_at o i vs r [] n g s l k = (ground arith, tt)
  Ranked-insert_at o i vs r (j ∷ is) n g s l k = elim (Bool-cases (d.lt j.value i.value)) [
    | inl e ↦
        let below = rank_mono o j.value i.value vs (lt_le o j.value i.value e) in
        rw (e, insert_at)
          (
            ground (arith, k.0),
            Ranked-insert_at o i vs (r + j.g) is n g s.1 (omega (arith, below, k.0)) k.1,
          )
    | inr e ↦
        let w : i.value ≼ j.value = ground (arith, o.lt-not-le j.value i.value s.0.0 n) in
        rw (e, insert_at)
          (
            ground arith,
            subst (λ n. Ranked (i.value ∷ vs) (r + n) (j ∷ is)) (sym g)
                (Ranked-shift i.value vs r (j ∷ is) (w, above_trans o i.value j.value is w s.0.1)
                  k),
          )
  ]

  Ranked-drop :
      (vs : List D) (r : ℕ) (front : List (Item D)) (i j k : Item D) (rest : List (Item D))
      → k.value ≡ j.value
      → k.g ≡ i.g + j.g
      → Ranked vs r (front ++ i ∷ j ∷ rest)
      → Ranked vs r (front ++ k ∷ rest)
  Ranked-drop vs r [] i j k rest e f (a, (b, c)) =
      let sum : r + i.g + j.g ≡ r + k.g = omega (arith, f) in
      (
        subst (λ x. r + k.g ≤ rank x vs) (sym e) (omega (arith, b, f)),
        subst (λ n. Ranked vs n rest) sum c,
      )
  Ranked-drop vs r (x ∷ front) i j k rest e f (a, b) =
      (a, Ranked-drop vs (r + x.g) front i j k rest e f b)

  Ranked-compress_loop :
      (vs : List D) (qs : List (Quantile D)) (front : List (Item D)) (last : Item D) (n : ℕ)
      (rest : List (Item D))
      → Ranked vs 0 (front ++ last ∷ rest)
      → Ranked vs 0 (compress_loop qs front last n rest)
  unfolding compress_loop
  Ranked-compress_loop vs qs front last n [] k = k
  Ranked-compress_loop vs qs front last n (cur ∷ rest) k =
      let merged = record cur { g = last.g + cur.g } in
      ground (
        arith,
        Ranked-compress_loop vs qs front merged (n - 1) rest
            (Ranked-drop vs 0 front last cur merged rest refl refl k),
        Ranked-compress_loop vs qs (front ++ last ∷ []) cur n rest
            (rw (append_assoc front (last ∷ []) (cur ∷ rest)) k),
      )

  pub Ranked-compress :
      (vs : List D) (qs : List (Quantile D)) (is : List (Item D))
      → Ranked vs 0 is
      → Ranked vs 0 (compress_samples qs is)
  unfolding compress_samples
  Ranked-compress vs qs [] k = k
  Ranked-compress vs qs (i ∷ []) k = k
  Ranked-compress vs qs (i ∷ j ∷ is) k = Ranked-compress_loop vs qs [] i _ (j ∷ is) k

  pub Ranked-same :
      (vs ws : List D) (r : ℕ) (is : List (Item D))
      → ((x : D) → rank x ws ≡ rank x vs)
      → Ranked vs r is
      → Ranked ws r is
  Ranked-same vs ws r [] e k = tt
  Ranked-same vs ws r (i ∷ is) e k =
      (omega (arith, e i.value, k.0), Ranked-same vs ws (r + i.g) is e k.1)
