-- ===== src/Core/Ckms/Read.antt =====
-- The rank of what a read gives.
use mathlib.Core.List.{cons-ne-nil}
use prometheus_cpp.Common.{
  ℕ, ◌+◌, ◌≤◌, ◌≡◌, ◌≢◌, ◌⊎◌, refl, sym, ap, ◌∙◌, true, false, Bool, List, [], ◌∷◌, ◌++◌, length,
  take, All, arith, Bool-cases, inl, inr, pos, ◌+ℤ◌,
}
use prometheus_cpp.Double.{Double, ◌≼◌, IsOrdered}
use prometheus_cpp.Core.Ckms.{Quantile, Item, Ckms, make, get, scan, read, allowable_error}
use prometheus_cpp.Core.Ckms.History.{Call, run, seen}
use prometheus_cpp.Core.Ckms.Total.{total, total-append}
use prometheus_cpp.Core.Ckms.Sorted.{HasNumber}
use prometheus_cpp.Core.Ckms.Known.{get-HasRanks}
use prometheus_cpp.Core.Ckms.Rank.{Ranked-same, rank, rank-full, Ranked}

module _ {D : Type 0} ⦃d : Double D⦄ where
  -- What `get` compares with the estimated rank of a sample.
  abbrev pub bound_of : D → Ckms D → D
  unfolding allowable_error
  bound_of q c =
      let desired = d.to_int (d.mul q (d.of_uint c.count)) in
      d.add (d.of_int desired)
        (d.div (allowable_error c.quantiles desired (length c.sample)) (d.of_uint 2))

  -- The estimate of the rank of a sample, behind samples of weight `r`, is above the bound.
  abbrev pub exceeds : D → ℕ → Item D → Bool
  unfolding ◌+ℤ◌
  exceeds bound r i = d.lt bound (d.of_int (pos (r + i.g) +ℤ i.delta))

  -- No estimate is above the bound, but perhaps the first.
  abbrev pub Below : D → ℕ → List (Item D) → Type 0
  Below bound r [] = Unit
  Below bound r (x ∷ []) = Unit
  Below bound r (x ∷ y ∷ is) = (exceeds bound (r + x.g) y ≡ false) × Below bound (r + x.g) (y ∷ is)

  -- Where the scan of the samples ends.
  pub record IsReadAt (bound : D) (vs : List D) (r : ℕ) (is : List (Item D)) (value : D)
      : Type 0 where
    pub front : List (Item D)
    pub item : Item D
    pub rest : List (Item D)
    pub parts : is ≡ front ++ item ∷ rest
    pub same : value ≡ item.value
    pub ranked : r + total front + item.g ≤ rank value vs
    pub reached : (front ≡ []) ⊎ (exceeds bound (r + total front) item ≡ false)
    pub below : Below bound r (front ++ item ∷ [])
    pub stopped :
        (rest ≡ [])
        ⊎ ((next : Item D) × (tail : List (Item D)) × (rest ≡ next ∷ tail)
            × (exceeds bound (r + total front + item.g) next ≡ true))

  same_head :
      (front : List (Item D)) {i j : Item D} {is : List (Item D)} (js : List (Item D))
      → front ≡ []
      → i ∷ is ≡ front ++ j ∷ js
      → i ≡ j
  same_head [] js e f = ground arith
  same_head (x ∷ front) js e f = absurd (cons-ne-nil x front e)

  later-Below :
      (bound : D) (prev cur item : Item D) (r : ℕ) (front is rest : List (Item D))
      → cur ∷ is ≡ front ++ item ∷ rest
      → exceeds bound (r + prev.g) cur ≡ false
      → Below bound (r + prev.g) (front ++ item ∷ [])
      → Below bound r (prev ∷ (front ++ item ∷ []))
  later-Below bound prev cur item r [] is rest parts e h =
      (ap (exceeds bound (r + prev.g)) (sym (same_head [] rest refl parts)) ∙ e, tt)
  later-Below bound prev cur item r (x ∷ front) is rest parts e h =
      let same : cur ≡ x = ground arith in (ap (exceeds bound (r + prev.g)) (sym same) ∙ e, h)

  later-IsReadAt :
      {bound : D} {vs : List D} {prev cur : Item D} {r : ℕ} {is : List (Item D)} {value : D}
      → exceeds bound (r + prev.g) cur ≡ false
      → IsReadAt bound vs (r + prev.g) (cur ∷ is) value
      → IsReadAt bound vs r (prev ∷ cur ∷ is) value
  later-IsReadAt {bound} {vs} {prev} {cur} {r} {is} e a =
      let sum : r + prev.g + total a.front ≡ r + (prev.g + total a.front) = omega arith in
      record {
        front = prev ∷ a.front;
        item = a.item;
        rest = a.rest;
        parts = ap (◌∷◌ prev) a.parts;
        same = a.same;
        ranked = omega (arith, a.ranked);
        reached = inr (elim a.reached [
          | inl f ↦
              let none_between : r + (prev.g + total a.front) ≡ r + prev.g =
                omega (arith, ap total f) in
              ap (λ n. exceeds bound n a.item) none_between
              ∙ ap (exceeds bound (r + prev.g)) (sym (same_head a.front a.rest f a.parts))
              ∙ e
          | inr f ↦ ap (λ n. exceeds bound n a.item) (sym sum) ∙ f
        ]);
        below = later-Below bound prev cur a.item r a.front is a.rest a.parts e a.below;
        stopped = elim a.stopped [
          | inl f ↦ inl f
          | inr (next, tail, f, g) ↦
              inr (next, tail, f, ap (λ n. exceeds bound (n + a.item.g) next) (sym sum) ∙ g)
        ];
      }

  scan-IsReadAt :
      (bound : D) (vs : List D) (prev : Item D) (r : ℕ) (is : List (Item D))
      → Ranked vs r (prev ∷ is)
      → IsReadAt bound vs r (prev ∷ is) (scan bound prev r is)
  unfolding scan ◌+ℤ◌
  scan-IsReadAt bound vs prev r [] k = record {
    front = [];
    item = prev;
    rest = [];
    parts = refl;
    same = refl;
    ranked = omega (arith, k.0);
    reached = inl refl;
    below = tt;
    stopped = inl refl;
  }
  scan-IsReadAt bound vs prev r (cur ∷ is) k =
      let no_more : r + 0 ≡ r = omega arith in
      elim (Bool-cases (exceeds bound (r + prev.g) cur)) [
        | inl e ↦ rw (e) (record {
          front = [];
          item = prev;
          rest = cur ∷ is;
          parts = refl;
          same = refl;
          ranked = omega (arith, k.0);
          reached = inl refl;
          below = tt;
          stopped = inr (cur, is, refl, ap (λ n. exceeds bound (n + prev.g) cur) no_more ∙ e);
        })
        | inr e ↦ rw (e) (later-IsReadAt e (scan-IsReadAt bound vs cur (r + prev.g) is k.1))
      ]

  -- The last sample is not below any of the values.
  above_all :
      {bound : D} {vs : List D} {is : List (Item D)} {value : D} (at : IsReadAt bound vs 0 is value)
      → total is ≡ length vs
      → at.rest ≡ []
      → All (λ v. v ≼ value) vs
  above_all {bound} {vs} {is} {value} at all e = rank-full value vs (
      omega (
        arith,
        at.ranked,
        all,
        ap total at.parts,
        total-append at.front (at.item ∷ at.rest),
        ap total e,
      ))

  length_zero : (vs : List D) → length vs ≡ 0 → vs ≡ []
  length_zero [] e = refl
  length_zero (v ∷ vs) e = absurd (omega arith)

  read-IsReadAt :
      (q : D) (vs : List D) (c : Ckms D) (is : List (Item D))
      → is ≢ []
      → Ranked vs 0 is
      → IsReadAt (bound_of q (record c { sample = is })) vs 0 is (read q (record c { sample = is }))
  unfolding read
  read-IsReadAt q vs c [] n k = absurd (n refl)
  read-IsReadAt q vs c (i ∷ is) n k = scan-IsReadAt _ vs i 0 is k

  -- After any calls that insert numbers, one at least since the last reset, a read gives the value of a sample, and at least
  -- as many of the values inserted since are not above it as the weights up to that sample add up to. The sample is the last
  -- one in front of the first whose estimated rank is above the bound of `get`, where the estimate of the very first
  -- sample does not count: the estimates of all samples behind the first one and up to the one that is read are not above the
  -- bound, and that of the next one is, or there is no next one. (Behind it an estimate may again be within the bound.) Where
  -- there is no next one, no inserted value is above the one that is read.
  pub get-IsReadAt :
      IsOrdered D
      → (qs : List (Quantile D)) (calls : List (Call D)) (q : D) → All HasNumber calls
      → seen [] calls ≢ []
      → let r = get q (run calls (make qs)) in
        (at : IsReadAt (bound_of q r.1) (seen [] calls) 0 r.1.sample r.0) × ((at.rest ≡ [])
          → All (λ v. v ≼ r.0) (seen [] calls))
  get-IsReadAt o qs calls q n some_seen =
      let c = (get q (run calls (make qs))).1 in
      let (h, (w, counted), empty) = get-HasRanks o qs calls q n in
      let all_known : (x : D) → rank x (seen [] calls) ≡ rank x h.known =
        λ x. omega (arith, h.split x, ap (λ n. rank x (take n c.buffer)) empty) in
      let sampled : c.sample ≢ [] = λ e.
        some_seen
          (length_zero (seen [] calls) (omega (arith, counted, empty, w.weight, ap total e))) in
      let at : IsReadAt (bound_of q c) (seen [] calls) 0 c.sample (get q (run calls (make qs))).0 =
        unfold get in
        read-IsReadAt q (seen [] calls) c c.sample sampled
          (Ranked-same h.known (seen [] calls) 0 c.sample all_known h.ranked) in
      (at, above_all at (omega (arith, counted, empty, w.weight)))
