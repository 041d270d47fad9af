-- ===== src/Core/Histogram/Cumulative.antt =====
-- What `Collect` reports after a series of observations: cumulative counts, as Prometheus reads them.
use native.Mathlib.Numerals.{add-one}
use prometheus_cpp.Common.{
  ℕ, suc, ◌+◌, ◌≤◌, ◌<◌, ◌^◌, ◌≡◌, refl, ap, ◌∙◌, true, List, [], ◌∷◌, ◌++◌, map, arith, length,
  replicate, length-replicate, All, ok, if◌then◌else◌, Bool-cases, inl, inr,
}
use prometheus_cpp.Double.{Double, IsNumber, ◌≼◌, IsOrdered, IsExact}
use prometheus_cpp.Core.ClientMetric.{Bucket}
use prometheus_cpp.Core.Histogram.{Histogram, is_strict_sorted, make, lower_bound, observe, collect}
use prometheus_cpp.Core.Histogram.Counts.{
  bump, sum, sums, length-bump, sum-bump, sums-suc, sums_zero, counter_of, buckets,
  increment_at-bump, collect_buckets-sums, zero_counts,
}
use prometheus_cpp.Core.Histogram.Shape.{IsIncreasing, fresh, lower_bound-le, sorted_iff}

module _ {D : Type 0} ⦃d : Double D⦄ where
  -- How many of the values are not above the bound.
  abbrev pub count_le : D → List D → ℕ
  count_le b [] = 0
  count_le b (v ∷ vs) = (if d.le v b then 1 else 0) + count_le b vs

  -- The latest observation stands first.
  unfoldable pub observe_all : List D → Histogram D → Histogram D
  unfolding observe
  observe_all [] h = h
  observe_all (v ∷ vs) h = observe v (observe_all vs h)

  -- What a cumulative histogram of the values should be.
  abbrev pub cumulative : List D → List D → List (Bucket D)
  cumulative bs vs =
      map (λ b. record { cumulative_count = count_le b vs; upper_bound = b }) bs
      ++ record { cumulative_count = length vs; upper_bound = d.infinity } ∷ []

  -- The counts of `cumulative`.
  ranks : List D → List D → List ℕ
  ranks [] vs = length vs ∷ []
  ranks (b ∷ bs) vs = count_le b vs ∷ ranks bs vs

  below_le : IsOrdered D → (b c : D) → IsNumber b → IsNumber c → d.lt b c ≡ true → b ≼ c
  below_le o b c n m h = ground (arith, o.lt-not-le b c n m, o.le_total b c n m)

  -- One more for each bound that is not below `v`, and for what comes behind the bounds.
  raise : List D → D → List ℕ → List ℕ
  raise bs v [] = []
  raise [] v (m ∷ ms) = suc m ∷ map suc ms
  raise (b ∷ bs) v (m ∷ ms) = (if d.le v b then suc m else m) ∷ raise bs v ms

  raise-ranks : (bs vs : List D) (v : D) → raise bs v (ranks bs vs) ≡ ranks bs (v ∷ vs)
  unfolding raise ranks
  raise-ranks [] vs v = refl
  raise-ranks (b ∷ bs) vs v = ground (arith, raise-ranks bs vs v)

  increasing_above :
      IsOrdered D
      → (b : D) (bs : List D) (v : D) → IsIncreasing (b ∷ bs)
      → v ≼ b
      → All (λ c. v ≼ c) bs
  increasing_above o b [] v h k = tt
  increasing_above o b (c ∷ bs) v h k =
      let (n, m) = o.numbers_of_lt b c h.0 in
      let step : b ≼ c = below_le o b c n m h.0 in
      let w = o.le_trans v b c k step in (w, increasing_above o c bs v h.1 w)

  raise_above :
      (bs : List D) (v : D) (ms : List ℕ) → All (λ c. v ≼ c) bs → raise bs v ms ≡ map suc ms
  unfolding raise
  raise_above bs v [] h = refl
  raise_above [] v (m ∷ ms) h = refl
  raise_above (b ∷ bs) v (m ∷ ms) h = ground (arith, raise_above bs v ms h.1)

  IsIncreasing-tail : (b : D) (bs : List D) → IsIncreasing (b ∷ bs) → IsIncreasing bs
  IsIncreasing-tail b [] h = tt
  IsIncreasing-tail b (c ∷ bs) h = h.1

  sums-bump :
      IsOrdered D
      → (c : ℕ) (bs : List D) (v : D) (ns : List ℕ) → IsIncreasing bs
      → All IsNumber bs
      → IsNumber v
      → length ns ≡ length bs + 1
      → sums c (bump (lower_bound bs v) ns) ≡ raise bs v (sums c ns)
  unfolding sums bump lower_bound raise
  sums-bump o c bs v [] h a k e = absurd (omega arith)
  sums-bump o c [] v (n ∷ ns) h a k e = ground (arith, sums-suc (c + n) ns)
  sums-bump o c (b ∷ bs) v (n ∷ ns) h a k e = elim (Bool-cases (d.lt b v)) [
    | inl q ↦
        rw (q, bump)
          (ground (
            arith,
            o.lt-not-le b v a.0 k,
            sums-bump o (c + n) bs v ns (IsIncreasing-tail b bs h) a.1 k (omega arith),
          ))
    | inr q ↦
        let w : v ≼ b = ground (arith, o.lt-not-le b v a.0 k) in
        rw (q, bump)
          (ground (
            arith,
            sums-suc (c + n) ns,
            raise_above bs v (sums (c + n) ns) (increasing_above o b bs v h w),
          ))
  ]

  buckets-ranks : (bs vs : List D) → buckets bs (ranks bs vs) ≡ cumulative bs vs
  unfolding buckets ranks
  buckets-ranks [] vs = refl
  buckets-ranks (b ∷ bs) vs = ground (arith, buckets-ranks bs vs)

  -- The state after the observations, in plain counts.
  record IsTally (bs vs : List D) (h : Histogram D) : Type 0 where
    counts : List ℕ
    bounds : h.bucket_boundaries ≡ bs
    stored : h.bucket_counts ≡ map counter_of counts
    size : length counts ≡ length bs + 1
    total : sum counts ≡ length vs
    running : sums 0 counts ≡ ranks bs vs

  made_by :
      (bs : List D) (h : Histogram D)
      → make bs ≡ ok h
      → (h ≡ fresh bs) × (is_strict_sorted bs ≡ true)
  unfolding make
  made_by bs h e = ground arith

  ranks-nil : (bs : List D) → sums 0 (replicate (suc (length bs)) 0) ≡ ranks bs []
  unfolding sums ranks
  ranks-nil [] = refl
  ranks-nil (b ∷ bs) = ap (◌∷◌ 0) (ranks-nil bs)

  IsTally-fresh : (bs : List D) → IsTally bs [] (fresh bs)
  IsTally-fresh bs = record {
    counts = replicate (length bs + 1) 0;
    bounds = refl;
    stored = zero_counts (length bs + 1);
    size = length-replicate (length bs + 1) 0;
    total = sums_zero (length bs + 1);
    running = rw add-one (ranks-nil bs);
  }

  module _ (o : IsOrdered D) (x : IsExact D) (bs : List D) (up : IsIncreasing bs)
      (a : All IsNumber bs) where
    IsTally-observe :
        (vs : List D) (v : D) (h : Histogram D)
        → IsNumber v
        → length vs < 2 ^ 53
        → IsTally bs vs h
        → IsTally bs (v ∷ vs) (observe v h)
    unfolding observe
    IsTally-observe vs v h k fits t =
        let i = lower_bound bs v in
        record {
          counts = bump i t.counts;
          bounds = t.bounds;
          stored = rw (t.bounds, t.stored) (increment_at-bump x i t.counts (omega arith));
          size = length-bump i t.counts ∙ t.size;
          total = omega (arith, sum-bump i t.counts, t.total, t.size, lower_bound-le bs v);
          running =
              sums-bump o 0 bs v t.counts up a k t.size
              ∙ ap (raise bs v) t.running
              ∙ raise-ranks bs vs v;
        }

    IsTally-observe_all :
        (vs : List D)
        → All IsNumber vs
        → length vs ≤ 2 ^ 53
        → IsTally bs vs (observe_all vs (fresh bs))
    unfolding observe_all
    IsTally-observe_all [] n fits = IsTally-fresh bs
    IsTally-observe_all (v ∷ vs) n fits =
        IsTally-observe vs v _ n.0 (omega arith) (IsTally-observe_all vs n.1 (omega arith))

    collect-IsTally :
        (vs : List D) (h : Histogram D)
        → length vs ≤ 2 ^ 53
        → IsTally bs vs h
        → ((collect h).histogram.bucket ≡ cumulative bs vs)
          × ((collect h).histogram.sample_count ≡ length vs)
    unfolding collect
    collect-IsTally vs h fits t =
        let e = collect_buckets-sums x 0 bs t.counts (omega (arith, t.total)) in
        rw (t.bounds, t.stored, e, t.running) (buckets-ranks bs vs, omega (arith, t.total))

  -- A histogram with increasing boundaries, after any observations (at most 2^53, none of them NaN), reports
  -- for each boundary how many observations are not above it, then all of them for infinity, and as the
  -- sample count the number of observations.
  pub collect-observe_all :
      IsOrdered D
      → IsExact D
      → (bs vs : List D) (h : Histogram D) → All IsNumber bs
      → make bs ≡ ok h
      → All IsNumber vs
      → length vs ≤ 2 ^ 53
      → let r = (collect (observe_all vs h)).histogram in
        (r.bucket ≡ cumulative bs vs) × (r.sample_count ≡ length vs)
  collect-observe_all o x bs vs h a made n fits =
      let (same, sorted) = made_by bs h made in
      let up = (sorted_iff o bs a).0 sorted in
      rw same (collect-IsTally o x bs up a vs _ fits (IsTally-observe_all o x bs up a vs n fits))
