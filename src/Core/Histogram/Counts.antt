-- ===== src/Core/Histogram/Counts.antt =====
-- The buckets' counters of core/src/histogram.cc as plain counts, and what `Collect` makes of them.
use prometheus_cpp.Common.{
  ℕ, zero, suc, ◌+◌, ◌≤◌, ◌<◌, ◌^◌, ◌≡◌, refl, ap, ◌∙◌, List, [], ◌∷◌, map, arith, length,
  replicate,
}
use prometheus_cpp.Double.{Double, IsExact}
use prometheus_cpp.Core.ClientMetric.{Bucket}
use prometheus_cpp.Core.Gauge
use prometheus_cpp.Core.Counter.{Counter, increment, new_counter}
use prometheus_cpp.Core.Histogram.{increment_at, accumulate, collect_buckets}

-- Plain counts, one for each bucket.
unfoldable pub sum : List ℕ → ℕ
sum [] = 0
sum (n ∷ ns) = n + sum ns

unfoldable pub bump : ℕ → List ℕ → List ℕ
bump i [] = []
bump zero (n ∷ ns) = suc n ∷ ns
bump (suc i) (n ∷ ns) = n ∷ bump i ns

-- The running sums behind `c`.
unfoldable pub sums : ℕ → List ℕ → List ℕ
sums c [] = []
sums c (n ∷ ns) = (c + n) ∷ sums (c + n) ns

pub length-bump : (i : ℕ) (ns : List ℕ) → length (bump i ns) ≡ length ns
unfolding bump
length-bump i [] = refl
length-bump zero (n ∷ ns) = refl
length-bump (suc i) (n ∷ ns) = ap suc (length-bump i ns)

pub sum-bump : (i : ℕ) (ns : List ℕ) → i < length ns → sum (bump i ns) ≡ suc (sum ns)
unfolding sum bump
sum-bump i [] h = absurd (omega arith)
sum-bump zero (n ∷ ns) h = omega arith
sum-bump (suc i) (n ∷ ns) h = omega (arith, sum-bump i ns (omega arith))

pub sums-suc : (c : ℕ) (ns : List ℕ) → sums (suc c) ns ≡ map suc (sums c ns)
unfolding sums
sums-suc c [] = refl
sums-suc c (n ∷ ns) = ground (arith, sums-suc (c + n) ns)

pub sums_zero : (n : ℕ) → sum (replicate n 0) ≡ 0
unfolding sum
sums_zero zero = refl
sums_zero (suc n) = omega (arith, sums_zero n)

module _ {D : Type 0} ⦃d : Double D⦄ where
  unfoldable pub counter_of : ℕ → Counter D
  counter_of n = record { gauge = record { value = d.of_uint n } }

  increment-counter_of :
      IsExact D → (n : ℕ) → n < 2 ^ 53 → increment (counter_of n) ≡ counter_of (suc n)
  unfolding increment counter_of Gauge.increment
  increment-counter_of x n h = ground (arith, x.add-of_uint n 1 (omega arith))

  pub increment_at-bump :
      IsExact D
      → (i : ℕ) (ns : List ℕ) → sum ns < 2 ^ 53
      → increment_at (map counter_of ns) i ≡ map counter_of (bump i ns)
  unfolding sum bump increment_at
  increment_at-bump x i [] h = refl
  increment_at-bump x zero (n ∷ ns) h = rw (increment-counter_of x n (omega arith))
  increment_at-bump x (suc i) (n ∷ ns) h =
      ap (◌∷◌ (counter_of n)) (increment_at-bump x i ns (omega arith))

  accumulate-counter_of :
      IsExact D → (c n : ℕ) → c + n ≤ 2 ^ 53 → accumulate c (counter_of n) ≡ c + n
  unfolding accumulate counter_of
  accumulate-counter_of x c n h = ap d.to_uint (x.add-of_uint c n h) ∙ x.to_uint-of_uint (c + n) h

  -- The buckets with the given cumulative counts.
  unfoldable pub buckets : List D → List ℕ → List (Bucket D)
  buckets bs [] = []
  buckets [] (m ∷ ms) = record { cumulative_count = m; upper_bound = d.infinity } ∷ buckets [] ms
  buckets (b ∷ bs) (m ∷ ms) = record { cumulative_count = m; upper_bound = b } ∷ buckets bs ms

  pub collect_buckets-sums :
      IsExact D
      → (c : ℕ) (bs : List D) (ns : List ℕ) → c + sum ns ≤ 2 ^ 53
      → collect_buckets c bs (map counter_of ns) ≡ (buckets bs (sums c ns), c + sum ns)
  unfolding collect_buckets buckets sums sum
  collect_buckets-sums x c bs [] h = ground arith
  collect_buckets-sums x c [] (n ∷ ns) h =
      rw
        (
          accumulate-counter_of x c n (omega arith),
          collect_buckets-sums x (c + n) [] ns (omega arith),
        )
        (ground arith)
  collect_buckets-sums x c (b ∷ bs) (n ∷ ns) h =
      rw
        (
          accumulate-counter_of x c n (omega arith),
          collect_buckets-sums x (c + n) bs ns (omega arith),
        )
        (ground arith)

  pub zero_counts : (n : ℕ) → replicate n new_counter ≡ map counter_of (replicate n 0)
  unfolding counter_of
  zero_counts zero = refl
  zero_counts (suc n) = ap (◌∷◌ new_counter) (zero_counts n)
