-- ===== src/Core/Histogram.antt =====
-- core/src/histogram.cc and core/include/prometheus/histogram.h. A call holds the mutex from its first
-- write on (`Observe` reads only the constant boundaries before), so calls are whole steps.
pub mod Shape
pub mod Observe
pub mod Counts
pub mod Cumulative
mod Tests
use prometheus_cpp.Common.{
  ℕ, zero, suc, ◌+◌, Bool, true, false, not, List, [], ◌∷◌, map, Option, none, some, length,
  replicate, get_elem?, get_or, ◌==◌, if◌then◌else◌, Result, ok, err, invalid_argument,
  length_error,
}
use prometheus_cpp.Common
use prometheus_cpp.Double.{Double, zero_value}
use prometheus_cpp.Core.ClientMetric.{ClientMetric, Bucket, empty_metric}
use prometheus_cpp.Core.Gauge.{Gauge, new_gauge}
use prometheus_cpp.Core.Gauge
use prometheus_cpp.Core.Counter.{Counter, new_counter, value}
use prometheus_cpp.Core.Counter

pub record Histogram (D : Type 0) : Type 0 where
  pub bucket_boundaries : List D
  pub bucket_counts : List (Counter D)
  pub sum : Gauge D

module _ {D : Type 0} ⦃d : Double D⦄ where
  -- `std::adjacent_find` with `std::greater_equal` finds nothing: no neighbours with a >= b.
  pub is_strict_sorted : List D → Bool
  is_strict_sorted [] = true
  is_strict_sorted (a ∷ []) = true
  is_strict_sorted (a ∷ b ∷ rest) = if d.le b a then false else is_strict_sorted (b ∷ rest)

  -- Both constructors.
  unfoldable pub make : List D → Result (Histogram D)
  unfolding is_strict_sorted
  make buckets =
      if is_strict_sorted buckets
      then ok (record {
        bucket_boundaries = buckets;
        bucket_counts = replicate (length buckets + 1) new_counter;
        sum = new_gauge;
      })
      else err invalid_argument

  -- `std::distance(begin, std::lower_bound(begin, end, value))`, on a range whose elements below `value`
  -- stand first: how many those are.
  pub lower_bound : List D → D → ℕ
  lower_bound [] value = 0
  lower_bound (b ∷ bs) value = if d.lt b value then suc (lower_bound bs value) else 0

  -- `bucket_counts_[i].Increment()`.
  pub increment_at : List (Counter D) → ℕ → List (Counter D)
  unfolding Counter.increment
  increment_at [] i = []
  increment_at (c ∷ cs) zero = Counter.increment c ∷ cs
  increment_at (c ∷ cs) (suc i) = c ∷ increment_at cs i

  unfoldable pub observe : D → Histogram D → Histogram D
  unfolding lower_bound increment_at Gauge.increment_by
  observe value h = record h {
    sum = Gauge.increment_by value h.sum;
    bucket_counts = increment_at h.bucket_counts (lower_bound h.bucket_boundaries value);
  }

  -- The loop over both vectors, which have one length.
  pub increment_all : List (Counter D) → List D → List (Counter D)
  unfolding Counter.increment_by
  increment_all [] vs = []
  increment_all (c ∷ cs) [] = c ∷ cs
  increment_all (c ∷ cs) (v ∷ vs) = Counter.increment_by v c ∷ increment_all cs vs

  unfoldable pub observe_multiple : List D → D → Histogram D → Result (Histogram D)
  unfolding increment_all Gauge.increment_by
  observe_multiple bucket_increments sum_of_values h =
      if length bucket_increments == length h.bucket_counts
      then ok (record h {
        sum = Gauge.increment_by sum_of_values h.sum;
        bucket_counts = increment_all h.bucket_counts bucket_increments;
      })
      else err length_error

  unfoldable pub reset : Histogram D → Histogram D
  unfolding Counter.reset Gauge.set
  reset h = record h {
    bucket_counts = map Counter.reset h.bucket_counts;
    sum = Gauge.set zero_value h.sum;
  }

  -- `cumulative_count += bucket_counts_[i].Value()`, in `double` and back.
  pub accumulate : ℕ → Counter D → ℕ
  accumulate cumulative_count c = d.to_uint (d.add (d.of_uint cumulative_count) (value c))

  -- The loop of `Collect`, over the counts from index `i` on and the boundaries from there: the last
  -- bucket has no boundary and goes up to infinity. The second part is the last cumulative count.
  pub collect_buckets : ℕ → List D → List (Counter D) → List (Bucket D) × ℕ
  unfolding accumulate
  collect_buckets cumulative_count bounds [] = ([], cumulative_count)
  collect_buckets cumulative_count [] (c ∷ cs) =
      let total = accumulate cumulative_count c in
      let (rest, last) = collect_buckets total [] cs in
      (record { cumulative_count = total; upper_bound = d.infinity } ∷ rest, last)
  collect_buckets cumulative_count (b ∷ bs) (c ∷ cs) =
      let total = accumulate cumulative_count c in
      let (rest, last) = collect_buckets total bs cs in
      (record { cumulative_count = total; upper_bound = b } ∷ rest, last)

  unfoldable pub collect : Histogram D → ClientMetric D
  unfolding collect_buckets
  collect h =
      let (buckets, total) = collect_buckets 0 h.bucket_boundaries h.bucket_counts in
      record empty_metric {
        histogram = record { sample_count = total; sample_sum = h.sum.value; bucket = buckets };
      }
