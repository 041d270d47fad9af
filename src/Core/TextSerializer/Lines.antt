-- ===== src/Core/TextSerializer/Lines.antt =====
-- How many lines the serializer writes: one for each comment and for each sample, whatever the label values hold.
use prometheus_cpp.Common.{
  ℕ, ◌+◌, length, ◌≡◌, refl, not, ◌&&◌, List, [], ◌∷◌, ◌++◌, Bytes, codes, if◌then◌else◌, is_empty,
  arith, Lacks, All, show_uint,
}
use prometheus_cpp.Double.{Double}
use prometheus_cpp.Core.MetricType.{MetricType, counter, gauge, summary, untyped, histogram, info}
use prometheus_cpp.Core.ClientMetric.{ClientMetric, Quantile, Bucket, MetricFamily}
use prometheus_cpp.Core.TextSerializer.{
  text, number, write_value, write_line, serialize_plain, serialize_quantiles, serialize_summary,
  serialize_buckets, serialize_histogram, serialize_metric, serialize_metrics, type_name,
  serialize_family,
}
use prometheus_cpp.Core.TextSerializer.Newlines.{
  newlines, newlines-append, newlines-Lacks, newlines-show_uint, newlines-write_value,
  newlines-write_line,
}

module _ {D : Type 0} ⦃d : Double D⦄ where
  abbrev pub last_bound : D → List (Bucket D) → D
  last_bound last [] = last
  last_bound last (b ∷ bs) = last_bound b.upper_bound bs

  -- The samples of a metric: a histogram without a bucket for infinity gets one more.
  abbrev pub samples : MetricType → ClientMetric D → ℕ
  samples counter m = 1
  samples gauge m = 1
  samples info m = 1
  samples untyped m = 1
  samples summary m = 2 + length m.summary.quantile
  samples histogram m =
      let last = last_bound d.minus_infinity m.histogram.bucket in
      2
      + (length m.histogram.bucket
          + (if d.le last d.infinity && d.le d.infinity last then 0 else 1))

  abbrev pub all_samples : MetricType → List (ClientMetric D) → ℕ
  all_samples type [] = 0
  all_samples type (m ∷ ms) = samples type m + all_samples type ms

module _ {D : Type 0} ⦃d : Double D⦄ (print : D → Bytes) (prints : (x : D) → Lacks b'\n' (print x))
    (family : MetricFamily D) (named : newlines family.name ≡ 0) where
  newlines-serialize_plain :
      (m : ClientMetric D) (suffix : Bytes) (value : D)
      → All (λ l. Lacks b'\n' l.name) m.label
      → newlines suffix ≡ 0
      → newlines (serialize_plain print family m suffix value) ≡ 1
  unfolding serialize_plain
  newlines-serialize_plain m suffix value l s =
      newlines-write_line print prints family m suffix [] (text []) (write_value print value) named
        l s refl (newlines-write_value print prints value)

  newlines-serialize_quantiles :
      (m : ClientMetric D) (qs : List (Quantile D))
      → All (λ l. Lacks b'\n' l.name) m.label
      → newlines (serialize_quantiles print family m qs) ≡ length qs
  unfolding serialize_quantiles
  newlines-serialize_quantiles m [] l = refl
  newlines-serialize_quantiles m (q ∷ qs) l = omega (
    arith,
    newlines-append
        (write_line print family m [] (codes "quantile") (number q.quantile)
          (write_value print q.value))
        (serialize_quantiles print family m qs),
    newlines-write_line print prints family m [] (codes "quantile") (number q.quantile)
        (write_value print q.value) named l refl refl (newlines-write_value print prints q.value),
    newlines-serialize_quantiles m qs l,
  )

  newlines-serialize_buckets :
      (m : ClientMetric D) (last : D) (bs : List (Bucket D))
      → All (λ l. Lacks b'\n' l.name) m.label
      → newlines (serialize_buckets print family m last bs)
        ≡ length bs
          + (if d.le (last_bound last bs) d.infinity && d.le d.infinity (last_bound last bs)
              then 0
              else 1)
  unfolding serialize_buckets
  newlines-serialize_buckets m last [] l = ground (
    arith,
    newlines-write_line print prints family m (codes "_bucket") (codes "le") (text (codes "+Inf"))
        (show_uint m.histogram.sample_count) named l refl refl
        (newlines-show_uint m.histogram.sample_count),
  )
  newlines-serialize_buckets m last (b ∷ bs) l = omega (
    arith,
    newlines-append
        (write_line print family m (codes "_bucket") (codes "le") (number b.upper_bound)
          (show_uint b.cumulative_count))
        (serialize_buckets print family m b.upper_bound bs),
    newlines-write_line print prints family m (codes "_bucket") (codes "le") (number b.upper_bound)
        (show_uint b.cumulative_count) named l refl refl (newlines-show_uint b.cumulative_count),
    newlines-serialize_buckets m b.upper_bound bs l,
  )

  newlines-serialize_metric :
      (type : MetricType) (m : ClientMetric D)
      → All (λ l. Lacks b'\n' l.name) m.label
      → newlines (serialize_metric print type family m) ≡ samples type m
  unfolding serialize_metric serialize_summary serialize_histogram
  newlines-serialize_metric counter m l = newlines-serialize_plain m [] m.counter l refl
  newlines-serialize_metric gauge m l = newlines-serialize_plain m [] m.gauge l refl
  newlines-serialize_metric info m l = newlines-serialize_plain m (codes "_info") m.info l refl
  newlines-serialize_metric untyped m l = newlines-serialize_plain m [] m.untyped l refl
  newlines-serialize_metric summary m l =
      rw
        (
          newlines-append (
              write_line print family m (codes "_count") [] (text [])
                (show_uint m.summary.sample_count)),
          newlines-append (serialize_plain print family m (codes "_sum") m.summary.sample_sum),
          newlines-write_line print prints family m (codes "_count") [] (text [])
              (show_uint m.summary.sample_count) named l refl refl
              (newlines-show_uint m.summary.sample_count),
          newlines-serialize_plain m (codes "_sum") m.summary.sample_sum l refl,
          newlines-serialize_quantiles m m.summary.quantile l,
        )
        (omega arith)
  newlines-serialize_metric histogram m l =
      rw
        (
          newlines-append (
              write_line print family m (codes "_count") [] (text [])
                (show_uint m.histogram.sample_count)),
          newlines-append (serialize_plain print family m (codes "_sum") m.histogram.sample_sum),
          newlines-write_line print prints family m (codes "_count") [] (text [])
              (show_uint m.histogram.sample_count) named l refl refl
              (newlines-show_uint m.histogram.sample_count),
          newlines-serialize_plain m (codes "_sum") m.histogram.sample_sum l refl,
          newlines-serialize_buckets m d.minus_infinity m.histogram.bucket l,
        )
        (omega arith)

  newlines-serialize_metrics :
      (ms : List (ClientMetric D))
      → All (λ m. All (λ l. Lacks b'\n' l.name) m.label) ms
      → newlines (serialize_metrics print family ms) ≡ all_samples family.type ms
  unfolding serialize_metrics
  newlines-serialize_metrics [] h = refl
  newlines-serialize_metrics (m ∷ ms) h =
      rw
        (
          newlines-append (serialize_metric print family.type family m),
          newlines-serialize_metric family.type m h.0,
        )
        (omega (arith, newlines-serialize_metrics ms h.1))

newlines-type_name : (type : MetricType) → newlines (type_name type) ≡ 0
newlines-type_name counter = refl
newlines-type_name gauge = refl
newlines-type_name info = refl
newlines-type_name untyped = refl
newlines-type_name summary = refl
newlines-type_name histogram = refl

newlines-type_line :
    (name : Bytes) (type : MetricType)
    → newlines name ≡ 0
    → newlines (codes "# TYPE " ++ (name ++ (codes " " ++ (type_name type ++ codes "\n")))) ≡ 1
newlines-type_line name type n =
    rw (newlines-append name, newlines-append (type_name type), n, newlines-type_name type) refl

newlines-help_line :
    (name help : Bytes)
    → newlines name ≡ 0
    → newlines help ≡ 0
    → newlines (
        if not (is_empty help)
        then codes "# HELP " ++ (name ++ (codes " " ++ (help ++ codes "\n")))
        else [])
      ≡ (if is_empty help then 0 else 1)
newlines-help_line name [] n h = refl
newlines-help_line name (c ∷ help) n h =
    rw (newlines-append name, newlines-append (c ∷ help), n, h) refl

module _ {D : Type 0} ⦃d : Double D⦄ where
  -- A family is written as one line for the help text, if there is one, one for the type, and one for each sample
  -- of each metric, whatever bytes the label values hold. The hypotheses: no newline is in a printed number, the
  -- family's name, its help text (which is written as it is), or a label's name.
  pub newlines-serialize_family :
      (print : D → Bytes) (family : MetricFamily D)
      → ((x : D) → Lacks b'\n' (print x))
      → Lacks b'\n' family.name
      → Lacks b'\n' family.help
      → All (λ m. All (λ l. Lacks b'\n' l.name) m.label) family.metric
      → newlines (serialize_family print family)
        ≡ (if is_empty family.help then 0 else 1) + (1 + all_samples family.type family.metric)
  unfolding serialize_family
  newlines-serialize_family print family prints n h l =
      let named = newlines-Lacks family.name n in
      rw
        (
          newlines-append (
              if not (is_empty family.help)
              then codes "# HELP " ++ (family.name ++ (codes " " ++ (family.help ++ codes "\n")))
              else []),
          newlines-append (
              codes "# TYPE "
              ++ (family.name ++ (codes " " ++ (type_name family.type ++ codes "\n")))),
          newlines-help_line family.name family.help named (newlines-Lacks family.help h),
          newlines-type_line family.name family.type named,
          newlines-serialize_metrics print prints family named family.metric l,
        )
        refl
