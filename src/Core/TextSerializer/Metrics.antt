-- ===== src/Core/TextSerializer/Metrics.antt =====
-- The samples of a family's metrics are read back from the text that the serializer writes for them.
use prometheus_cpp.Common.{
  ℕ, suc, length, ◌≡◌, ◌≤◌, refl, ◌∙◌, ◌&&◌, List, [], ◌∷◌, Bytes, codes, arith, Lacks, All,
  All-mono, All-append, length-append, show_uint, show_uint-IsDigit, Bool-cases, inl, inr,
}
use prometheus_cpp.Double.{Double, zero_value}
use prometheus_cpp.Core.MetricType.{MetricType, counter, gauge, summary, untyped, histogram, info}
use prometheus_cpp.Core.ClientMetric.{ClientMetric, LabelPair, Quantile, Bucket, MetricFamily}
use prometheus_cpp.Core.TextSerializer.{
  escape, Extra, text, number, write_value, write_extra, write_line, serialize_plain,
  serialize_quantiles, serialize_summary, serialize_buckets, serialize_histogram, serialize_metric,
  serialize_metrics,
}
use prometheus_cpp.Core.TextSerializer.Sample.{Lacks-append, IsSeries}
use prometheus_cpp.Core.TextSerializer.ReadBack.{with_extra, read_sample-write_line}
use prometheus_cpp.Core.TextSerializer.Samples.{
  IsPlain, escape-plain, digits-IsPlain, Reads, Reads-append, Reads-one, sample_of, plain_sample,
  bucket_samples, quantile_samples, shown, write_value-shown, samples_of, all_samples_of,
}

-- Names, labels and printed numbers that the format can hold, and fuel for a label more.
pub record IsReadable {D : Type 0} (fuel : ℕ) (print : D → Bytes) (family : MetricFamily D)
    (m : ClientMetric D) : Type 0 where
  pub name_ends : Lacks b'{' family.name × Lacks b' ' family.name
  pub labels_end : All (λ l. Lacks b'=' l.name) m.label
  pub enough : suc (length m.label) ≤ fuel
  pub prints : (x : D) → All IsPlain (print x)

module _ {D : Type 0} ⦃d : Double D⦄ (print : D → Bytes) where
  write_value-IsPlain :
      (x : D) → ((y : D) → All IsPlain (print y)) → All IsPlain (write_value print x)
  unfolding write_value
  write_value-IsPlain x p = elim (Bool-cases (d.is_nan x)) [
    | inl e ↦ rw (e) (omega arith)
    | inr e ↦ elim (Bool-cases (d.is_inf x)) [
      | inl f ↦ elim (Bool-cases (d.lt x zero_value)) [
        | inl g ↦ rw (e, f, g) (omega arith)
        | inr g ↦ rw (e, f, g) (omega arith)
      ]
      | inr f ↦ rw (e, f) (p x)
    ]
  ]

  extra-ends :
      (labels : List LabelPair) (name value : Bytes)
      → All (λ l. Lacks b'=' l.name) labels
      → Lacks b'=' name
      → All (λ l. Lacks b'=' l.name) (with_extra labels name value)
  extra-ends labels [] value l n = l
  extra-ends labels (c ∷ name) value l n = All-append _ labels _ l (n, tt)

  extra-length :
      (labels : List LabelPair) (name value : Bytes)
      → length (with_extra labels name value) ≤ suc (length labels)
  extra-length labels [] value = omega arith
  extra-length labels (c ∷ name) value =
      omega (arith, length-append labels (record { name = c ∷ name; value = value } ∷ []))

  Reads-line :
      (fuel : ℕ) (family : MetricFamily D) (m : ClientMetric D) (suffix extra_name : Bytes)
      (extra : Extra D) (extra_text value : Bytes)
      → IsReadable fuel print family m
      → IsSeries suffix
      → Lacks b'=' extra_name
      → write_extra print extra ≡ escape extra_text
      → All IsPlain value
      → Reads fuel
          (write_line print family m suffix extra_name extra value)
          (sample_of print family m suffix extra_name extra_text value ∷ [])
  Reads-line fuel family m suffix extra_name extra extra_text value r n x e v =
      Reads-one fuel _ _ (λ rest.
        read_sample-write_line print family m suffix extra_name extra extra_text value rest fuel
          (
            Lacks-append b'{' family.name suffix r.name_ends.0 n.0,
            Lacks-append b' ' family.name suffix r.name_ends.1 n.1,
          )
          (extra-ends m.label extra_name extra_text r.labels_end x) e
          (All-mono _ _ value (λ c k. k.0) v) (All-mono _ _ value (λ c k. k.1) v)
          (omega (arith, r.enough, extra-length m.label extra_name extra_text)))

  shown-IsPlain : (x : D) → ((y : D) → All IsPlain (print y)) → All IsPlain (shown print x)
  shown-IsPlain x p = rw (← write_value-shown print x) (write_value-IsPlain x p)

  -- A number as an extra label is written as it is shown.
  write_number :
      (x : D)
      → ((y : D) → All IsPlain (print y))
      → write_extra print (number x) ≡ escape (shown print x)
  unfolding write_extra
  write_number x p = write_value-shown print x ∙ escape-plain (shown print x) (shown-IsPlain x p)

  Reads-plain :
      (fuel : ℕ) (family : MetricFamily D) (m : ClientMetric D) (suffix : Bytes) (value : D)
      → IsReadable fuel print family m
      → IsSeries suffix
      → Reads fuel
          (serialize_plain print family m suffix value)
          (plain_sample print family m suffix value ∷ [])
  unfolding serialize_plain
  Reads-plain fuel family m suffix value r n = rw (write_value-shown print value) (
      Reads-line fuel family m suffix [] (text []) [] (shown print value) r n tt refl
        (shown-IsPlain value r.prints))

  Reads-count :
      (fuel : ℕ) (family : MetricFamily D) (m : ClientMetric D) (n : ℕ)
      → IsReadable fuel print family m
      → Reads fuel
          (write_line print family m (codes "_count") [] (text []) (show_uint n))
          (sample_of print family m (codes "_count") [] [] (show_uint n) ∷ [])
  unfolding escape write_extra
  Reads-count fuel family m n r =
      Reads-line fuel family m (codes "_count") [] (text []) [] (show_uint n) r
        (omega arith, omega arith) tt refl (digits-IsPlain (show_uint n) (show_uint-IsDigit n))

  Reads-quantiles :
      (fuel : ℕ) (family : MetricFamily D) (m : ClientMetric D) (qs : List (Quantile D))
      → IsReadable fuel print family m
      → Reads fuel (serialize_quantiles print family m qs) (quantile_samples print family m qs)
  unfolding serialize_quantiles
  Reads-quantiles fuel family m [] r = refl
  Reads-quantiles fuel family m (q ∷ qs) r = rw (write_value-shown print q.value) (
      Reads-append fuel _ (serialize_quantiles print family m qs) (_ ∷ [])
        (quantile_samples print family m qs)
        (Reads-line fuel family m [] (codes "quantile") (number q.quantile) (shown print q.quantile)
          (shown print q.value) r (tt, tt) (omega arith) (write_number q.quantile r.prints)
          (shown-IsPlain q.value r.prints))
        (Reads-quantiles fuel family m qs r))

  Reads-buckets :
      (fuel : ℕ) (family : MetricFamily D) (m : ClientMetric D) (last : D) (bs : List (Bucket D))
      → IsReadable fuel print family m
      → Reads fuel
          (serialize_buckets print family m last bs)
          (bucket_samples print family m last bs)
  unfolding serialize_buckets
  Reads-buckets fuel family m last [] r =
      elim (Bool-cases (d.le last d.infinity && d.le d.infinity last)) [
        | inl e ↦ rw (e) refl
        | inr e ↦ rw (e) (
            Reads-line fuel family m (codes "_bucket") (codes "le") (text (codes "+Inf"))
              (codes "+Inf") (show_uint m.histogram.sample_count) r (omega arith, omega arith)
              (omega arith) refl
              (digits-IsPlain (show_uint m.histogram.sample_count)
                (show_uint-IsDigit m.histogram.sample_count)))
      ]
  Reads-buckets fuel family m last (b ∷ bs) r =
      Reads-append fuel _ (serialize_buckets print family m b.upper_bound bs) (_ ∷ [])
        (bucket_samples print family m b.upper_bound bs)
        (Reads-line fuel family m (codes "_bucket") (codes "le") (number b.upper_bound)
          (shown print b.upper_bound) (show_uint b.cumulative_count) r (omega arith, omega arith)
          (omega arith) (write_number b.upper_bound r.prints)
          (digits-IsPlain (show_uint b.cumulative_count) (show_uint-IsDigit b.cumulative_count)))
        (Reads-buckets fuel family m b.upper_bound bs r)

  Reads-metric :
      (fuel : ℕ) (type : MetricType) (family : MetricFamily D) (m : ClientMetric D)
      → IsReadable fuel print family m
      → Reads fuel (serialize_metric print type family m) (samples_of print type family m)
  unfolding serialize_metric serialize_summary serialize_histogram
  Reads-metric fuel counter family m r = Reads-plain fuel family m [] m.counter r (tt, tt)
  Reads-metric fuel gauge family m r = Reads-plain fuel family m [] m.gauge r (tt, tt)
  Reads-metric fuel untyped family m r = Reads-plain fuel family m [] m.untyped r (tt, tt)
  Reads-metric fuel info family m r =
      Reads-plain fuel family m (codes "_info") m.info r (omega arith, omega arith)
  Reads-metric fuel summary family m r =
      Reads-append fuel _ _ (_ ∷ [])
        (plain_sample print family m (codes "_sum") m.summary.sample_sum
          ∷ quantile_samples print family m m.summary.quantile)
        (Reads-count fuel family m m.summary.sample_count r)
        (Reads-append fuel _ _ (_ ∷ []) (quantile_samples print family m m.summary.quantile)
          (Reads-plain fuel family m (codes "_sum") m.summary.sample_sum r
            (omega arith, omega arith))
          (Reads-quantiles fuel family m m.summary.quantile r))
  Reads-metric fuel histogram family m r =
      Reads-append fuel _ _ (_ ∷ [])
        (plain_sample print family m (codes "_sum") m.histogram.sample_sum
          ∷ bucket_samples print family m d.minus_infinity m.histogram.bucket)
        (Reads-count fuel family m m.histogram.sample_count r)
        (Reads-append fuel _ _ (_ ∷ [])
          (bucket_samples print family m d.minus_infinity m.histogram.bucket)
          (Reads-plain fuel family m (codes "_sum") m.histogram.sample_sum r
            (omega arith, omega arith))
          (Reads-buckets fuel family m d.minus_infinity m.histogram.bucket r))

  pub Reads-metrics :
      (fuel : ℕ) (family : MetricFamily D) (ms : List (ClientMetric D))
      → All (IsReadable fuel print family) ms
      → Reads fuel (serialize_metrics print family ms) (all_samples_of print family ms)
  unfolding serialize_metrics
  Reads-metrics fuel family [] r = refl
  Reads-metrics fuel family (m ∷ ms) r =
      Reads-append fuel (serialize_metric print family.type family m)
        (serialize_metrics print family ms) (samples_of print family.type family m)
        (all_samples_of print family ms) (Reads-metric fuel family.type family m r.0)
        (Reads-metrics fuel family ms r.1)
