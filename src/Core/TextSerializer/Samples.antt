-- ===== src/Core/TextSerializer/Samples.antt =====
-- The samples that a family's metrics stand for, and a reader of them, line by line.
use prometheus_cpp.Common.{
  ℕ, zero, suc, length, ◌≡◌, ◌≢◌, refl, sym, ap, ◌∙◌, not, ◌&&◌, List, [], ◌∷◌, ◌++◌, Option, some,
  ◌>>=?◌, Bytes, codes, if◌then◌else◌, arith, All, All-mono, append_assoc, show_uint, IsDigit,
  append-nil,
}
use mathlib.Core.Path.{subst}
use prometheus_cpp.Double.{Double, zero_value}
use prometheus_cpp.Core.MetricType.{MetricType, counter, gauge, summary, untyped, histogram, info}
use prometheus_cpp.Core.ClientMetric.{ClientMetric, Quantile, Bucket, MetricFamily}
use prometheus_cpp.Core.TextSerializer.{escape, write_value}
use prometheus_cpp.Core.TextSerializer.Sample.{Sample, read_sample, timestamp_text}
use prometheus_cpp.Core.TextSerializer.ReadBack.{with_extra}

-- Some lines, and the text behind them.
unfoldable pub read_samples : ℕ → ℕ → Bytes → Option (List Sample × Bytes)
unfolding read_sample
read_samples fuel zero lines = some ([], lines)
read_samples fuel (suc n) lines = read_sample fuel lines >>=? λ (s, rest).
    read_samples fuel n rest >>=? λ (ss, left). some (s ∷ ss, left)

-- A byte that neither ends a value nor is escaped.
abbrev pub IsPlain : ℕ → Type 0
IsPlain c = (c ≢ b' ') × (c ≢ b'\n') × (c ≢ b'\\') × (c ≢ b'"')

pub escape-plain : (s : Bytes) → All IsPlain s → s ≡ escape s
unfolding escape
escape-plain [] h = refl
escape-plain (c ∷ s) h = ground (arith, escape-plain s h.1)

pub digits-IsPlain : (s : Bytes) → All IsDigit s → All IsPlain s
digits-IsPlain s h =
    All-mono _ _ s
      (λ c k. (omega (arith, k.0), omega (arith, k.0), omega (arith, k.1), omega (arith, k.0))) h

-- The text is made of lines, of which each is read as its sample, whatever stands behind it.
abbrev pub Reads : ℕ → Bytes → List Sample → Type 0
Reads fuel written [] = written ≡ []
Reads fuel written (s ∷ ss) =
    (line : Bytes) × (more : Bytes) × (written ≡ line ++ more)
    × ((rest : Bytes) → read_sample fuel (line ++ rest) ≡ some (s, rest))
    × Reads fuel more ss

pub Reads-append :
    (fuel : ℕ) (a b : Bytes) (ss ts : List Sample)
    → Reads fuel a ss
    → Reads fuel b ts
    → Reads fuel (a ++ b) (ss ++ ts)
Reads-append fuel a b [] ts r q = subst (λ x. Reads fuel (x ++ b) ts) (sym r) q
Reads-append fuel a b (s ∷ ss) ts (line, more, e, one, r) q = (
  line,
  more ++ b,
  ap (λ x. x ++ b) e ∙ append_assoc line more b,
  one,
  Reads-append fuel more b ss ts r q,
)

pub Reads-one :
    (fuel : ℕ) (line : Bytes) (s : Sample)
    → ((rest : Bytes) → read_sample fuel (line ++ rest) ≡ some (s, rest))
    → Reads fuel line (s ∷ [])
Reads-one fuel line s one = (line, [], sym (append-nil line), one, refl)

pub read_samples-Reads :
    (fuel : ℕ) (written rest : Bytes) (ss : List Sample)
    → Reads fuel written ss
    → read_samples fuel (length ss) (written ++ rest) ≡ some (ss, rest)
unfolding read_samples
read_samples-Reads fuel written rest [] r = rw (r) refl
read_samples-Reads fuel written rest (s ∷ ss) (line, more, e, one, r) =
    rw (e, append_assoc line more rest, one (more ++ rest), read_samples-Reads fuel more rest ss r)
      refl

module _ {D : Type 0} ⦃d : Double D⦄ (print : D → Bytes) where
  -- The words of the text format for the numbers that are not finite, and the printed text for the others.
  abbrev pub shown : D → Bytes
  shown x =
      if not (d.is_nan x) && not (d.is_inf x)
      then print x
      else if d.is_nan x
      then codes "Nan"
      else if d.lt x zero_value
      then codes "-Inf"
      else codes "+Inf"

  pub write_value-shown : (x : D) → write_value print x ≡ shown x
  unfolding write_value
  write_value-shown x = ground arith

  -- What a metric's lines say, one for each sample.
  abbrev pub sample_of : MetricFamily D → ClientMetric D → Bytes → Bytes → Bytes → Bytes → Sample
  sample_of family metric suffix extra_name extra_text value = record {
    series = family.name ++ suffix;
    labels = with_extra metric.label extra_name extra_text;
    value = value;
    timestamp = timestamp_text metric.timestamp_ms;
  }

  abbrev pub plain_sample : MetricFamily D → ClientMetric D → Bytes → D → Sample
  plain_sample family metric suffix value = sample_of family metric suffix [] [] (shown value)

  abbrev pub bucket_samples : MetricFamily D → ClientMetric D → D → List (Bucket D) → List Sample
  bucket_samples family metric last [] =
      if not (d.le last d.infinity && d.le d.infinity last)
      then sample_of family metric (codes "_bucket") (codes "le") (codes "+Inf")
          (show_uint metric.histogram.sample_count)
        ∷ []
      else []
  bucket_samples family metric last (b ∷ bs) =
      sample_of family metric (codes "_bucket") (codes "le") (shown b.upper_bound)
        (show_uint b.cumulative_count)
      ∷ bucket_samples family metric b.upper_bound bs

  abbrev pub quantile_samples : MetricFamily D → ClientMetric D → List (Quantile D) → List Sample
  quantile_samples family metric [] = []
  quantile_samples family metric (q ∷ qs) =
      sample_of family metric [] (codes "quantile") (shown q.quantile) (shown q.value)
      ∷ quantile_samples family metric qs

  abbrev pub samples_of : MetricType → MetricFamily D → ClientMetric D → List Sample
  samples_of counter family m = plain_sample family m [] m.counter ∷ []
  samples_of gauge family m = plain_sample family m [] m.gauge ∷ []
  samples_of info family m = plain_sample family m (codes "_info") m.info ∷ []
  samples_of untyped family m = plain_sample family m [] m.untyped ∷ []
  samples_of summary family m =
      sample_of family m (codes "_count") [] [] (show_uint m.summary.sample_count)
      ∷ plain_sample family m (codes "_sum") m.summary.sample_sum
      ∷ quantile_samples family m m.summary.quantile
  samples_of histogram family m =
      sample_of family m (codes "_count") [] [] (show_uint m.histogram.sample_count)
      ∷ plain_sample family m (codes "_sum") m.histogram.sample_sum
      ∷ bucket_samples family m d.minus_infinity m.histogram.bucket

  abbrev pub all_samples_of : MetricFamily D → List (ClientMetric D) → List Sample
  all_samples_of family [] = []
  all_samples_of family (m ∷ ms) = samples_of family.type family m ++ all_samples_of family ms
