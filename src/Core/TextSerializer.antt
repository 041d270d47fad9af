-- ===== src/Core/TextSerializer.antt =====
-- core/src/text_serializer.cc and core/src/serializer.cc: the text exposition format. Each function gives what it
-- writes to the stream, in the classic locale. How the stream prints a `double` that is neither NaN nor infinite,
-- to 16 digits, is the parameter `print`.
pub mod Labels
pub mod Newlines
pub mod Lines
pub mod Sample
pub mod ReadBack
pub mod Samples
pub mod Metrics
pub mod Family
pub mod Families
mod Tests
use prometheus_cpp.Common.{
  ℕ, Bool, true, false, not, ◌&&◌, ◌||◌, List, [], ◌∷◌, ◌++◌, Bytes, codes, ◌==◌, if◌then◌else◌,
  is_empty, ℤ, pos, negsuc, show_uint, show_int,
}
use prometheus_cpp.Double.{Double, zero_value}
use prometheus_cpp.Core.MetricType.{MetricType, counter, gauge, summary, untyped, histogram, info}
use prometheus_cpp.Core.ClientMetric.{ClientMetric, LabelPair, Quantile, Bucket, MetricFamily}

-- `WriteValue` of a string.
unfoldable pub escape : Bytes → Bytes
escape [] = []
escape (c ∷ value) =
    if c == b'\n'
    then b'\\' ∷ b'n' ∷ escape value
    else if c == b'\\'
    then b'\\' ∷ c ∷ escape value
    else if c == b'"'
    then b'\\' ∷ c ∷ escape value
    else c ∷ escape value

-- The loop over the labels in `WriteHead`, from the prefix on.
unfoldable pub write_labels : Bytes → List LabelPair → Bytes
unfolding escape
write_labels prefix [] = []
write_labels prefix (lp ∷ labels) =
    prefix
    ++ (lp.name
        ++ (codes "=\"" ++ (escape lp.value ++ (codes "\"" ++ write_labels (codes ",") labels))))

-- The type of `extraLabelValue`: a string or a number.
pub data Extra (D : Type 0) : Type 0 where
  text : Bytes → Extra D
  number : D → Extra D

unfoldable pub write_timestamp : ℤ → Bytes
unfolding show_int
write_timestamp (pos n) = if n == 0 then [] else codes " " ++ show_int (pos n)
write_timestamp (negsuc n) = codes " " ++ show_int (negsuc n)

unfoldable pub write_tail : {D : Type 0} → ClientMetric D → Bytes
unfolding write_timestamp
write_tail metric = write_timestamp metric.timestamp_ms ++ codes "\n"

module _ {D : Type 0} ⦃d : Double D⦄ (print : D → Bytes) where
  -- `WriteValue` of a number.
  unfoldable pub write_value : D → Bytes
  write_value value =
      if d.is_nan value
      then codes "Nan"
      else if d.is_inf value
      then if d.lt value zero_value then codes "-Inf" else codes "+Inf"
      else print value

  unfoldable pub write_extra : Extra D → Bytes
  unfolding write_value escape
  write_extra (text value) = escape value
  write_extra (number value) = write_value value

  -- What `WriteHead` writes for the extra label; the prefix is empty where there is no label in front.
  unfoldable pub write_extra_label : List LabelPair → Bytes → Extra D → Bytes
  unfolding write_extra
  write_extra_label labels extra_name extra =
      if is_empty extra_name
      then []
      else (if is_empty labels then [] else codes ",")
        ++ (extra_name ++ (codes "=\"" ++ (write_extra extra ++ codes "\"")))

  unfoldable pub write_head : MetricFamily D → ClientMetric D → Bytes → Bytes → Extra D → Bytes
  unfolding write_labels write_extra_label
  write_head family metric suffix extra_name extra =
      (family.name ++ suffix)
      ++ ((if not (is_empty metric.label) || not (is_empty extra_name)
            then codes "{"
              ++ (write_labels [] metric.label
                  ++ (write_extra_label metric.label extra_name extra ++ codes "}"))
            else [])
          ++ codes " ")

  -- A line with a number of the given text; `WriteHead` has the default arguments where there is no extra label.
  unfoldable pub write_line :
      MetricFamily D → ClientMetric D → Bytes → Bytes → Extra D → Bytes → Bytes
  unfolding write_head write_tail
  write_line family metric suffix extra_name extra value =
      write_head family metric suffix extra_name extra ++ (value ++ write_tail metric)

  unfoldable pub serialize_plain : MetricFamily D → ClientMetric D → Bytes → D → Bytes
  unfolding write_line write_value
  serialize_plain family metric suffix value =
      write_line family metric suffix [] (text []) (write_value value)

  -- The loop over the quantiles.
  unfoldable pub serialize_quantiles : MetricFamily D → ClientMetric D → List (Quantile D) → Bytes
  unfolding write_line write_value
  serialize_quantiles family metric [] = []
  serialize_quantiles family metric (q ∷ qs) =
      write_line family metric [] (codes "quantile") (number q.quantile) (write_value q.value)
      ++ serialize_quantiles family metric qs

  unfoldable pub serialize_summary : MetricFamily D → ClientMetric D → Bytes
  unfolding serialize_quantiles serialize_plain show_uint
  serialize_summary family metric =
      let sum = metric.summary in
      write_line family metric (codes "_count") [] (text []) (show_uint sum.sample_count)
      ++ (serialize_plain family metric (codes "_sum") sum.sample_sum
          ++ serialize_quantiles family metric sum.quantile)

  -- The loop over the buckets, with `last`, and the line that follows it.
  unfoldable pub serialize_buckets : MetricFamily D → ClientMetric D → D → List (Bucket D) → Bytes
  unfolding write_line show_uint
  serialize_buckets family metric last [] =
      if not (d.le last d.infinity && d.le d.infinity last)
      then write_line family metric (codes "_bucket") (codes "le") (text (codes "+Inf"))
          (show_uint metric.histogram.sample_count)
      else []
  serialize_buckets family metric last (b ∷ bs) =
      write_line family metric (codes "_bucket") (codes "le") (number b.upper_bound)
        (show_uint b.cumulative_count)
      ++ serialize_buckets family metric b.upper_bound bs

  unfoldable pub serialize_histogram : MetricFamily D → ClientMetric D → Bytes
  unfolding serialize_buckets serialize_plain show_uint
  serialize_histogram family metric =
      let hist = metric.histogram in
      write_line family metric (codes "_count") [] (text []) (show_uint hist.sample_count)
      ++ (serialize_plain family metric (codes "_sum") hist.sample_sum
          ++ serialize_buckets family metric d.minus_infinity hist.bucket)

  -- The function that the `switch` calls for each metric.
  unfoldable pub serialize_metric : MetricType → MetricFamily D → ClientMetric D → Bytes
  unfolding serialize_plain serialize_summary serialize_histogram
  serialize_metric counter family metric = serialize_plain family metric [] metric.counter
  serialize_metric gauge family metric = serialize_plain family metric [] metric.gauge
  serialize_metric info family metric = serialize_plain family metric (codes "_info") metric.info
  serialize_metric summary family metric = serialize_summary family metric
  serialize_metric untyped family metric = serialize_plain family metric [] metric.untyped
  serialize_metric histogram family metric = serialize_histogram family metric

  unfoldable pub serialize_metrics : MetricFamily D → List (ClientMetric D) → Bytes
  unfolding serialize_metric
  serialize_metrics family [] = []
  serialize_metrics family (m ∷ ms) =
      serialize_metric family.type family m ++ serialize_metrics family ms

abbrev pub type_name : MetricType → Bytes
type_name counter = codes "counter"
type_name gauge = codes "gauge"
type_name info = codes "gauge"
type_name summary = codes "summary"
type_name untyped = codes "untyped"
type_name histogram = codes "histogram"

module _ {D : Type 0} ⦃d : Double D⦄ (print : D → Bytes) where
  unfoldable pub serialize_family : MetricFamily D → Bytes
  unfolding serialize_metrics
  serialize_family family =
      (if not (is_empty family.help)
        then codes "# HELP " ++ (family.name ++ (codes " " ++ (family.help ++ codes "\n")))
        else [])
      ++ ((codes "# TYPE " ++ (family.name ++ (codes " " ++ (type_name family.type ++ codes "\n"))))
          ++ serialize_metrics print family family.metric)

  -- `Serialize`, into a stream and into a string.
  unfoldable pub serialize : List (MetricFamily D) → Bytes
  unfolding serialize_family
  serialize [] = []
  serialize (family ∷ families) = serialize_family family ++ serialize families
