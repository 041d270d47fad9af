-- ===== src/Core/TextSerializer/Newlines.antt =====
-- The newlines that the parts of a line hold: none but the one at its end.
use prometheus_cpp.Common.{
  ℕ, suc, ◌+◌, ◌≡◌, refl, not, ◌||◌, List, [], ◌∷◌, ◌++◌, Bytes, codes, ◌==◌, if◌then◌else◌,
  is_empty, arith, Lacks, All, ℤ, pos, negsuc, show_uint, show_int, IsDigit, show_uint-IsDigit,
}
use prometheus_cpp.Double.{Double}
use prometheus_cpp.Core.ClientMetric.{ClientMetric, LabelPair, MetricFamily}
use prometheus_cpp.Core.TextSerializer.{
  escape, write_labels, Extra, text, number, write_value, write_extra, write_extra_label,
  write_head, write_timestamp, write_tail, write_line,
}

abbrev pub newlines : Bytes → ℕ
newlines [] = 0
newlines (c ∷ s) = if c == b'\n' then suc (newlines s) else newlines s

pub newlines-append : (s t : Bytes) → newlines (s ++ t) ≡ newlines s + newlines t
newlines-append [] t = omega arith
newlines-append (c ∷ s) t = ground (arith, newlines-append s t)

pub newlines-Lacks : (s : Bytes) → Lacks b'\n' s → newlines s ≡ 0
newlines-Lacks [] h = refl
newlines-Lacks (c ∷ s) h = ground (arith, newlines-Lacks s h.1)

newlines-digits : (s : Bytes) → All IsDigit s → newlines s ≡ 0
newlines-digits [] h = refl
newlines-digits (c ∷ s) h = ground (arith, newlines-digits s h.1)

pub newlines-show_uint : (n : ℕ) → newlines (show_uint n) ≡ 0
newlines-show_uint n = newlines-digits (show_uint n) (show_uint-IsDigit n)

newlines-escape : (value : Bytes) → newlines (escape value) ≡ 0
unfolding escape
newlines-escape [] = refl
newlines-escape (c ∷ value) = ground (arith, newlines-escape value)

newlines-write_labels :
    (prefix : Bytes) (labels : List LabelPair)
    → newlines prefix ≡ 0
    → All (λ l. Lacks b'\n' l.name) labels
    → newlines (write_labels prefix labels) ≡ 0
unfolding write_labels
newlines-write_labels prefix [] p h = refl
newlines-write_labels prefix (l ∷ labels) p h =
    rw
      (
        newlines-append prefix,
        newlines-append l.name,
        newlines-append (escape l.value),
        p,
        newlines-Lacks l.name h.0,
        newlines-escape l.value,
      )
      (omega (arith, newlines-write_labels (codes ",") labels refl h.1))

newlines-write_timestamp : (t : ℤ) → newlines (write_timestamp t) ≡ 0
unfolding write_timestamp show_int
newlines-write_timestamp (pos n) = ground (arith, newlines-show_uint n)
newlines-write_timestamp (negsuc n) = newlines-show_uint (suc n)

newlines-write_tail : {D : Type 0} → (metric : ClientMetric D) → newlines (write_tail metric) ≡ 1
unfolding write_tail
newlines-write_tail metric =
    rw
      (
        newlines-append (write_timestamp metric.timestamp_ms),
        newlines-write_timestamp metric.timestamp_ms,
      )
      refl

module _ {D : Type 0} ⦃d : Double D⦄ (print : D → Bytes)
    (prints : (x : D) → Lacks b'\n' (print x)) where
  pub newlines-write_value : (value : D) → newlines (write_value print value) ≡ 0
  unfolding write_value
  newlines-write_value value = ground (arith, newlines-Lacks (print value) (prints value))

  newlines-write_extra : (extra : Extra D) → newlines (write_extra print extra) ≡ 0
  unfolding write_extra
  newlines-write_extra (text value) = newlines-escape value
  newlines-write_extra (number value) = newlines-write_value value

  newlines-write_extra_label :
      (labels : List LabelPair) (extra_name : Bytes) (extra : Extra D)
      → newlines extra_name ≡ 0
      → newlines (write_extra_label print labels extra_name extra) ≡ 0
  unfolding write_extra_label
  newlines-write_extra_label labels extra_name extra h = ground (
    arith,
    newlines-append (if is_empty labels then [] else codes ",")
        (extra_name ++ (codes "=\"" ++ (write_extra print extra ++ codes "\""))),
    newlines-append extra_name (codes "=\"" ++ (write_extra print extra ++ codes "\"")),
    newlines-append (write_extra print extra) (codes "\""),
    newlines-write_extra extra,
  )

  newlines-write_head :
      (family : MetricFamily D) (metric : ClientMetric D) (suffix extra_name : Bytes)
      (extra : Extra D)
      → newlines family.name ≡ 0
      → All (λ l. Lacks b'\n' l.name) metric.label
      → newlines suffix ≡ 0
      → newlines extra_name ≡ 0
      → newlines (write_head print family metric suffix extra_name extra) ≡ 0
  unfolding write_head
  newlines-write_head family metric suffix extra_name extra n l s e = ground (
    arith,
    newlines-append (family.name ++ suffix) (
        (if not (is_empty metric.label) || not (is_empty extra_name)
          then codes "{"
            ++ (write_labels [] metric.label
                ++ (write_extra_label print metric.label extra_name extra ++ codes "}"))
          else [])
        ++ codes " "),
    newlines-append family.name suffix,
    newlines-append
        (if not (is_empty metric.label) || not (is_empty extra_name)
          then codes "{"
            ++ (write_labels [] metric.label
                ++ (write_extra_label print metric.label extra_name extra ++ codes "}"))
          else [])
        (codes " "),
    newlines-append (write_labels [] metric.label)
        (write_extra_label print metric.label extra_name extra ++ codes "}"),
    newlines-append (write_extra_label print metric.label extra_name extra) (codes "}"),
    newlines-write_labels [] metric.label refl l,
    newlines-write_extra_label metric.label extra_name extra e,
  )

  pub newlines-write_line :
      (family : MetricFamily D) (metric : ClientMetric D) (suffix extra_name : Bytes)
      (extra : Extra D) (value : Bytes)
      → newlines family.name ≡ 0
      → All (λ l. Lacks b'\n' l.name) metric.label
      → newlines suffix ≡ 0
      → newlines extra_name ≡ 0
      → newlines value ≡ 0
      → newlines (write_line print family metric suffix extra_name extra value) ≡ 1
  unfolding write_line
  newlines-write_line family metric suffix extra_name extra value n l s e v =
      rw
        (
          newlines-append (write_head print family metric suffix extra_name extra),
          newlines-append value,
          newlines-write_head family metric suffix extra_name extra n l s e,
          v,
          newlines-write_tail metric,
        )
        refl
