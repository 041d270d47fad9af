-- ===== src/Core/TextSerializer/ReadBack.antt =====
-- The lines that the serializer writes are read back as the samples that they are written for.
use prometheus_cpp.Common.{
  ℕ, length, ◌≡◌, ◌≤◌, refl, sym, ap, ◌∙◌, Bool, true, false, not, ◌||◌, List, [], ◌∷◌, ◌++◌, some,
  Bytes, codes, if◌then◌else◌, is_empty, Lacks, All, append_assoc,
}
use prometheus_cpp.Double.{Double}
use prometheus_cpp.Core.ClientMetric.{ClientMetric, LabelPair, MetricFamily}
use prometheus_cpp.Core.TextSerializer.{
  escape, write_labels, Extra, write_extra, write_extra_label, write_head, write_tail, write_line,
}
use prometheus_cpp.Core.TextSerializer.Labels.{read_labels-write_labels}
use prometheus_cpp.Core.TextSerializer.Sample.{
  read_value_of, read_sample, IsSeries, read_series-brace, read_series-space, timestamp_text,
  read_value_of-write,
}

-- The labels of a line, with the extra one behind them.
abbrev pub with_extra : List LabelPair → Bytes → Bytes → List LabelPair
with_extra labels [] value = labels
with_extra labels (c ∷ name) value = labels ++ record { name = c ∷ name; value = value } ∷ []

either_way : (b : Bool) (s : Bytes) → (if b then s else s) ≡ s
either_way true s = refl
either_way false s = refl

write_labels-last :
    (prefix : Bytes) (labels : List LabelPair) (lp : LabelPair)
    → write_labels prefix (labels ++ lp ∷ [])
      ≡ write_labels prefix labels
        ++ ((if is_empty labels then prefix else codes ",")
            ++ (lp.name ++ (codes "=\"" ++ (escape lp.value ++ codes "\""))))
unfolding write_labels
write_labels-last prefix [] lp = refl
write_labels-last prefix (l ∷ labels) lp =
    rw
      (
        write_labels-last (codes ",") labels lp,
        either_way (is_empty labels) (codes ","),
        append_assoc prefix,
        append_assoc l.name,
        append_assoc (escape l.value),
      )
      refl

abbrev braces : List LabelPair → Bytes
braces [] = []
braces (l ∷ labels) = codes "{" ++ (write_labels [] (l ∷ labels) ++ codes "}")

read_sample-braces :
    (series : Bytes) (labels : List LabelPair) (tail : Bytes) (fuel : ℕ)
    → IsSeries series
    → All (λ l. Lacks b'=' l.name) labels
    → length labels ≤ fuel
    → read_sample fuel (series ++ (braces labels ++ (b' ' ∷ tail)))
      ≡ read_value_of series labels tail
unfolding read_sample
read_sample-braces series [] tail fuel n l h = rw (read_series-space series tail n) refl
read_sample-braces series (x ∷ labels) tail fuel n l h =
    let inside = write_labels [] (x ∷ labels) ++ (b'}' ∷ b' ' ∷ tail) in
    ap (λ s. read_sample fuel (series ++ (b'{' ∷ s)))
      (append_assoc (write_labels [] (x ∷ labels)) (codes "}") (b' ' ∷ tail))
    ∙ rw
        (
          read_series-brace series inside n,
          read_labels-write_labels x labels fuel (b' ' ∷ tail) h l,
        )
        refl

module _ {D : Type 0} ⦃d : Double D⦄ (print : D → Bytes) where
  in_braces :
      (labels : List LabelPair) (extra_name : Bytes) (extra : Extra D) (extra_text : Bytes)
      → write_extra print extra ≡ escape extra_text
      → (if not (is_empty labels) || not (is_empty extra_name)
          then codes "{"
            ++ (write_labels [] labels
                ++ (write_extra_label print labels extra_name extra ++ codes "}"))
          else [])
        ≡ braces (with_extra labels extra_name extra_text)
  unfolding write_extra_label write_labels
  in_braces [] [] extra extra_text e = refl
  in_braces (l ∷ labels) [] extra extra_text e = refl
  in_braces [] (c ∷ name) extra extra_text e = rw (e) refl
  in_braces (l ∷ labels) (c ∷ name) extra extra_text e =
      let last : LabelPair = record { name = c ∷ name; value = extra_text } in
      ap (λ s. codes "{" ++ s)
        (sym (
            append_assoc (write_labels [] (l ∷ labels))
              (write_extra_label print (l ∷ labels) (c ∷ name) extra) (codes "}"))
          ∙ ap (λ s. s ++ codes "}")
              (ap
                  (λ s.
                    write_labels [] (l ∷ labels)
                    ++ (codes "," ++ ((c ∷ name) ++ (codes "=\"" ++ (s ++ codes "\"")))))
                  e
                ∙ sym (write_labels-last [] (l ∷ labels) last)))

  -- A written line is read back, and so is the text behind it. The hypotheses: the name and the label names are without the
  -- bytes that end them, and so are the value, and what is written for the extra label is an escaped text.
  pub read_sample-write_line :
      (family : MetricFamily D) (metric : ClientMetric D) (suffix extra_name : Bytes)
      (extra : Extra D) (extra_text value rest : Bytes) (fuel : ℕ)
      → IsSeries (family.name ++ suffix)
      → All (λ l. Lacks b'=' l.name) (with_extra metric.label extra_name extra_text)
      → write_extra print extra ≡ escape extra_text
      → Lacks b' ' value
      → Lacks b'\n' value
      → length (with_extra metric.label extra_name extra_text) ≤ fuel
      → read_sample fuel (write_line print family metric suffix extra_name extra value ++ rest)
        ≡ some (
          record {
            series = family.name ++ suffix;
            labels = with_extra metric.label extra_name extra_text;
            value = value;
            timestamp = timestamp_text metric.timestamp_ms;
          },
          rest,
        )
  unfolding write_line write_head
  read_sample-write_line family metric suffix extra_name extra extra_text value rest fuel n l e s v
        h =
      let series = family.name ++ suffix in
      let labels = with_extra metric.label extra_name extra_text in
      let tail = value ++ (write_tail metric ++ rest) in
      let line : write_line print family metric suffix extra_name extra value ++ rest
          ≡ series ++ (braces labels ++ (b' ' ∷ tail)) =
        unfold write_line write_head in
        rw
          (
            in_braces metric.label extra_name extra extra_text e,
            append_assoc (family.name ++ suffix),
            append_assoc (family.name ++ suffix),
            append_assoc (braces (with_extra metric.label extra_name extra_text)),
            append_assoc (braces (with_extra metric.label extra_name extra_text)),
            append_assoc value,
          )
          refl in
      ap (read_sample fuel) line
      ∙ (read_sample-braces series labels tail fuel n l h
          ∙ read_value_of-write series labels value rest metric s v)
