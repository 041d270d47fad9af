-- ===== src/Core/TextSerializer/Family.antt =====
-- A family is read back from its text.
use prometheus_cpp.Common.{
  ℕ, length, bytes_eq, none, ◌≡◌, refl, ap, ◌∙◌, not, List, [], ◌∷◌, ◌++◌, Option, some, ◌>>=?◌,
  Bytes, codes, if◌then◌else◌, is_empty, arith, Lacks, All, append_assoc, drop, has_prefix,
  split_at, split_at-append,
}
use prometheus_cpp.Double.{Double}
use prometheus_cpp.Core.MetricType.{MetricType, counter, gauge, summary, untyped, histogram, info}
use prometheus_cpp.Core.ClientMetric.{MetricFamily}
use prometheus_cpp.Core.TextSerializer.{serialize_metrics, type_name, serialize_family}
use prometheus_cpp.Core.TextSerializer.Sample.{Sample, Lacks-append}
use prometheus_cpp.Core.TextSerializer.Samples.{read_samples, read_samples-Reads, all_samples_of}
use prometheus_cpp.Core.TextSerializer.Metrics.{IsReadable, Reads-metrics}

-- The name and the content of a comment, behind its first seven bytes, and the text behind the line.
unfoldable pub read_comment : Bytes → Option (Bytes × Bytes × Bytes)
unfolding split_at
read_comment lines = split_at b'\n' (drop 7 lines) >>=? λ (line, rest).
    split_at b' ' line >>=? λ (name, content). some (name, content, rest)

-- The help text, which is empty where there is no comment for it.
unfoldable pub read_help : Bytes → Option (Bytes × Bytes)
unfolding read_comment
read_help lines =
    if has_prefix (codes "# HELP ") lines
    then (read_comment lines >>=? λ (name, help, rest). some (help, rest))
    else some ([], lines)

-- The words of the text format for the types of metrics, of which there is none for an info.
unfoldable pub read_type : Bytes → Option MetricType
read_type word =
    if bytes_eq word (codes "counter")
    then some counter
    else if bytes_eq word (codes "gauge")
    then some gauge
    else if bytes_eq word (codes "summary")
    then some summary
    else if bytes_eq word (codes "untyped")
    then some untyped
    else if bytes_eq word (codes "histogram")
    then some histogram
    else none

-- The type as which a family is written: an info is a gauge.
abbrev pub written_type : MetricType → MetricType
written_type counter = counter
written_type gauge = gauge
written_type info = gauge
written_type summary = summary
written_type untyped = untyped
written_type histogram = histogram

read_type-type_name : (t : MetricType) → read_type (type_name t) ≡ some (written_type t)
unfolding read_type
read_type-type_name counter = refl
read_type-type_name gauge = refl
read_type-type_name info = refl
read_type-type_name summary = refl
read_type-type_name untyped = refl
read_type-type_name histogram = refl

-- What the text of a family says.
pub record FamilyText : Type 0 where
  pub name : Bytes
  pub help : Bytes
  pub type : MetricType
  pub samples : List Sample

-- A family with a number of samples, and the text behind it.
unfoldable pub read_family : ℕ → ℕ → Bytes → Option (FamilyText × Bytes)
unfolding read_help read_comment read_samples read_type
read_family fuel n lines = read_help lines >>=? λ (help, behind).
    read_comment behind >>=? λ (name, word, metrics). read_type word >>=? λ type.
    read_samples fuel n metrics >>=? λ (samples, rest).
    some (record { name = name; help = help; type = type; samples = samples }, rest)

abbrev comment : Bytes → Bytes → Bytes → Bytes
comment start name content = start ++ (name ++ (codes " " ++ (content ++ codes "\n")))

read_comment-line :
    (name content rest : Bytes)
    → Lacks b' ' name
    → Lacks b'\n' name
    → Lacks b'\n' content
    → (read_comment (comment (codes "# HELP ") name content ++ rest) ≡ some (name, content, rest))
      × (read_comment (comment (codes "# TYPE ") name content ++ rest) ≡ some (name, content, rest))
unfolding read_comment
read_comment-line name content rest s n c =
    let line = name ++ (b' ' ∷ content) in
    let parts : (name ++ (b' ' ∷ (content ++ codes "\n"))) ++ rest ≡ line ++ (b'\n' ∷ rest) =
      rw (append_assoc name, append_assoc content, append_assoc name) refl in
    let split : split_at b'\n' ((name ++ (b' ' ∷ (content ++ codes "\n"))) ++ rest)
        ≡ some (line, rest) =
      ap (split_at b'\n') parts
      ∙ split_at-append b'\n' line rest
          (Lacks-append b'\n' name (b' ' ∷ content) n (omega arith, c)) in
    (
      rw (split, split_at-append b' ' name content s) refl,
      rw (split, split_at-append b' ' name content s) refl,
    )

Lacks-type_name : (type : MetricType) → Lacks b'\n' (type_name type)
Lacks-type_name counter = omega arith
Lacks-type_name gauge = omega arith
Lacks-type_name info = omega arith
Lacks-type_name untyped = omega arith
Lacks-type_name summary = omega arith
Lacks-type_name histogram = omega arith

-- What is written in front of the type.
abbrev help_line : Bytes → Bytes → Bytes
help_line name help = if not (is_empty help) then comment (codes "# HELP ") name help else []

read_help-line :
    (name help content rest : Bytes)
    → Lacks b' ' name
    → Lacks b'\n' name
    → Lacks b'\n' help
    → read_help (help_line name help ++ (comment (codes "# TYPE ") name content ++ rest))
      ≡ some (help, comment (codes "# TYPE ") name content ++ rest)
unfolding read_help has_prefix
read_help-line name [] content rest s n h = refl
read_help-line name (c ∷ help) content rest s n h =
    ap (λ o. o >>=? λ (name, help, rest). some (help, rest))
      (read_comment-line name (c ∷ help) (comment (codes "# TYPE ") name content ++ rest) s n h).0

module _ {D : Type 0} ⦃d : Double D⦄ where
  -- A family is read back from the text that the serializer writes for it: its name, help text and type (an info
  -- being a gauge), and for each of its
  -- metrics the samples that the type calls for, with the series, labels, value and timestamp of each, whatever bytes the
  -- label values hold; and so is the text behind it. The hypotheses: the name holds no space, newline or brace, and the help
  -- text no newline; no label name holds an equals sign; a printed number holds no space, newline, backslash or quote; and
  -- the fuel is above the number of labels of each metric.
  pub read_family-serialize_family :
      (print : D → Bytes) (fuel : ℕ) (family : MetricFamily D) (rest : Bytes)
      → Lacks b' ' family.name
      → Lacks b'\n' family.name
      → Lacks b'\n' family.help
      → All (IsReadable fuel print family) family.metric
      → let samples = all_samples_of print family family.metric in
        read_family fuel (length samples) (serialize_family print family ++ rest)
        ≡ some (
          record {
            name = family.name;
            help = family.help;
            type = written_type family.type;
            samples = samples;
          },
          rest,
        )
  unfolding serialize_family read_family
  read_family-serialize_family print fuel family rest s n h r =
      let metrics = serialize_metrics print family family.metric in
      let samples = all_samples_of print family family.metric in
      let type = comment (codes "# TYPE ") family.name (type_name family.type) in
      let parts : serialize_family print family ++ rest
          ≡ help_line family.name family.help ++ (type ++ (metrics ++ rest)) =
        unfold serialize_family in
        append_assoc (help_line family.name family.help) (type ++ metrics) rest
        ∙ ap (λ x. help_line family.name family.help ++ x) (append_assoc type metrics rest) in
      ap (read_family fuel (length samples)) parts
      ∙ rw
          (
            read_help-line family.name family.help (type_name family.type) (metrics ++ rest) s n h,
            (read_comment-line family.name (type_name family.type) (metrics ++ rest) s n
                (Lacks-type_name family.type)).1,
            read_type-type_name family.type,
            read_samples-Reads fuel metrics rest samples
                (Reads-metrics print fuel family family.metric r),
          )
          refl
