-- ===== src/Core/TextSerializer/Labels.antt =====
-- The labels of a line are read back from the text, so that no label value can be taken for another label.
use prometheus_cpp.Common.{
  ℕ, zero, suc, length, ◌≡◌, ◌≤◌, refl, ap, Bool, true, false, List, [], ◌∷◌, ◌++◌, Option, none,
  some, ◌>>=?◌, Bytes, codes, ◌==◌, if◌then◌else◌, arith, Lacks, All, append_assoc,
}
use prometheus_cpp.Core.ClientMetric.{LabelPair}
use prometheus_cpp.Core.TextSerializer.{escape, write_labels}

-- A reader of the format: what a backslash in front of a byte means.
abbrev unescaped : ℕ → ℕ
unescaped c = if c == b'n' then b'\n' else c

-- A value up to the closing quote, which stands on the same line, and the text behind the quote. The test tells whether
-- a backslash stands in front.
unfoldable pub read_value : Bool → Bytes → Option (Bytes × Bytes)
read_value behind [] = none
read_value true (c ∷ rest) =
    read_value false rest >>=? λ (value, left). some (unescaped c ∷ value, left)
read_value false (c ∷ rest) =
    if c == b'"'
    then some ([], rest)
    else if c == b'\\'
    then read_value true rest
    else if c == b'\n'
    then none
    else (read_value false rest >>=? λ (value, left). some (c ∷ value, left))

-- A name up to the equals sign, and the text behind it.
unfoldable pub read_name : Bytes → Option (Bytes × Bytes)
read_name [] = none
read_name (c ∷ rest) =
    if c == b'='
    then some ([], rest)
    else (read_name rest >>=? λ (name, left). some (c ∷ name, left))

read_value-escape :
    (value rest : Bytes) → read_value false (escape value ++ (b'"' ∷ rest)) ≡ some (value, rest)
unfolding read_value escape
read_value-escape [] rest = refl
read_value-escape (c ∷ value) rest = ground (arith, read_value-escape value rest)

read_name-append :
    (name rest : Bytes) → Lacks b'=' name → read_name (name ++ (b'=' ∷ rest)) ≡ some (name, rest)
unfolding read_name
read_name-append [] rest h = refl
read_name-append (c ∷ name) rest h = ground (arith, read_name-append name rest h.1)

abbrev read_quoted : Bytes → Option (Bytes × Bytes)
read_quoted [] = none
read_quoted (c ∷ rest) = if c == b'"' then read_value false rest else none

abbrev read_label : Bytes → Option (LabelPair × Bytes)
read_label text = read_name text >>=? λ (name, quoted).
    read_quoted quoted >>=? λ (value, behind). some (record { name = name; value = value }, behind)

-- The labels up to the closing brace, and the text behind it. The fuel is the number of labels that are read at
-- most.
unfoldable pub read_labels : ℕ → Bytes → Option (List LabelPair × Bytes)
unfolding read_value read_name
read_labels zero text = none
read_labels (suc fuel) text = read_label text >>=? λ (lp, behind). elim behind [
  | [] ↦ none
  | c ∷ rest ↦
      if c == b'}'
      then some (lp ∷ [], rest)
      else if c == b','
      then (read_labels fuel rest >>=? λ (labels, left). some (lp ∷ labels, left))
      else none
]

read_label-escape :
    (lp : LabelPair) (rest : Bytes)
    → Lacks b'=' lp.name
    → read_label (lp.name ++ (b'=' ∷ b'"' ∷ (escape lp.value ++ (b'"' ∷ rest)))) ≡ some (lp, rest)
unfolding read_value
read_label-escape lp rest h =
    rw
      (
        read_name-append lp.name (b'"' ∷ (escape lp.value ++ (b'"' ∷ rest))) h,
        read_value-escape lp.value rest,
      )
      refl

-- What stands behind the labels is moved inside.
write_labels-append :
    (lp : LabelPair) (labels : List LabelPair) (prefix rest : Bytes)
    → write_labels prefix (lp ∷ labels) ++ rest
      ≡ prefix
        ++ (lp.name
            ++ (b'='
                ∷ b'"'
                ∷ (escape lp.value ++ (b'"' ∷ (write_labels (codes ",") labels ++ rest)))))
unfolding write_labels
write_labels-append lp labels prefix rest =
    rw (append_assoc prefix, append_assoc lp.name, append_assoc (escape lp.value)) refl

read_labels-last :
    (lp : LabelPair) (fuel : ℕ) (rest : Bytes)
    → Lacks b'=' lp.name
    → read_labels (suc fuel) (write_labels [] (lp ∷ []) ++ (b'}' ∷ rest)) ≡ some (lp ∷ [], rest)
unfolding read_labels
read_labels-last lp fuel rest h =
    rw
      (
        write_labels-append lp [] [] (b'}' ∷ rest),
        read_label-escape lp (write_labels (codes ",") [] ++ (b'}' ∷ rest)) h,
      )
      (unfold write_labels in refl)

read_labels-next :
    (lp l : LabelPair) (labels : List LabelPair) (fuel : ℕ) (rest : Bytes)
    → Lacks b'=' lp.name
    → read_labels fuel (write_labels [] (l ∷ labels) ++ (b'}' ∷ rest)) ≡ some (l ∷ labels, rest)
    → read_labels (suc fuel) (write_labels [] (lp ∷ l ∷ labels) ++ (b'}' ∷ rest))
      ≡ some (lp ∷ l ∷ labels, rest)
unfolding read_labels
read_labels-next lp l labels fuel rest h others =
    rw
      (
        write_labels-append lp (l ∷ labels) [] (b'}' ∷ rest),
        read_label-escape lp (write_labels (codes ",") (l ∷ labels) ++ (b'}' ∷ rest)) h,
      )
      (unfold write_labels in ap (λ o. o >>=? λ (found, left). some (lp ∷ found, left)) others)

-- The labels of a line are read back from the text between its braces, whatever bytes their values hold, and so is
-- what stands behind the closing brace. The hypotheses: there is a label, the fuel is not less than the number of labels,
-- and no label's name holds an equals sign (as no valid label name does).
pub read_labels-write_labels :
    (lp : LabelPair) (labels : List LabelPair) (fuel : ℕ) (rest : Bytes)
    → length (lp ∷ labels) ≤ fuel
    → All (λ l. Lacks b'=' l.name) (lp ∷ labels)
    → read_labels fuel (write_labels [] (lp ∷ labels) ++ (b'}' ∷ rest)) ≡ some (lp ∷ labels, rest)
read_labels-write_labels lp labels zero rest e h = absurd (omega arith)
read_labels-write_labels lp [] (suc fuel) rest e h = read_labels-last lp fuel rest h.0
read_labels-write_labels lp (l ∷ labels) (suc fuel) rest e h =
    read_labels-next lp l labels fuel rest h.0
      (read_labels-write_labels l labels fuel rest (omega arith) h.1)
