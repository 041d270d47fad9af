-- ===== src/Core/TextSerializer/Sample.antt =====
-- A line of the text is read back: the series, its labels, the value and the timestamp.
use prometheus_cpp.Common.{
  ℕ, suc, ◌≡◌, ◌≤◌, refl, sym, ap, ◌∙◌, Bool, true, false, List, [], ◌∷◌, ◌++◌, Option, none, some,
  ◌>>=?◌, Bytes, codes, ◌==◌, if◌then◌else◌, arith, Lacks, All, append_assoc, append-nil, split_at,
  split_at-append, split_at-Lacks, ℤ, pos, negsuc, show_int, show_uint, IsDigit, show_uint-IsDigit,
  Bool-cases, inl, inr,
}
use prometheus_cpp.Core.ClientMetric.{ClientMetric, LabelPair}
use prometheus_cpp.Core.TextSerializer.{write_timestamp, write_tail}
use prometheus_cpp.Core.TextSerializer.Labels.{read_labels}

-- What a line says.
pub record Sample : Type 0 where
  pub series : Bytes
  pub labels : List LabelPair
  pub value : Bytes
  pub timestamp : Option Bytes

-- The series up to a brace or a space, which of these it was, and the text behind it.
unfoldable pub read_series : Bytes → Option (Bytes × Bool × Bytes)
read_series [] = none
read_series (c ∷ s) =
    if c == b'{'
    then some ([], true, s)
    else if c == b' '
    then some ([], false, s)
    else (read_series s >>=? λ (name, brace, rest). some (c ∷ name, brace, rest))

-- The value, and the timestamp if there is a second space.
abbrev parted : Bytes → Option (Bytes × Bytes) → Bytes × Option Bytes
parted line none = (line, none)
parted line (some (value, timestamp)) = (value, some timestamp)

abbrev value_and_timestamp : Bytes → Bytes × Option Bytes
value_and_timestamp line = parted line (split_at b' ' line)

unfoldable pub read_value_of : Bytes → List LabelPair → Bytes → Option (Sample × Bytes)
unfolding split_at
read_value_of series labels text = split_at b'\n' text >>=? λ (line, rest).
    let (value, timestamp) = value_and_timestamp line in
    some (record { series = series; labels = labels; value = value; timestamp = timestamp }, rest)

abbrev pub behind_labels : Bytes → List LabelPair → Bytes → Option (Sample × Bytes)
behind_labels series labels [] = none
behind_labels series labels (c ∷ text) =
    if c == b' ' then read_value_of series labels text else none

-- A line, with at most as many labels as there is fuel, and the text behind it.
unfoldable pub read_sample : ℕ → Bytes → Option (Sample × Bytes)
unfolding read_series read_labels read_value_of
read_sample fuel text = read_series text >>=? λ (series, brace, rest).
    if brace
    then (read_labels fuel rest >>=? λ (labels, behind). behind_labels series labels behind)
    else read_value_of series [] rest

abbrev pub IsSeries : Bytes → Type 0
IsSeries name = Lacks b'{' name × Lacks b' ' name

pub read_series-brace :
    (name rest : Bytes)
    → IsSeries name
    → read_series (name ++ b'{' ∷ rest) ≡ some (name, true, rest)
unfolding read_series
read_series-brace [] rest h = refl
read_series-brace (c ∷ name) rest (b, s) = ground (arith, read_series-brace name rest (b.1, s.1))

pub read_series-space :
    (name rest : Bytes)
    → IsSeries name
    → read_series (name ++ b' ' ∷ rest) ≡ some (name, false, rest)
unfolding read_series
read_series-space [] rest h = refl
read_series-space (c ∷ name) rest (b, s) = ground (arith, read_series-space name rest (b.1, s.1))

-- What `write_timestamp` writes behind the space.
abbrev pub timestamp_text : ℤ → Option Bytes
timestamp_text (pos n) = if n == 0 then none else some (show_int (pos n))
timestamp_text (negsuc n) = some (show_int (negsuc n))

Lacks-digits : (b : ℕ) (s : Bytes) → (b ≤ 47) → All IsDigit s → Lacks b s
Lacks-digits b [] h a = tt
Lacks-digits b (c ∷ s) h a = (omega (arith, a.0), Lacks-digits b s h a.1)

pub Lacks-append : (b : ℕ) (s t : Bytes) → Lacks b s → Lacks b t → Lacks b (s ++ t)
Lacks-append b [] t h k = k
Lacks-append b (c ∷ s) t h k = (h.0, Lacks-append b s t h.1 k)

Lacks-write_timestamp : (t : ℤ) → Lacks b'\n' (write_timestamp t)
unfolding write_timestamp show_int
Lacks-write_timestamp (pos n) = elim (Bool-cases (n == 0)) [
  | inl e ↦ rw (e) tt
  | inr e ↦
      rw (e) (omega arith, Lacks-digits b'\n' (show_uint n) (omega arith) (show_uint-IsDigit n))
]
Lacks-write_timestamp (negsuc n) = (
  omega arith,
  (omega arith, Lacks-digits b'\n' (show_uint (suc n)) (omega arith) (show_uint-IsDigit (suc n))),
)

value_and_timestamp-write :
    (value : Bytes) (t : ℤ)
    → Lacks b' ' value
    → value_and_timestamp (value ++ write_timestamp t) ≡ (value, timestamp_text t)
unfolding write_timestamp show_int
value_and_timestamp-write value (pos n) h = elim (Bool-cases (n == 0)) [
  | inl e ↦ rw (e, append-nil value) (ap (parted value) (split_at-Lacks b' ' value h))
  | inr e ↦
      rw (e)
        (ap (parted (value ++ b' ' ∷ show_uint n)) (split_at-append b' ' value (show_uint n) h))
]
value_and_timestamp-write value (negsuc n) h =
    let stamp = b'-' ∷ show_uint (suc n) in
    ap (parted (value ++ b' ' ∷ stamp)) (split_at-append b' ' value stamp h)

-- The rest of a line, behind the space.
pub read_value_of-write :
    {D : Type 0} (series : Bytes) (labels : List LabelPair) (value rest : Bytes)
    (metric : ClientMetric D)
    → Lacks b' ' value
    → Lacks b'\n' value
    → read_value_of series labels (value ++ (write_tail metric ++ rest))
      ≡ some (
        record {
          series = series;
          labels = labels;
          value = value;
          timestamp = timestamp_text metric.timestamp_ms;
        },
        rest,
      )
unfolding read_value_of write_tail
read_value_of-write series labels value rest metric s n =
    let t = metric.timestamp_ms in
    let line = value ++ write_timestamp t in
    let split : split_at b'\n' (value ++ (write_tail metric ++ rest)) ≡ some (line, rest) =
      unfold write_tail in
      ap (λ x. split_at b'\n' (value ++ x)) (append_assoc (write_timestamp t) (codes "\n") rest)
      ∙ ap (split_at b'\n') (sym (append_assoc value (write_timestamp t) (b'\n' ∷ rest)))
      ∙ split_at-append b'\n' line rest
          (Lacks-append b'\n' value (write_timestamp t) n (Lacks-write_timestamp t)) in
    ap
      (λ o. o >>=? λ (line, rest). some (
        record {
          series = series;
          labels = labels;
          value = (value_and_timestamp line).0;
          timestamp = (value_and_timestamp line).1;
        },
        rest,
      ))
      split
    ∙ ap
        (λ x.
          some (record { series = series; labels = labels; value = x.0; timestamp = x.1 }, rest))
        (value_and_timestamp-write value t s)
