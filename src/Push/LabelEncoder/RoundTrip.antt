-- ===== src/Push/LabelEncoder/RoundTrip.antt =====
-- Reading a segment back, as the push gateway documents it: `/NAME/VALUE`, with a value of at least one
-- character, all of them unreserved in RFC 3986, or `/NAME@base64/VALUE` with the value in URL-safe base64.
use prometheus_cpp.Common.{
  split_at, split_at-append, split_at-Lacks, ℕ, ◌≡◌, ◌≢◌, ◌↔◌, refl, sym, ap, Bool, true, false,
  not, ◌&&◌, ◌||◌, leb, is_empty, [], ◌∷◌, ◌++◌, map, append_assoc, Option, none, some, arith,
  Bytes, codes, bytes_eq, ◌==◌, if◌then◌else◌, any_of, All, All-append, Lacks, ◌∙◌, ◌⊎◌, Result, ok,
  err, Bool-cases, inl, inr,
}
use prometheus_cpp.Core.Labels.{Label}
use prometheus_cpp.Util.Base64.{base64_decode, base64url_encode}
use prometheus_cpp.Util.Base64.RoundTrip.{IsByte}
use prometheus_cpp.Util.Base64.Url.{
  InUrlAlphabet, unurl_character, base64url_encode-InUrlAlphabet, decode-base64url_encode,
}
use prometheus_cpp.Push.LabelEncoder.{needs_encoding, encode_label}

to_option : Result Bytes → Option Bytes
to_option (ok a) = some a
to_option (err e) = none

-- The value of a base64 segment; a lone `=` is the empty text.
unfoldable pub decode_value : Bytes → Option Bytes
unfolding to_option
decode_value value =
    if bytes_eq value (codes "=")
    then some []
    else to_option (base64_decode (map unurl_character value))

-- RFC 3986, section 2.3: a letter, a digit, or one of `-._~`.
unfoldable pub is_unreserved : ℕ → Bool
is_unreserved c =
    (leb b'A' c && leb c b'Z')
    || (leb b'a' c && leb c b'z')
    || (leb b'0' c && leb c b'9')
    || c == b'-'
    || c == b'.'
    || c == b'_'
    || c == b'~'

-- A value that may stand in a path as it is.
unfoldable pub is_plain : Bytes → Bool
unfolding is_unreserved
is_plain value = not (is_empty value || any_of (λ c. not (is_unreserved c)) value)

unfoldable pub label_of : Bytes → Bytes → Option Label
unfolding is_plain
label_of key value = elim (split_at b'@' key) [
  | none ↦ if is_plain value then some (key, value) else none
  | some (name, marker) ↦
      if bytes_eq marker (codes "base64")
      then elim (decode_value value) [ none ↦ none | some v ↦ some (name, v) ]
      else none
]

-- A path of one segment pair: a slash, the key, a slash, and the value up to the end.
unfoldable pub decode_label : Bytes → Option Label
unfolding split_at label_of decode_value
decode_label [] = none
decode_label (c ∷ path) =
    if c == b'/'
    then elim (split_at b'/' path) [ none ↦ none | some (key, value) ↦ label_of key value ]
    else none

label_of-base64 :
    (name value v : Bytes)
    → Lacks b'@' name
    → decode_value value ≡ some v
    → label_of (name ++ codes "@base64") value ≡ some (name, v)
unfolding label_of
label_of-base64 name value v h e = rw (split_at-append b'@' name (codes "base64") h, label_of, e)

pub decode_path :
    (key value : Bytes)
    → Lacks b'/' key
    → decode_label (b'/' ∷ (key ++ b'/' ∷ value)) ≡ label_of key value
unfolding decode_label
decode_path key value h = rw (split_at-append b'/' key value h, decode_label)

decode_base64 :
    (name value v : Bytes)
    → Lacks b'/' name
    → Lacks b'@' name
    → decode_value value ≡ some v
    → decode_label (codes "/" ++ (name ++ (codes "@base64/" ++ value))) ≡ some (name, v)
decode_base64 name value v h k e = rw (← append_assoc name (codes "@base64") (b'/' ∷ value)) (
    decode_path _ value (All-append _ name (codes "@base64") h (omega arith))
    ∙ label_of-base64 name value v k e)

-- An encoding of one byte at least is longer than a lone `=`.
not_lone_pad : (c : ℕ) (s : Bytes) → bytes_eq (base64url_encode (c ∷ s)) (codes "=") ≡ false
not_lone_pad c [] = unfold base64url_encode in ground arith
not_lone_pad c (d ∷ []) = unfold base64url_encode in ground arith
not_lone_pad c (d ∷ e ∷ s) = unfold base64url_encode in ground arith

decode_value-encode :
    (c : ℕ) (s : Bytes)
    → All IsByte (c ∷ s)
    → decode_value (base64url_encode (c ∷ s)) ≡ some (c ∷ s)
unfolding decode_value
decode_value-encode c s h = rw (not_lone_pad c s, decode-base64url_encode (c ∷ s) h)

unreserved_lem : (c : ℕ) → is_unreserved c ≡ not (needs_encoding c)
unfolding is_unreserved needs_encoding
unreserved_lem c = ground arith

reserved_lem : (s : Bytes) → any_of (λ c. not (is_unreserved c)) s ≡ any_of needs_encoding s
reserved_lem [] = refl
reserved_lem (c ∷ s) = ground (arith, unreserved_lem c, reserved_lem s)

is_plain_lem : (c : ℕ) (s : Bytes) → is_plain (c ∷ s) ≡ not (any_of needs_encoding (c ∷ s))
unfolding is_plain
is_plain_lem c s = ap not (reserved_lem (c ∷ s))

label_of-plain :
    (name value : Bytes)
    → Lacks b'@' name
    → is_plain value ≡ true
    → label_of name value ≡ some (name, value)
unfolding label_of
label_of-plain name value h e = rw (split_at-Lacks b'@' name h, label_of, e) refl

-- A marked name is not the name with a slash behind it.
other_mark : (name s u : Bytes) → (name ++ b'@' ∷ s) ≢ (name ++ b'/' ∷ u)
other_mark [] s u e = ground arith
other_mark (c ∷ name) s u e = other_mark name s u (ground arith)

marked_differs :
    (name segment value : Bytes)
    → (codes "/" ++ (name ++ (codes "@base64/" ++ segment)))
      ≢ (codes "/" ++ (name ++ (codes "/" ++ value)))
marked_differs name segment value e =
    other_mark name (codes "base64/" ++ segment) value (ground arith)

pub decode-encode_label :
    (name value : Bytes)
    → Lacks b'/' name
    → Lacks b'@' name
    → All IsByte value
    → (decode_label (encode_label (name, value)) ≡ some (name, value))
      × ((encode_label (name, value) ≡ codes "/" ++ (name ++ (codes "/" ++ value)))
          ↔ (is_plain value ≡ true))
unfolding encode_label
decode-encode_label name [] h k b = (
  decode_base64 name (codes "=") [] h k (unfold decode_value in refl),
  (λ e. absurd (marked_differs name (codes "=") [] e), λ e. unfold is_plain in ground arith),
)
decode-encode_label name (c ∷ value) h k b = elim (Bool-cases (any_of needs_encoding (c ∷ value))) [
  | inl e ↦ rw e (
    decode_base64 name _ (c ∷ value) h k (decode_value-encode c value b),
    (
      λ w. absurd (marked_differs name (base64url_encode (c ∷ value)) (c ∷ value) w),
      λ p. let n = sym p ∙ is_plain_lem c value in ground arith,
    ),
  )
  | inr e ↦
      let p : is_plain (c ∷ value) ≡ true = is_plain_lem c value ∙ ap not e in
      rw e
        (decode_path name (c ∷ value) h ∙ label_of-plain name (c ∷ value) k p, (λ _. p, λ _. refl))
]

-- The bytes that a value may show in the path: unreserved characters, and the padding `=`.
abbrev pub InPath : ℕ → Type 0
InPath c = InUrlAlphabet c ⊎ ((c ≡ b'.') ⊎ (c ≡ b'~'))

plain_InPath : (s : Bytes) → any_of needs_encoding s ≡ false → All InPath s
unfolding needs_encoding
plain_InPath [] h = tt
plain_InPath (c ∷ s) h = ground (arith, plain_InPath s)

url_InPath : (s : Bytes) → All InUrlAlphabet s → All InPath s
url_InPath [] h = tt
url_InPath (c ∷ s) h = (inl h.0, url_InPath s h.1)

marked_key :
    (name segment : Bytes)
    → codes "/" ++ (name ++ (codes "@base64/" ++ segment))
      ≡ codes "/" ++ ((name ++ codes "@base64") ++ (codes "/" ++ segment))
marked_key name segment = rw append_assoc

-- The value shows in the last segment of the path, which holds unreserved characters and `=` only: in
-- particular no further slash. The segment before it is the label's name, marked or not.
pub encode_label-InPath :
    (name value : Bytes)
    → (key segment : Bytes) × (encode_label (name, value)
        ≡ codes "/" ++ (key ++ (codes "/" ++ segment)))
      × ((key ≡ name) ⊎ (key ≡ name ++ codes "@base64"))
      × All InPath segment
unfolding encode_label
encode_label-InPath name [] =
    (name ++ codes "@base64", codes "=", marked_key name (codes "="), inr refl, omega arith)
encode_label-InPath name (c ∷ value) = elim (Bool-cases (any_of needs_encoding (c ∷ value))) [
  | inl e ↦
      let segment = base64url_encode (c ∷ value) in
      (
        name ++ codes "@base64",
        segment,
        rw e (marked_key name segment),
        inr refl,
        url_InPath segment (base64url_encode-InUrlAlphabet (c ∷ value)),
      )
  | inr e ↦ (name, c ∷ value, rw e, inl refl, plain_InPath (c ∷ value) e)
]
