-- ===== src/Util/Base64/Url.antt =====
-- The URL-safe alphabet: what `base64url_encode` may print, and that it loses nothing.
use mathlib.Core.Path.{ap₂}
use prometheus_cpp.Common.{
  ℕ, ◌+◌, ◌*◌, ◌/◌, ◌%◌, ◌^◌, ◌<◌, ◌≤◌, ◌≡◌, ◌⊎◌, refl, Bool, true, ◌&&◌, ◌||◌, [], ◌∷◌, map, arith,
  Bytes, All, leb, ◌==◌, if◌then◌else◌, ok, ==_iff,
}
use prometheus_cpp.Util.Base64.{
  base64_encode, base64url_encode, url_character, sextet, lookup, pad_character, base64_decode,
}
use prometheus_cpp.Util.Base64.Alphabet.{passes_under, passes_under_lem}
use prometheus_cpp.Util.Base64.RoundTrip.{IsByte, decode-encode}

-- RFC 3986's unreserved characters without `.` and `~`, and the padding.
abbrev pub InUrlAlphabet : ℕ → Type 0
InUrlAlphabet c =
    ((b'A' ≤ c) × (c ≤ b'Z'))
    ⊎ ((b'a' ≤ c) × (c ≤ b'z'))
    ⊎ ((b'0' ≤ c) × (c ≤ b'9'))
    ⊎ (c ≡ b'-')
    ⊎ (c ≡ b'_')
    ⊎ (c ≡ b'=')

-- The inverse substitution, as RFC 4648 (section 5) describes it.
abbrev pub unurl_character : ℕ → ℕ
unurl_character c = if c == b'-' then b'+' else if c == b'_' then b'/' else c

is_url : ℕ → Bool
is_url c =
    (leb b'A' c && leb c b'Z')
    || (leb b'a' c && leb c b'z')
    || (leb b'0' c && leb c b'9')
    || c == b'-'
    || c == b'_'

url_table : passes_under (λ i. is_url (url_character (lookup i))) 64 ≡ true
unfolding passes_under is_url url_character lookup
url_table = refl

unurl_table : passes_under (λ i. unurl_character (url_character (lookup i)) == lookup i) 64 ≡ true
unfolding passes_under url_character lookup
unurl_table = refl

is_url_sound : (c : ℕ) → is_url c ≡ true → InUrlAlphabet c
unfolding is_url
is_url_sound c h = ground arith

-- What both laws need of a character of an encoding.
abbrev Good : ℕ → Type 0
Good c = InUrlAlphabet (url_character c) × (unurl_character (url_character c) ≡ c)

Good-sextet : (t k : ℕ) → Good (sextet t k)
unfolding sextet
Good-sextet t k =
    let i = t / 2 ^ k % 64 in
    let h : i < 64 = omega arith in
    (
      is_url_sound (url_character (lookup i)) (passes_under_lem _ 64 i h url_table),
      (==_iff _ (lookup i)).0 (passes_under_lem _ 64 i h unurl_table),
    )

Good-pad : Good pad_character
unfolding url_character
Good-pad = ground arith

Good-encode : (s : Bytes) → All Good (base64_encode s)
unfolding base64_encode
Good-encode [] = tt
Good-encode (a ∷ []) =
    let n = a * 2 ^ 16 in (Good-sextet n 18, (Good-sextet n 12, (Good-pad, (Good-pad, tt))))
Good-encode (a ∷ b ∷ []) =
    let n = a * 2 ^ 16 + b * 2 ^ 8 in
    (Good-sextet n 18, (Good-sextet n 12, (Good-sextet n 6, (Good-pad, tt))))
Good-encode (a ∷ b ∷ c ∷ s) =
    let n = a * 2 ^ 16 + b * 2 ^ 8 + c in
    (Good-sextet n 18, (Good-sextet n 12, (Good-sextet n 6, (Good-sextet n 0, Good-encode s))))

map-InUrlAlphabet : (s : Bytes) → All Good s → All InUrlAlphabet (map url_character s)
map-InUrlAlphabet [] h = tt
map-InUrlAlphabet (c ∷ s) h = (h.0.0, map-InUrlAlphabet s h.1)

map-unurl : (s : Bytes) → All Good s → map unurl_character (map url_character s) ≡ s
map-unurl [] h = refl
map-unurl (c ∷ s) h = ap₂ ◌∷◌ h.0.1 (map-unurl s h.1)

-- A URL-safe encoding holds letters, digits, `-`, `_` and `=` only.
pub base64url_encode-InUrlAlphabet : (s : Bytes) → All InUrlAlphabet (base64url_encode s)
base64url_encode-InUrlAlphabet s =
    unfold base64url_encode in map-InUrlAlphabet (base64_encode s) (Good-encode s)

-- With `-` and `_` put back it is decoded to the text of bytes that was encoded.
pub decode-base64url_encode :
    (s : Bytes) → All IsByte s → base64_decode (map unurl_character (base64url_encode s)) ≡ ok s
decode-base64url_encode s h =
    unfold base64url_encode in rw (map-unurl (base64_encode s) (Good-encode s)) (decode-encode s h)
