-- ===== src/Util/Base64.antt =====
-- util/include/prometheus/detail/base64.h. A `uint32_t` is a number below 2^32. On it
-- `(temp & (0x3F << k)) >> k` is `temp / 2 ^ k % 64`, `(temp >> k) & 0xFF` is `temp / 2 ^ k % 256`,
-- and `temp |= d` after `temp <<= 6`, with `d` below 64, is `temp + d`.
pub mod Alphabet
pub mod RoundTrip
pub mod Errors
pub mod Url
mod Tests
use prometheus_cpp.Common.{
  ℕ, suc, ◌+◌, ◌-◌, ◌*◌, ◌/◌, ◌%◌, ◌^◌, Bool, true, false, ◌&&◌, List, [], ◌∷◌, ◌++◌, map, Option,
  none, some, Bytes, codes, length, get_or, leb, ◌==◌, if◌then◌else◌, Result, ok, err,
  runtime_error,
}

abbrev pub encode_lookup : Bytes
encode_lookup = codes "ABCDEFGHIJKLMNOPQRSTUVWXYZabcdefghijklmnopqrstuvwxyz0123456789+/"

abbrev pub pad_character : ℕ
pad_character = b'='

-- `kEncodeLookup[i]`, with an index below 64.
pub lookup : ℕ → ℕ
lookup i = get_or encode_lookup i 0

-- The six bits of `temp` from bit `k` on, as a character.
pub sextet : ℕ → ℕ → ℕ
unfolding lookup
sextet temp k = lookup (temp / 2 ^ k % 64)

-- A round of the loop for each three bytes, then the `switch` over what is left.
unfoldable pub base64_encode : Bytes → Bytes
unfolding sextet
base64_encode [] = []
base64_encode (a ∷ []) =
    let temp = a * 2 ^ 16 in sextet temp 18 ∷ sextet temp 12 ∷ pad_character ∷ pad_character ∷ []
base64_encode (a ∷ b ∷ []) =
    let temp = a * 2 ^ 16 + b * 2 ^ 8 in
    sextet temp 18 ∷ sextet temp 12 ∷ sextet temp 6 ∷ pad_character ∷ []
base64_encode (a ∷ b ∷ c ∷ rest) =
    let temp = a * 2 ^ 16 + b * 2 ^ 8 + c in
    sextet temp 18 ∷ sextet temp 12 ∷ sextet temp 6 ∷ sextet temp 0 ∷ base64_encode rest

-- The λ of `base64url_encode`.
pub url_character : ℕ → ℕ
url_character c = if c == b'+' then b'-' else if c == b'/' then b'_' else c

unfoldable pub base64url_encode : Bytes → Bytes
unfolding base64_encode url_character
base64url_encode input = map url_character (base64_encode input)

-- The `if` ladder over one character: the six bits that it stands for.
pub value_of : ℕ → Option ℕ
value_of c =
    if leb 0x41 c && leb c 0x5A
    then some (c - 0x41)
    else if leb 0x61 c && leb c 0x7A
    then some (c - 0x47)
    else if leb 0x30 c && leb c 0x39
    then some (c + 0x04)
    else if c == 0x2B
    then some 0x3E
    else if c == 0x2F
    then some 0x3F
    else none

-- What a step of the inner loop does with a character.
pub data Step : Type 0 where
  bits : ℕ → Step
  pad : Step
  bad : Step

pub classify : ℕ → Step
unfolding value_of
classify c = elim (value_of c) [ some d ↦ bits d | none ↦ if c == pad_character then pad else bad ]

-- `temp <<= 6; temp |= d` in `uint32_t`.
pub push_bits : ℕ → ℕ → ℕ
push_bits temp d = temp * 64 % 2 ^ 32 + d

pub byte_at : ℕ → ℕ → ℕ
byte_at temp k = temp / 2 ^ k % 256

-- The `switch (input.end() - it)` at a `'='`, with the number of characters from it to the end;
-- `temp` has been shifted for this round.
pub finish : ℕ → ℕ → Bytes → Result Bytes
unfolding byte_at
finish left temp decoded =
    if left == 1
    then ok (decoded ++ byte_at temp 16 ∷ byte_at temp 8 ∷ [])
    else if left == 2
    then ok (decoded ++ byte_at temp 10 ∷ [])
    else err runtime_error

-- The two loops as one, with `i` the round of the inner loop. The input's end is met at `i = 0` only,
-- since the length was tested.
pub decode_loop : Bytes → ℕ → ℕ → Bytes → Result Bytes
decode_loop [] i temp decoded = ok decoded
decode_loop (c ∷ rest) i temp decoded = elim (classify c) [
  | bits d ↦
      let t = push_bits temp d in
      decode_loop rest (if i == 3 then 0 else i + 1) t
        (if i == 3 then decoded ++ byte_at t 16 ∷ byte_at t 8 ∷ byte_at t 0 ∷ [] else decoded)
  | pad ↦ finish (length (c ∷ rest)) (push_bits temp 0) decoded
  | bad ↦ err runtime_error
]

-- The count `padding` only sizes the reservation, and is left out.
unfoldable pub base64_decode : Bytes → Result Bytes
unfolding decode_loop classify push_bits finish byte_at
base64_decode input = if length input % 4 == 0 then decode_loop input 0 0 [] else err runtime_error
