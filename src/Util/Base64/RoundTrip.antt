-- ===== src/Util/Base64/RoundTrip.antt =====
-- `base64_decode` after `base64_encode`.
use prometheus_cpp.Common.{
  ℕ, ◌+◌, ◌*◌, ◌/◌, ◌%◌, ◌^◌, ◌<◌, ◌≡◌, refl, arith, [], ◌∷◌, ◌++◌, Bytes, All, length, ok,
  append-nil, append_assoc,
}
use prometheus_cpp.Util.Base64.{
  sextet, pad_character, push_bits, base64_encode, base64_decode, decode_loop, finish, byte_at,
}
use prometheus_cpp.Util.Base64.Alphabet.{classify-sextet, classify-pad}

abbrev pub IsByte : ℕ → Type 0
IsByte c = c < 256

-- Three bytes, four times six bits pushed behind whatever `temp` held.
after_four : ℕ → ℕ → ℕ
after_four t n =
    push_bits
      (push_bits (push_bits (push_bits t (n / 2 ^ 18 % 64)) (n / 2 ^ 12 % 64)) (n / 2 ^ 6 % 64))
      (n / 2 ^ 0 % 64)

after_four_lem : (t n : ℕ) → n < 2 ^ 24 → after_four t n ≡ (t * 2 ^ 24 + n) % 2 ^ 32
unfolding after_four push_bits
after_four_lem t n h = omega arith

-- One whole round of the outer loop on four encoded characters.
decode_loop-four :
    (n t : ℕ) (rest out : Bytes)
    → decode_loop (sextet n 18 ∷ sextet n 12 ∷ sextet n 6 ∷ sextet n 0 ∷ rest) 0 t out
      ≡ decode_loop rest 0 (after_four t n) (
          out
          ++ byte_at (after_four t n) 16
            ∷ byte_at (after_four t n) 8
            ∷ byte_at (after_four t n) 0
            ∷ [])
unfolding decode_loop after_four
decode_loop-four n t rest out = rw (
  classify-sextet n 18,
  decode_loop,
  classify-sextet n 12,
  classify-sextet n 6,
  classify-sextet n 0,
)

decode-pad_two :
    (n t : ℕ) (out : Bytes)
    → n < 2 ^ 24
    → n % 2 ^ 16 ≡ 0
    → decode_loop (sextet n 18 ∷ sextet n 12 ∷ pad_character ∷ pad_character ∷ []) 0 t out
      ≡ ok (out ++ n / 2 ^ 16 ∷ [])
unfolding decode_loop finish byte_at push_bits
decode-pad_two n t out h k =
    ground (arith, classify-sextet n 18, classify-sextet n 12, classify-pad)

decode-pad_one :
    (n t : ℕ) (out : Bytes)
    → n < 2 ^ 24
    → n % 2 ^ 8 ≡ 0
    → decode_loop (sextet n 18 ∷ sextet n 12 ∷ sextet n 6 ∷ pad_character ∷ []) 0 t out
      ≡ ok (out ++ n / 2 ^ 16 ∷ n / 2 ^ 8 % 256 ∷ [])
unfolding decode_loop finish byte_at push_bits
decode-pad_one n t out h k =
    ground (arith, classify-sextet n 18, classify-sextet n 12, classify-sextet n 6, classify-pad)

-- The three bytes that a round appends are those that were encoded, whatever `temp` held before.
four_bytes :
    (t a b c : ℕ)
    → a < 256
    → b < 256
    → c < 256
    → let u = after_four t (a * 2 ^ 16 + b * 2 ^ 8 + c) in
      (byte_at u 16 ≡ a) × (byte_at u 8 ≡ b) × (byte_at u 0 ≡ c)
unfolding byte_at
four_bytes t a b c ha hb hc = omega (arith, after_four_lem t (a * 2 ^ 16 + b * 2 ^ 8 + c))

decode_loop-encode :
    (s : Bytes) (t : ℕ) (out : Bytes)
    → All IsByte s
    → decode_loop (base64_encode s) 0 t out ≡ ok (out ++ s)
unfolding base64_encode
decode_loop-encode [] t out h = unfold decode_loop in rw append-nil
decode_loop-encode (a ∷ []) t out h =
    rw (decode-pad_two (a * 2 ^ 16) t out (omega arith) (omega arith)) (ground arith)
decode_loop-encode (a ∷ b ∷ []) t out h =
    rw (decode-pad_one (a * 2 ^ 16 + b * 2 ^ 8) t out (omega arith) (omega arith)) (ground arith)
decode_loop-encode (a ∷ b ∷ c ∷ s) t out (ha, (hb, (hc, h))) =
    let n = a * 2 ^ 16 + b * 2 ^ 8 + c in
    rw (decode_loop-four n t (base64_encode s) out, decode_loop-encode s (after_four t n) _ h)
      (ground (arith, four_bytes t a b c ha hb hc, append_assoc out (a ∷ b ∷ c ∷ []) s))

encode-whole_quads : (s : Bytes) → length (base64_encode s) % 4 ≡ 0
unfolding base64_encode
encode-whole_quads [] = refl
encode-whole_quads (a ∷ []) = refl
encode-whole_quads (a ∷ b ∷ []) = refl
encode-whole_quads (a ∷ b ∷ c ∷ s) = omega (arith, encode-whole_quads s)

-- Every text of bytes is decoded from its encoding.
pub decode-encode : (s : Bytes) → All IsByte s → base64_decode (base64_encode s) ≡ ok s
unfolding base64_decode
decode-encode s h = rw (encode-whole_quads s) (decode_loop-encode s 0 [] h)
