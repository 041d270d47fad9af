-- ===== src/Util/Base64/Alphabet.antt =====
-- The alphabet of util/include/prometheus/detail/base64.h, checked value by value.
use prometheus_cpp.Common.{
  ℕ, zero, suc, ◌+◌, ◌*◌, ◌/◌, ◌%◌, ◌^◌, ◌<◌, ◌≡◌, refl, Bool, true, false, if◌then◌else◌,
  Bool-cases, arith, ◌==◌,
}
use prometheus_cpp.Util.Base64.{
  lookup, sextet, Step, bits, pad, bad, classify, pad_character, push_bits,
}

-- A test of the six-bit values, or of those under a smaller limit, from the highest down.
unfoldable pub passes_under : (ℕ → Bool) → ℕ → Bool
passes_under test zero = true
passes_under test (suc limit) = if test limit then passes_under test limit else false

pub passes_under_lem :
    (test : ℕ → Bool) (limit i : ℕ) → i < limit → passes_under test limit ≡ true → test i ≡ true
unfolding passes_under
passes_under_lem test zero i small passed = absurd (omega arith)
passes_under_lem test (suc limit) i small passed =
    ground (arith, passes_under_lem test limit i, Bool-cases (test limit))

is_bits : Step → ℕ → Bool
is_bits (bits d) i = d == i
is_bits pad i = false
is_bits bad i = false

is_bits_sound : (st : Step) (i : ℕ) → is_bits st i ≡ true → st ≡ bits i
unfolding is_bits
is_bits_sound st i h = ground arith

alphabet_table : passes_under (λ i. is_bits (classify (lookup i)) i) 64 ≡ true
unfolding passes_under is_bits classify lookup
alphabet_table = refl

-- A character of the alphabet is read back as its index.
classify-lookup : (i : ℕ) → i < 64 → classify (lookup i) ≡ bits i
classify-lookup i h =
    is_bits_sound (classify (lookup i)) i
      (passes_under_lem (λ j. is_bits (classify (lookup j)) j) 64 i h alphabet_table)

pub classify-sextet : (t k : ℕ) → classify (sextet t k) ≡ bits (t / 2 ^ k % 64)
unfolding sextet
classify-sextet t k = classify-lookup (t / 2 ^ k % 64) (omega arith)

pub classify-pad : classify pad_character ≡ pad
unfolding classify
classify-pad = refl

push_bits_lem : (t d : ℕ) → d < 64 → push_bits t d ≡ (t * 64 + d) % 2 ^ 32
unfolding push_bits
push_bits_lem t d h = omega arith
