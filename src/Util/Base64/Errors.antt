-- ===== src/Util/Base64/Errors.antt =====
-- Which texts `base64_decode` accepts.
use prometheus_cpp.Common.{
  ℕ, ◌+◌, ◌%◌, ◌≤◌, ◌≡◌, ◌↔◌, ◌⊎◌, refl, [], ◌∷◌, ◌++◌, arith, Bytes, length, ok, err, Result, ◌==◌,
  if◌then◌else◌,
}
use prometheus_cpp.Util.Base64.{
  bits, pad, bad, Step, classify, value_of, base64_decode, decode_loop, finish, push_bits, byte_at,
}

abbrev pub InAlphabet : ℕ → Type 0
InAlphabet c =
    ((b'A' ≤ c) × (c ≤ b'Z'))
    ⊎ ((b'a' ≤ c) × (c ≤ b'z'))
    ⊎ ((b'0' ≤ c) × (c ≤ b'9'))
    ⊎ (c ≡ b'+')
    ⊎ (c ≡ b'/')

-- Characters of the alphabet, but that the last may be `=`, and that the last but one may be `=` with
-- anything behind it.
abbrev pub WellPadded : Bytes → Type 0
WellPadded [] = Unit
WellPadded (c ∷ []) = InAlphabet c ⊎ (c ≡ b'=')
WellPadded (c ∷ d ∷ []) = (InAlphabet c × (InAlphabet d ⊎ (d ≡ b'='))) ⊎ (c ≡ b'=')
WellPadded (c ∷ d ∷ e ∷ s) = InAlphabet c × WellPadded (d ∷ e ∷ s)

abbrev pub IsOk {ℓ} : {A : Type ℓ} → Result A → Type 0
IsOk (ok a) = Unit
IsOk (err e) = ⊥

-- The three outcomes for a character.
data Kind (c : ℕ) : Type 0 where
  letter : (d : ℕ) → classify c ≡ bits d → InAlphabet c → Kind c
  padding : classify c ≡ pad → c ≡ b'=' → Kind c
  other : classify c ≡ bad → ¬ InAlphabet c → ¬ (c ≡ b'=') → Kind c

kind_of : (c : ℕ) (st : Step) → classify c ≡ st → Kind c
unfolding classify value_of
kind_of c (bits d) h = letter d h (ground arith)
kind_of c pad h = padding h (ground arith)
kind_of c bad h = other h (ground arith) (ground arith)

-- A letter sends the loop on to the next character.
loop_letter :
    (c d : ℕ) (s : Bytes) (i t : ℕ) (out : Bytes)
    → classify c ≡ bits d
    → (i' : ℕ) × (t' : ℕ) × (out' : Bytes) × (decode_loop (c ∷ s) i t out
        ≡ decode_loop s i' t' out')
unfolding decode_loop
loop_letter c d s i t out h =
    let u = push_bits t d in
    (
      if i == 3 then 0 else i + 1,
      u,
      if i == 3 then out ++ byte_at u 16 ∷ byte_at u 8 ∷ byte_at u 0 ∷ [] else out,
      rw (h, decode_loop),
    )

loop-IsOk : (s : Bytes) (i t : ℕ) (out : Bytes) → IsOk (decode_loop s i t out) ↔ WellPadded s
loop-IsOk [] i t out = unfold decode_loop in (λ h. tt, λ h. tt)
loop-IsOk (c ∷ []) i t out = elim (kind_of c (classify c) refl) [
  | letter d h a ↦ unfold decode_loop in ground arith
  | padding h a ↦ unfold decode_loop finish in ground arith
  | other h a b ↦ unfold decode_loop in ground arith
]
loop-IsOk (c ∷ d ∷ []) i t out = elim (kind_of c (classify c) refl) [
  | letter x h a ↦
      let (i', t', out', e) = loop_letter c x (d ∷ []) i t out h in
      rw (e, IsOk) (ground (arith, loop-IsOk (d ∷ []) i' t' out'))
  | padding h a ↦ unfold decode_loop finish in ground arith
  | other h a b ↦ unfold decode_loop in ground arith
]
loop-IsOk (c ∷ d ∷ e ∷ s) i t out = elim (kind_of c (classify c) refl) [
  | letter x h a ↦
      let (i', t', out', q) = loop_letter c x (d ∷ e ∷ s) i t out h in
      rw (q, IsOk) (ground (arith, loop-IsOk (d ∷ e ∷ s) i' t' out'))
  | padding h a ↦ unfold decode_loop finish in ground arith
  | other h a b ↦ unfold decode_loop in ground arith
]

-- A text is decoded without an exception exactly when its length is a multiple of four and it is
-- well padded. Behind a last but one `=` any character is accepted.
pub decode_accepts : (s : Bytes) → IsOk (base64_decode s) ↔ ((length s % 4 ≡ 0) × WellPadded s)
unfolding base64_decode
decode_accepts s = ground (arith, loop-IsOk s 0 0 [])
