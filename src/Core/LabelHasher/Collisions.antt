-- ===== src/Core/LabelHasher/Collisions.antt =====
-- When the hashes of two label maps are the same.
use Prim.Native.Nat.{bit_xor}
use prometheus_cpp.Common.{
  ℕ, ◌+◌, ◌*◌, ◌/◌, ◌%◌, ◌^◌, ◌<◌, ◌≡◌, ◌↔◌, refl, sym, ap, ◌∙◌, [], ◌∷◌, ◌++◌, Bytes, arith,
}
use native.Mathlib.Nat.{le_refl}
use prometheus_cpp.Core.Labels.{Labels}
use prometheus_cpp.Core.LabelHasher.{mixed, hash_combine_one, hash_combine, hash_loop, label_hasher}
use prometheus_cpp.Core.LabelHasher.Bits.{bit_xor-cancel, bit_xor-lt}

module _ (hash : Bytes → ℕ) where
  hash_loop-append :
      (seed : ℕ) (ls ks : Labels)
      → hash_loop hash seed (ls ++ ks) ≡ hash_loop hash (hash_loop hash seed ls) ks
  unfolding hash_loop
  hash_loop-append seed [] ks = refl
  hash_loop-append seed ((n, v) ∷ ls) ks =
      hash_loop-append (hash_combine hash seed (n ∷ v ∷ [])) ls ks

  hash_combine_one-lt :
      (seed : ℕ) (value : Bytes) → seed < 2 ^ 64 → hash_combine_one hash seed value < 2 ^ 64
  unfolding hash_combine_one mixed
  hash_combine_one-lt seed value s = bit_xor-lt 64 seed _ s (omega arith)

  hash_loop-lt : (seed : ℕ) (ls : Labels) → seed < 2 ^ 64 → hash_loop hash seed ls < 2 ^ 64
  unfolding hash_loop hash_combine
  hash_loop-lt seed [] s = s
  hash_loop-lt seed ((n, v) ∷ ls) s =
      hash_loop-lt (hash_combine_one hash (hash_combine_one hash seed n) v) ls
        (hash_combine_one-lt (hash_combine_one hash seed n) v (hash_combine_one-lt seed n s))

  same_hash :
      (seed : ℕ) (v w : Bytes)
      → hash v ≡ hash w
      → hash_combine_one hash seed v ≡ hash_combine_one hash seed w
  unfolding hash_combine_one mixed
  same_hash seed v w e =
      ap (λ x. bit_xor seed ((x + 0x9e37_79b9 + seed * 2 ^ 6 % 2 ^ 64 + seed / 2 ^ 2) % 2 ^ 64)) e

  hash_combine_one-injective :
      (seed : ℕ) (v w : Bytes)
      → hash v < 2 ^ 64
      → hash w < 2 ^ 64
      → hash_combine_one hash seed v ≡ hash_combine_one hash seed w
      → hash v ≡ hash w
  unfolding hash_combine_one mixed
  hash_combine_one-injective seed v w a b e =
      let same : mixed hash seed v ≡ mixed hash seed w =
        sym (bit_xor-cancel seed seed _ (le_refl seed))
        ∙ ap (bit_xor seed) e
        ∙ bit_xor-cancel seed seed _ (le_refl seed) in
      omega (arith, same)

  -- The hash of labels is a number of 64 bits; and where `std::hash` gives such numbers, two label maps that differ in
  -- the value of their last label only have the same hash exactly when `std::hash` gives the same for both values.
  pub label_hasher_iff :
      ((value : Bytes) → hash value < 2 ^ 64)
      → (labels : Labels) (name v w : Bytes)
      → (label_hasher hash (labels ++ (name, v) ∷ []) < 2 ^ 64)
        × ((label_hasher hash (labels ++ (name, v) ∷ [])
              ≡ label_hasher hash (labels ++ (name, w) ∷ []))
            ↔ (hash v ≡ hash w))
  unfolding label_hasher hash_combine hash_loop
  label_hasher_iff b labels name v w =
      let last = λ (x : Bytes). hash_loop-append 0 labels ((name, x) ∷ []) in
      (
        hash_loop-lt 0 (labels ++ (name, v) ∷ []) (omega arith),
        (
          λ e.
              hash_combine_one-injective (hash_combine_one hash (hash_loop hash 0 labels) name) v w
                (b v) (b w) (sym (last v) ∙ e ∙ last w),
          λ e.
              last v
              ∙ same_hash (hash_combine_one hash (hash_loop hash 0 labels) name) v w e
              ∙ sym (last w),
        ),
      )
