-- ===== src/Core/LabelHasher.antt =====
-- core/src/detail/utils.cc and core/src/detail/hash.h, for a `std::size_t` of 64 bits. `std::hash` is a parameter.
mod Bits
pub mod Collisions
mod Tests
use Prim.Native.Nat.{bit_xor}
use prometheus_cpp.Common.{ℕ, ◌+◌, ◌*◌, ◌/◌, ◌%◌, ◌^◌, List, [], ◌∷◌, Bytes}
use prometheus_cpp.Core.Labels.{Labels}

module _ (hash : Bytes → ℕ) where
  -- What one value adds to the seed, which the seed is then changed by.
  unfoldable pub mixed : ℕ → Bytes → ℕ
  mixed seed value = (hash value + 0x9e37_79b9 + seed * 2 ^ 6 % 2 ^ 64 + seed / 2 ^ 2) % 2 ^ 64

  unfoldable pub hash_combine_one : ℕ → Bytes → ℕ
  unfolding mixed
  hash_combine_one seed value = bit_xor seed (mixed seed value)

  -- The template with any number of values.
  unfoldable pub hash_combine : ℕ → List Bytes → ℕ
  hash_combine seed [] = seed
  hash_combine seed (value ∷ args) = hash_combine (hash_combine_one seed value) args

  -- The loop of `LabelHasher`.
  unfoldable pub hash_loop : ℕ → Labels → ℕ
  hash_loop seed [] = seed
  hash_loop seed ((name, value) ∷ labels) = hash_loop (hash_combine seed (name ∷ value ∷ [])) labels

  unfoldable pub label_hasher : Labels → ℕ
  unfolding hash_loop hash_combine hash_combine_one
  label_hasher labels = hash_loop 0 labels
