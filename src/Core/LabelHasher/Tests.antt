-- ===== src/Core/LabelHasher/Tests.antt =====
-- A hash of bytes, and the labels of one sample.
use prometheus_cpp.Common.{ℕ, ◌^◌, ◌<◌, ◌≡◌, ◌↔◌, refl, [], ◌∷◌, codes, Bytes, arith}
use prometheus_cpp.Core.LabelHasher.{label_hasher}
use prometheus_cpp.Core.LabelHasher.Collisions.{label_hasher_iff}

-- The length modulo two.
hash : Bytes → ℕ
hash [] = 0
hash (c ∷ []) = 1
hash (c ∷ e ∷ s) = hash s

hash-lt : (value : Bytes) → hash value < 2 ^ 64
unfolding hash
hash-lt [] = omega arith
hash-lt (c ∷ []) = omega arith
hash-lt (c ∷ e ∷ s) = hash-lt s

-- The label `("a", "")` alone, whose two values have the hashes 1 and 0.
one_label : label_hasher hash ((codes "a", []) ∷ []) ≡ 0x28_cd94_bf1d
unfolding label_hasher hash
one_label = refl

label_hasher_iff_example :
    (label_hasher hash ((codes "a", codes "x") ∷ (codes "b", codes "y") ∷ []) < 2 ^ 64)
    × ((label_hasher hash ((codes "a", codes "x") ∷ (codes "b", codes "y") ∷ [])
          ≡ label_hasher hash ((codes "a", codes "x") ∷ (codes "b", []) ∷ []))
        ↔ (hash (codes "y") ≡ hash []))
label_hasher_iff_example =
    label_hasher_iff hash hash-lt ((codes "a", codes "x") ∷ []) (codes "b") (codes "y") []
