-- ===== src/Core/Labels.antt =====
-- core/include/prometheus/labels.h. A `std::map` is its entries in the order of iteration; its keys
-- are distinct.
use prometheus_cpp.Common.{
  Bool, false, true, ◌&&◌, List, [], ◌∷◌, Bytes, bytes_eq, bytes_eq_sound, bytes_eq_refl, any_of,
  ◌≡◌, refl, arith,
}

abbrev pub Label : Type 0
Label = Bytes × Bytes

abbrev pub Labels : Type 0
Labels = List Label

-- `labels.count(name) != 0`.
abbrev pub has_name : Bytes → Labels → Bool
has_name name labels = any_of (λ l. bytes_eq l.0 name) labels

-- `operator==` on two maps.
abbrev pub labels_eq : Labels → Labels → Bool
labels_eq [] [] = true
labels_eq [] (_ ∷ _) = false
labels_eq (_ ∷ _) [] = false
labels_eq ((n, v) ∷ ls) ((m, w) ∷ ks) = (bytes_eq n m && bytes_eq v w) && labels_eq ls ks

bytes_eq_comm : (xs ys : Bytes) → bytes_eq xs ys ≡ bytes_eq ys xs
bytes_eq_comm [] [] = refl
bytes_eq_comm [] (y ∷ ys) = refl
bytes_eq_comm (x ∷ xs) [] = refl
bytes_eq_comm (x ∷ xs) (y ∷ ys) = ground (arith, bytes_eq_comm xs ys)

pub labels_eq_comm : (a b : Labels) → labels_eq a b ≡ labels_eq b a
labels_eq_comm [] [] = refl
labels_eq_comm [] (_ ∷ _) = refl
labels_eq_comm (_ ∷ _) [] = refl
labels_eq_comm ((n, v) ∷ ls) ((m, w) ∷ ks) =
    ground (arith, bytes_eq_comm n m, bytes_eq_comm v w, labels_eq_comm ls ks)

pub labels_eq_sound : (a b : Labels) → labels_eq a b ≡ true → a ≡ b
labels_eq_sound [] [] h = refl
labels_eq_sound [] (_ ∷ _) h = ground arith
labels_eq_sound (_ ∷ _) [] h = ground arith
labels_eq_sound ((n, v) ∷ ls) ((m, w) ∷ ks) h =
    ground (arith, bytes_eq_sound n m, bytes_eq_sound v w, labels_eq_sound ls ks)

pub labels_eq_refl : (a : Labels) → labels_eq a a ≡ true
labels_eq_refl [] = refl
labels_eq_refl ((n, v) ∷ ls) = ground (arith, bytes_eq_refl n, bytes_eq_refl v, labels_eq_refl ls)
