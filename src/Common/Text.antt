-- ===== src/Common/Text.antt =====
-- `std::string` as a list of bytes.
use Prim.Native.Nat.{ℕ}
use Prim.Native.Char.{code}
use Prim.Native.String.{String}
use mathlib.Core.Path.{◌≡◌, refl}
use mathlib.Core.Logic.{◌≢◌, inl, inr}
use mathlib.Core.Option.{Option, none, some}
use mathlib.Core.Bool.{Bool, true, false, ◌&&◌}
use mathlib.Core.List.{List, [], ◌∷◌, ◌++◌}
use native.Mathlib.Omega.{arith}
use prometheus_cpp.Common.Tests.{◌==◌, if◌then◌else◌, Option-cases}
use prometheus_cpp.Common.Lists.{All, length, drop}

abbrev pub Bytes : Type 0
Bytes = List ℕ

-- The code points of a literal; these are its bytes, since every literal here is ASCII.
abbrev pub codes : String → Bytes
codes String.[] = []
codes (String.◌∷◌ c s) = code c ∷ codes s

-- `operator==` on strings.
abbrev pub bytes_eq : Bytes → Bytes → Bool
bytes_eq [] [] = true
bytes_eq [] (y ∷ ys) = false
bytes_eq (x ∷ xs) [] = false
bytes_eq (x ∷ xs) (y ∷ ys) = x == y && bytes_eq xs ys

pub bytes_eq_sound : (xs ys : Bytes) → bytes_eq xs ys ≡ true → xs ≡ ys
bytes_eq_sound [] [] h = refl
bytes_eq_sound [] (y ∷ ys) h = ground arith
bytes_eq_sound (x ∷ xs) [] h = ground arith
bytes_eq_sound (x ∷ xs) (y ∷ ys) h = ground (arith, bytes_eq_sound xs ys)

pub bytes_eq_refl : (xs : Bytes) → bytes_eq xs xs ≡ true
bytes_eq_refl [] = refl
bytes_eq_refl (x ∷ xs) = ground (arith, bytes_eq_refl xs)

-- No byte of the text is `b`.
abbrev pub Lacks : ℕ → Bytes → Type 0
Lacks b = All (λ c. c ≢ b)

-- The text in front of the first byte `sep`, and the text behind it.
unfoldable pub split_at : ℕ → Bytes → Option (Bytes × Bytes)
split_at sep [] = none
split_at sep (c ∷ s) =
    if c == sep
    then some ([], s)
    else elim (split_at sep s) [ none ↦ none | some (a, b) ↦ some (c ∷ a, b) ]

pub split_at-append :
    (sep : ℕ) (a b : Bytes) → Lacks sep a → split_at sep (a ++ sep ∷ b) ≡ some (a, b)
unfolding split_at
split_at-append sep [] b h = ground arith
split_at-append sep (c ∷ a) b h = ground (arith, split_at-append sep a b)

pub split_at-Lacks : (sep : ℕ) (a : Bytes) → Lacks sep a → split_at sep a ≡ none
unfolding split_at
split_at-Lacks sep [] h = refl
split_at-Lacks sep (c ∷ a) h = ground (arith, split_at-Lacks sep a)

-- Where the text is split, it is what stands in front, the byte, and what stands behind.
pub split_at-some :
    (sep : ℕ) (s a b : Bytes) → split_at sep s ≡ some (a, b) → (s ≡ a ++ sep ∷ b) × Lacks sep a
unfolding split_at
split_at-some sep [] a b h = ground arith
split_at-some sep (c ∷ s) a b h = elim (Option-cases (split_at sep s)) [
  | inl q ↦ ground arith
  | inr (x, q) ↦ let ih = split_at-some sep s x.0 x.1 q in ground arith
]

-- `s.compare(0, prefix.size(), prefix) == 0`.
unfoldable pub has_prefix : Bytes → Bytes → Bool
has_prefix [] s = true
has_prefix (p ∷ prefix) [] = false
has_prefix (p ∷ prefix) (c ∷ s) = p == c && has_prefix prefix s

pub has_prefix-append : (prefix s : Bytes) → has_prefix prefix (prefix ++ s) ≡ true
unfolding has_prefix
has_prefix-append [] s = refl
has_prefix-append (p ∷ prefix) s = ground (arith, has_prefix-append prefix s)

pub append_of_has_prefix :
    (prefix s : Bytes) → has_prefix prefix s ≡ true → prefix ++ drop (length prefix) s ≡ s
unfolding has_prefix
append_of_has_prefix [] s h = refl
append_of_has_prefix (p ∷ prefix) [] h = ground arith
append_of_has_prefix (p ∷ prefix) (c ∷ s) h = ground (arith, append_of_has_prefix prefix s)

drop-append : (xs ys : Bytes) → drop (length xs) (xs ++ ys) ≡ ys
drop-append [] ys = refl
drop-append (x ∷ xs) ys = drop-append xs ys

-- `s.c_str()` read as a C string: the text up to the first zero byte.
unfoldable pub c_str : Bytes → Bytes
c_str [] = []
c_str (c ∷ s) = if c == 0 then [] else c ∷ c_str s
