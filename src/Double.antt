-- ===== src/Double.antt =====
-- What the code does with a `double`. The type and its operations are a parameter of the model: the
-- library has no floating point numbers. Each set of laws states what IEEE 754 gives.
pub mod Sample
use prometheus_cpp.Common.{ℕ, ◌+◌, ◌≤◌, ◌^◌, ◌≡◌, ◌⊎◌, Bool, true, false, not, Bytes, ℤ, ◌-◌}

pub record Double (D : Type 0) : Type 0 where
  -- conversions from an unsigned and from a signed integer type
  pub of_uint : ℕ → D
  pub of_int : ℤ → D
  -- `static_cast` to an unsigned and to a signed integer type
  pub to_uint : D → ℕ
  pub to_int : D → ℤ
  pub add : D → D → D
  pub mul : D → D → D
  pub div : D → D → D
  pub sub : D → D → D
  pub floor : D → D
  -- `<` and `<=`; `a > b` is `b < a`, and `a >= b` is `b <= a`
  pub lt : D → D → Bool
  pub le : D → D → Bool
  pub infinity : D
  pub minus_infinity : D
  pub quiet_nan : D
  pub is_nan : D → Bool
  pub is_inf : D → Bool

module _ {D : Type 0} ⦃d : Double D⦄ where
  abbrev pub zero_value : D
  zero_value = d.of_uint 0

  -- A number is not NaN.
  abbrev pub IsNumber : D → Type 0
  IsNumber x = d.le x x ≡ true

  infix 50 ◌≼◌
  abbrev pub ◌≼◌ : D → D → Type 0
  x ≼ y = d.le x y ≡ true

-- The comparisons order the numbers; with NaN they are false.
pub record IsOrdered (D : Type 0) ⦃d : Double D⦄ : Type 0 where
  pub numbers_of_le : (x y : D) → d.le x y ≡ true → (d.le x x ≡ true) × (d.le y y ≡ true)
  pub numbers_of_lt : (x y : D) → d.lt x y ≡ true → (d.le x x ≡ true) × (d.le y y ≡ true)
  pub le_trans : (x y z : D) → d.le x y ≡ true → d.le y z ≡ true → d.le x z ≡ true
  pub lt-not-le : (x y : D) → d.le x x ≡ true → d.le y y ≡ true → d.lt x y ≡ not (d.le y x)
  pub le_total :
      (x y : D) → d.le x x ≡ true → d.le y y ≡ true → (d.le x y ≡ true) ⊎ (d.le y x ≡ true)

-- Integers up to 2^53 are exact.
pub record IsExact (D : Type 0) ⦃d : Double D⦄ : Type 0 where
  pub to_uint-of_uint : (n : ℕ) → n ≤ 2 ^ 53 → d.to_uint (d.of_uint n) ≡ n
  pub add-of_uint :
      (n m : ℕ) → n + m ≤ 2 ^ 53 → d.add (d.of_uint n) (d.of_uint m) ≡ d.of_uint (n + m)
  pub of_uint_order : (n m : ℕ) → n ≤ m → d.le (d.of_uint n) (d.of_uint m) ≡ true
  pub lt-of_uint-zero : (n : ℕ) → d.lt (d.of_uint n) (d.of_uint 0) ≡ false

-- A sum with a summand that is not negative is not less than the other.
pub record IsMonotone (D : Type 0) ⦃d : Double D⦄ : Type 0 where
  pub le-add :
      (x y : D)
      → d.le (d.of_uint 0) x ≡ true
      → d.le (d.of_uint 0) y ≡ true
      → d.le x (d.add x y) ≡ true
  pub add-nan : (x y : D) → d.is_nan y ≡ true → d.is_nan (d.add x y) ≡ true
  pub nan-add : (x y : D) → d.is_nan x ≡ true → d.is_nan (d.add x y) ≡ true
  pub nan_unordered : (x y : D) → d.is_nan x ≡ true → (d.lt x y ≡ false) × (d.le y x ≡ false)
