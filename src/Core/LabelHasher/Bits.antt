-- ===== src/Core/LabelHasher/Bits.antt =====
-- The exclusive or of two numbers, digit by digit.
use Prim.Native.Nat.{bit_xor, digits, differ, bit_xor-bitwise}
use prometheus_cpp.Common.{
  ℕ, zero, suc, ◌+◌, ◌-◌, ◌*◌, ◌/◌, ◌%◌, ◌^◌, ◌≤◌, ◌<◌, ◌≡◌, refl, sym, ap, ◌∙◌, arith,
}

-- The recursion that the operation stands for, on some fuel.
abbrev digitwise : ℕ → ℕ → ℕ → ℕ
digitwise fuel x y = digits (λ d. d) differ fuel x y

no_digits : (fuel y : ℕ) → digitwise fuel 0 y ≡ y
no_digits zero y = refl
no_digits (suc fuel) y = refl

-- Fuel above the first number changes nothing.
spare_fuel : (fuel more x y : ℕ) → x ≤ fuel → digitwise (fuel + more) x y ≡ digitwise fuel x y
spare_fuel fuel more zero y h = no_digits (fuel + more) y ∙ sym (no_digits fuel y)
spare_fuel zero more (suc x) y h = absurd (omega arith)
spare_fuel (suc fuel) more (suc x) y h =
    let one_more : suc fuel + more ≡ suc (fuel + more) = omega arith in
    ap (λ f. digitwise f (suc x) y) one_more
    ∙ ap (λ t. t * 2 + differ (suc x % 2) (y % 2))
        (spare_fuel fuel more (suc x / 2) (y / 2) (omega arith))

zero-bit_xor : (y : ℕ) → bit_xor 0 y ≡ y
zero-bit_xor y = bit_xor-bitwise 0 y

-- The lowest digit, and the others.
lowest_digit : (x y : ℕ) → bit_xor x y ≡ bit_xor (x / 2) (y / 2) * 2 + differ (x % 2) (y % 2)
lowest_digit zero y = omega (arith, zero-bit_xor y, zero-bit_xor (y / 2))
lowest_digit (suc x) y =
    let half = suc x / 2 in
    let enough : half + (x - half) ≡ x = omega arith in
    let rest : digitwise x half (y / 2) ≡ bit_xor half (y / 2) =
      ap (λ fuel. digitwise fuel half (y / 2)) (sym enough)
      ∙ spare_fuel half (x - half) half (y / 2) (omega arith)
      ∙ sym (bit_xor-bitwise half (y / 2)) in
    bit_xor-bitwise (suc x) y ∙ ap (λ t. t * 2 + differ (suc x % 2) (y % 2)) rest

differ-lt : (a b : ℕ) → a < 2 → b < 2 → differ a b < 2
differ-lt zero b p q = q
differ-lt (suc a) zero p q = p
differ-lt (suc a) (suc b) p q = differ-lt a b (omega arith) (omega arith)

differ-differ : (a b : ℕ) → a < 2 → b < 2 → differ a (differ a b) ≡ b
differ-differ zero b p q = refl
differ-differ (suc zero) zero p q = refl
differ-differ (suc zero) (suc zero) p q = refl
differ-differ (suc (suc a)) b p q = absurd (omega arith)
differ-differ (suc zero) (suc (suc b)) p q = absurd (omega arith)

-- A second exclusive or with the same number undoes the first.
pub bit_xor-cancel : (n a b : ℕ) → a ≤ n → bit_xor a (bit_xor a b) ≡ b
bit_xor-cancel n zero b h = zero-bit_xor (bit_xor 0 b) ∙ zero-bit_xor b
bit_xor-cancel zero (suc a) b h = absurd (omega arith)
bit_xor-cancel (suc n) (suc a) b h =
    let x = bit_xor (suc a / 2) (b / 2) in
    let y = differ (suc a % 2) (b % 2) in
    let small = differ-lt (suc a % 2) (b % 2) (omega arith) (omega arith) in
    let parts : bit_xor (suc a) b ≡ x * 2 + y = lowest_digit (suc a) b in
    let half : bit_xor (suc a) b / 2 ≡ x = omega (arith, parts, small) in
    let digit : bit_xor (suc a) b % 2 ≡ y = omega (arith, parts, small) in
    lowest_digit (suc a) (bit_xor (suc a) b)
    ∙ (λ i. bit_xor (suc a / 2) (half i) * 2 + differ (suc a % 2) (digit i))
    ∙ omega (
      arith,
      bit_xor-cancel n (suc a / 2) (b / 2) (omega arith),
      differ-differ (suc a % 2) (b % 2) (omega arith) (omega arith),
    )

pub bit_xor-lt : (k a b : ℕ) → a < 2 ^ k → b < 2 ^ k → bit_xor a b < 2 ^ k
bit_xor-lt zero zero zero p q = omega (arith, zero-bit_xor 0)
bit_xor-lt zero zero (suc b) p q = absurd (omega arith)
bit_xor-lt zero (suc a) b p q = absurd (omega arith)
bit_xor-lt (suc k) a b p q =
    let small = differ-lt (a % 2) (b % 2) (omega arith) (omega arith) in
    omega (arith, lowest_digit a b, small, bit_xor-lt k (a / 2) (b / 2) (omega arith) (omega arith))
