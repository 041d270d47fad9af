-- ===== src/Common/Decimal.antt =====
-- `out << n` of an integer in the classic locale: decimal digits with no grouping.
use Prim.Native.Nat.{ℕ, zero, suc, ◌+◌, ◌/◌, ◌%◌, ◌≤◌}
use mathlib.Core.Path.{◌≡◌, refl}
use mathlib.Core.List.{[], ◌∷◌}
use native.Mathlib.Omega.{arith}
use prometheus_cpp.Common.Tests.{ltb, if◌then◌else◌}
use prometheus_cpp.Common.Text.{Bytes, codes}
use prometheus_cpp.Common.Lists.{All}
use prometheus_cpp.Common.Int.{ℤ, pos, negsuc}

-- One round for each digit; `n` rounds are always enough, since a digit less is a smaller number.
unfoldable pub digits_loop : ℕ → ℕ → Bytes → Bytes
digits_loop zero n out = (b'0' + n % 10) ∷ out
digits_loop (suc fuel) n out =
    let more = digits_loop fuel (n / 10) ((b'0' + n % 10) ∷ out) in
    if ltb n 10 then (b'0' + n % 10) ∷ out else more

unfoldable pub show_uint : ℕ → Bytes
unfolding digits_loop
show_uint n = digits_loop n n []

unfoldable pub show_int : ℤ → Bytes
unfolding show_uint
show_int (pos n) = show_uint n
show_int (negsuc n) = b'-' ∷ show_uint (suc n)

abbrev pub IsDigit : ℕ → Type 0
IsDigit c = (b'0' ≤ c) × (c ≤ b'9')

loop-IsDigit : (fuel n : ℕ) (out : Bytes) → All IsDigit out → All IsDigit (digits_loop fuel n out)
unfolding digits_loop
loop-IsDigit zero n out h = ground arith
loop-IsDigit (suc fuel) n out h = ground (arith, loop-IsDigit fuel (n / 10) ((b'0' + n % 10) ∷ out))

pub show_uint-IsDigit : (n : ℕ) → All IsDigit (show_uint n)
unfolding show_uint
show_uint-IsDigit n = loop-IsDigit n n [] tt

show_uint_run : (show_uint 0 ≡ codes "0") × (show_uint 90210 ≡ codes "90210")
unfolding show_uint
show_uint_run = (refl, refl)
