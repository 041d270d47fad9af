-- ===== src/Double/Sample.antt =====
-- A value of the parameter: the integers with two infinities and NaN.
use prometheus_cpp.Common.{
  suc, ◌+◌, ◌*◌, ◌/◌, Bool, true, false, arith, ℤ, pos, negsuc, pos_part, neg_part, sub_ℕ, leb_ℤ,
  ltb_ℤ,
}
use prometheus_cpp.Double.{Double, IsOrdered, IsExact, IsMonotone}

pub data Number : Type 0 where
  nan : Number
  below : Number
  fin : ℤ → Number
  above : Number

abbrev negate : ℤ → ℤ
negate z = sub_ℕ (neg_part z) (pos_part z)

abbrev int_div : ℤ → ℤ → ℤ
int_div a (pos b) = elim a [ pos n ↦ pos (n / b) | negsuc n ↦ negate (pos (suc n / b)) ]
int_div a (negsuc b) = elim a [ pos n ↦ negate (pos (n / suc b)) | negsuc n ↦ pos (suc n / suc b) ]

abbrev lift : (ℤ → ℤ → ℤ) → Number → Number → Number
lift f (fin a) (fin b) = fin (f a b)
lift f (fin a) above = above
lift f (fin a) below = below
lift f above (fin b) = above
lift f above above = above
lift f below (fin b) = below
lift f below below = below
lift f _ _ = nan

abbrev le_number : Number → Number → Bool
le_number below below = true
le_number below (fin b) = true
le_number below above = true
le_number (fin a) (fin b) = leb_ℤ a b
le_number (fin a) above = true
le_number above above = true
le_number _ _ = false

abbrev lt_number : Number → Number → Bool
lt_number below (fin b) = true
lt_number below above = true
lt_number (fin a) (fin b) = ltb_ℤ a b
lt_number (fin a) above = true
lt_number _ _ = false

abbrev to_integer : Number → ℤ
to_integer (fin a) = a
to_integer _ = pos 0

abbrev is_nan_number : Number → Bool
is_nan_number nan = true
is_nan_number _ = false

abbrev is_infinite : Number → Bool
is_infinite above = true
is_infinite below = true
is_infinite _ = false

abbrev add_ℤ : ℤ → ℤ → ℤ
add_ℤ a b = sub_ℕ (pos_part a + pos_part b) (neg_part a + neg_part b)

abbrev mul_ℤ : ℤ → ℤ → ℤ
mul_ℤ a b =
    sub_ℕ (pos_part a * pos_part b + neg_part a * neg_part b)
      (pos_part a * neg_part b + neg_part a * pos_part b)

instance abbrev pub number_double : Double Number
number_double = record {
  of_uint = λ n. fin (pos n);
  of_int = λ z. fin z;
  to_uint = λ x. pos_part (to_integer x);
  to_int = to_integer;
  add = lift add_ℤ;
  mul = lift mul_ℤ;
  div = lift int_div;
  sub = lift (λ a b. add_ℤ a (negate b));
  floor = λ x. x;
  lt = lt_number;
  le = le_number;
  infinity = above;
  minus_infinity = below;
  quiet_nan = nan;
  is_nan = is_nan_number;
  is_inf = is_infinite;
}

pub Number-IsOrdered : IsOrdered Number
Number-IsOrdered = ground arith

pub Number-IsExact : IsExact Number
Number-IsExact = ground arith

pub Number-IsMonotone : IsMonotone Number
Number-IsMonotone = ground arith
