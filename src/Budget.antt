-- ===== src/Budget.antt =====
-- src/actenon_permit/budget.py: amounts as fixed-point integers. A `Decimal` is its `as_tuple()`.
-- A float is what the code asks of it: whether it is finite, whether `math.ulp` exceeds 1e-9, and
-- the decimal that `str` shows.
pub mod Powers
pub mod Exact
pub mod Roundtrip
use Prim.Native.Nat.{min}
use actenon_permit.Base.{
  ℕ, zero, suc, ◌+◌, ◌-◌, ◌*◌, ◌/◌, ◌%◌, ◌^◌, Bool, true, false, not, ◌&&◌, List, [], ◌∷◌, length,
  ltb, ◌==◌, if◌then◌else◌,
}
use actenon_permit.Base.Int.{ℤ, pos, negsuc, pos_part, neg_part, abs, ltb_ℤ, ◌+ℤ◌, ◌-ℤ◌}
use actenon_permit.Result.{
  Result, ok, err, ◌>>=◌, ◌>>◌, raise_if, not_a_number, not_finite_number, float_too_coarse,
  too_precise, out_of_range, too_many_digits,
}

abbrev pub scale : ℕ
scale = 9

abbrev pub max_units : ℕ
max_units = 10 ^ 48 - 1

-- The most digits that `int` reads and `str` writes, by Python's default.
abbrev pub max_str_digits : ℕ
max_str_digits = 4300

-- `as_tuple()` of a finite decimal: (-1)^sign * digits * 10^exponent
pub record Decimal : Type 0 where
  pub sign : Bool
  pub digits : List ℕ
  pub exponent : ℤ

pub data Number : Type 0 where
  finite : Decimal → Number
  special : Number

pub record Float : Type 0 where
  pub is_finite : Bool
  pub is_coarse : Bool
  pub shown : Number

-- What the code tests by `isinstance`.
pub data Value : Type 0 where
  boolean : Bool → Value
  integer : ℤ → Value
  float : Float → Value
  decimal : Number → Value
  other : Value

unfoldable pub check_float : Float → Result (Unit {0})
check_float value = do
  raise_if (not value.is_finite) not_finite_number
  raise_if value.is_coarse float_too_coarse

-- `int("".join(map(str, digits)))` of no more digits than `int` reads
unfoldable pub joined : ℕ → List ℕ → ℕ
joined acc [] = acc
joined acc (d ∷ ds) = joined (acc * 10 + d) ds

-- The decimal digits of a number, most significant first, ahead of `acc`.
unfoldable pub digits_onto : ℕ → ℕ → List ℕ → List ℕ
digits_onto zero n acc = acc
digits_onto (suc fuel) n acc =
    let rest = digits_onto fuel (n / 10) ((n % 10) ∷ acc) in if ltb n 10 then n ∷ acc else rest

-- `str(n)`. A number has no more digits than units, so the fuel is enough.
unfoldable pub digits_of : ℕ → List ℕ
unfolding digits_onto
digits_of n = digits_onto (suc n) n []

-- `Decimal(str(value))` of an int that `str` writes
unfoldable pub decimal_of_int : ℤ → Decimal
unfolding digits_of
decimal_of_int z = record { sign = ltb_ℤ z (pos 0); digits = digits_of (abs z); exponent = pos 0 }

-- `-coefficient if sign else coefficient`
abbrev pub signed : Bool → ℕ → ℤ
signed true zero = pos zero
signed true (suc n) = negsuc n
signed false n = pos n

-- `len(digits) + shift > 48`, the power and the last test; `shift` is not negative
unfoldable pub scale_up : ℕ → ℕ → ℕ → Result ℕ
scale_up coefficient len shift =
    if coefficient == 0
    then ok coefficient
    else if ltb 48 (len + shift)
    then err out_of_range
    else ok (coefficient * 10 ^ shift)

-- the branch `shift < 0`, with `shift` for `-shift`
unfoldable pub scale_down : ℕ → ℕ → ℕ → Result ℕ
scale_down coefficient len shift = do
  raise_if (not (coefficient == 0) && ltb len shift) too_precise
  let divisor = 10 ^ min shift len
  raise_if (not (coefficient % divisor == 0)) too_precise
  ok (coefficient / divisor)

unfoldable pub units_of_decimal : Decimal → Result ℤ
unfolding joined scale_up scale_down ◌+ℤ◌
units_of_decimal number = do
  let coefficient = joined 0 number.digits
  let len = length number.digits
  raise_if (ltb max_str_digits len) too_many_digits
  let shift = number.exponent +ℤ pos scale
  scaled ←
      if ltb_ℤ shift (pos 0)
      then scale_down coefficient len (neg_part shift)
      else scale_up coefficient len (pos_part shift)
  raise_if (ltb max_units scaled) out_of_range
  ok (signed number.sign scaled)

unfoldable pub units_of_number : Number → Result ℤ
unfolding units_of_decimal
units_of_number (finite number) = units_of_decimal number
units_of_number special = err not_finite_number

unfoldable pub units : Value → Result ℤ
unfolding units_of_number check_float decimal_of_int
units (boolean b) = err not_a_number
units (integer z) = do
  raise_if (ltb max_str_digits (length (digits_of (abs z)))) not_a_number
  units_of_number (finite (decimal_of_int z))
units (float f) = do check_float f; units_of_number f.shown
units (decimal d) = units_of_number d
units other = err not_a_number

-- The text `f"{sign}{whole}.{fractional:09d}"` has the digits of `whole` and then nine of
-- `fractional`; `Decimal` reads them as one number, with the exponent -9.
unfoldable pub from_units : ℤ → Decimal
unfolding digits_of
from_units z =
    let whole = abs z / 10 ^ scale in
    let fractional = abs z % 10 ^ scale in
    record {
      sign = ltb_ℤ z (pos 0);
      digits = digits_of (whole * 10 ^ scale + fractional);
      exponent = negsuc 8;
    }

unfoldable pub amount : Value → Result Decimal
unfolding units from_units
amount value = do z ← units value; ok (from_units z)

unfoldable pub sum_units : List Value → Result ℤ
unfolding units ◌+ℤ◌
sum_units [] = ok (pos 0)
sum_units (value ∷ values) = do z ← units value; rest ← sum_units values; ok (z +ℤ rest)

unfoldable pub add : List Value → Result Decimal
unfolding sum_units from_units
add values = do total ← sum_units values; ok (from_units total)

unfoldable pub subtract : Value → Value → Result Decimal
unfolding units from_units ◌-ℤ◌
subtract left right = do l ← units left; r ← units right; ok (from_units (l -ℤ r))
