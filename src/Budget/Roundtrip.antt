-- ===== src/Budget/Roundtrip.antt =====
-- The decimals that `from_units` builds, and integers written in digits, read back unchanged.
use actenon_permit.Base.{
  ℕ, zero, suc, ◌+◌, ◌*◌, ◌/◌, ◌%◌, ◌^◌, ◌≤◌, ◌<◌, ◌≡◌, ◌∙◌, ap, sym, Bool, length, ◌⊎◌, inl, inr,
  refl, List, [], ◌∷◌, arith, ltb, leb, Bool-cases, if◌then◌else◌, true, false,
}
use actenon_permit.Base.Int.{ℤ, pos, negsuc, abs, ltb_ℤ}
use actenon_permit.Result.{
  Result, ok, err, out_of_range, raise_if, Error, not_a_number, too_many_digits, ◌>>=◌, ◌>>◌,
}
use actenon_permit.Budget.{
  joined, scale_up, digits_onto, digits_of, decimal_of_int, from_units, units, scale, max_units,
  decimal, finite, integer, signed, max_str_digits,
}
use actenon_permit.Budget.Powers.{IsDigits, pow_mono}
use actenon_permit.Budget.Exact.{IsCanonical, pow-le-joined, units_of_decimal_iff}

joined-digits_onto :
    (fuel n : ℕ) (rest : List ℕ) → n < fuel → joined 0 (digits_onto fuel n rest) ≡ joined n rest
unfolding joined digits_onto
joined-digits_onto zero n rest h = absurd (omega arith)
joined-digits_onto (suc fuel) n rest h = elim (Bool-cases (ltb n 10)) [
  | inl last ↦ let e : 0 + n ≡ n = omega arith in rw last (ap (λ (t : ℕ). joined t rest) e)
  | inr more ↦
      let e : n / 10 * 10 + n % 10 ≡ n = omega arith in
      rw more (joined-digits_onto fuel (n / 10) ((n % 10) ∷ rest) (ground arith) ∙ rw e)
]

-- Reading the digits of a number gives the number: the fuel of `digits_of` is enough.
pub joined-digits_of : (n : ℕ) → joined 0 (digits_of n) ≡ n
unfolding digits_of joined
joined-digits_of n = joined-digits_onto (suc n) n [] (omega arith)

digits_onto-IsCanonical :
    (fuel n : ℕ) (rest : List ℕ)
    → n < fuel
    → IsDigits rest
    → (1 ≤ n) ⊎ (rest ≡ [])
    → IsCanonical (digits_onto fuel n rest)
unfolding digits_onto
digits_onto-IsCanonical zero n rest h ds lead = absurd (omega arith)
digits_onto-IsCanonical (suc fuel) n rest h ds lead = elim (Bool-cases (ltb n 10)) [
  | inl last ↦ rw last (ground arith, ds, lead)
  | inr more ↦ rw more (
      digits_onto-IsCanonical fuel (n / 10) ((n % 10) ∷ rest) (ground arith) (omega arith, ds)
        (inl (ground arith)))
]

pub digits_of-IsCanonical : (n : ℕ) → IsCanonical (digits_of n)
unfolding digits_of
digits_of-IsCanonical n = digits_onto-IsCanonical (suc n) n [] (omega arith) tt (inr refl)

-- A number in range has few digits.
short_digits : (n : ℕ) → n ≤ max_units → length (digits_of n) ≤ 48
unfolding digits_of
short_digits zero fits = omega arith
short_digits (suc n) fits = elim (Bool-cases (ltb 48 (length (digits_of (suc n))))) [
  | inr short ↦ ground (arith, short)
  | inl long ↦
      let more : 49 ≤ length (digits_of (suc n)) = ground arith in
      let read = joined-digits_of (suc n) in
      let lead =
        pow-le-joined (digits_of (suc n)) (digits_of-IsCanonical (suc n))
          (λ e. omega (arith, e, read)) in
      absurd (omega (arith, pow_mono more, lead, read))
]

-- What the code does with an exact amount of `z` units: pass it on, or refuse it as out of range, or
-- for its digits.
unfoldable pub in_range : ℤ → Result ℤ
in_range z =
    if leb (abs z) max_units
    then ok z
    else if ltb max_str_digits (length (digits_of (abs z)))
    then err too_many_digits
    else err out_of_range

-- The two parts of an amount, put back together.
regrouped : (z : ℤ) → abs z / 10 ^ scale * 10 ^ scale + abs z % 10 ^ scale ≡ abs z
regrouped z = omega arith

signed-abs : (z : ℤ) → z ≡ signed (ltb_ℤ z (pos 0)) (abs z)
signed-abs (pos n) = ground arith
signed-abs (negsuc n) = ground arith

-- Out of range the code raises at one of its two range tests, whatever the digits are.
beyond :
    (n len : ℕ) (sign : Bool)
    → leb n max_units ≡ false
    → (scale_up n len 0 >>= λ scaled.
        raise_if (ltb max_units scaled) out_of_range >> ok (signed sign scaled))
      ≡ err out_of_range
unfolding scale_up
beyond n len sign big = ground arith

-- `units(from_units(z))` is z for every integer in range, and an error for any other.
pub units-from_units : (z : ℤ) → units (decimal (finite (from_units z))) ≡ in_range z
unfolding units from_units in_range
units-from_units z =
    let whole = abs z / 10 ^ scale * 10 ^ scale + abs z % 10 ^ scale in
    let group = regrouped z in
    let read = joined-digits_of whole ∙ group in
    elim (Bool-cases (leb (abs z) max_units)) [
      | inl fits ↦
          let bound : whole ≤ max_units = ground (arith, group) in
          rw fits (
            (units_of_decimal_iff (from_units z) z (digits_of-IsCanonical whole)).1 (
              omega (arith, short_digits whole bound),
              signed-abs z,
              omega (arith, read),
              ground arith,
            ))
      | inr big ↦ elim (Bool-cases (ltb max_str_digits (length (digits_of (abs z))))) [
        | inl long ↦ rw (big, group, long) refl
        | inr short ↦
            rw (big, group, short, joined-digits_of (abs z))
              (beyond (abs z) (length (digits_of (abs z))) (ltb_ℤ z (pos 0)) big)
      ]
    ]

passed :
    (c : Bool) (e : Error) (m : Result ℤ) {z : ℤ}
    → c ≡ false
    → m ≡ ok z
    → (raise_if c e >> m) ≡ ok z
passed true e m fine h = cc
passed false e m fine h = h

abs-signed : (sign : Bool) (n : ℕ) → abs (signed sign n) ≡ n
abs-signed true zero = omega arith
abs-signed true (suc n) = omega arith
abs-signed false n = omega arith

-- An int whose count of units is in range has exactly 10^9 units for each one, with its sign.
pub units-integer :
    (z : ℤ)
    → abs z * 10 ^ scale ≤ max_units
    → units (integer z) ≡ ok (signed (ltb_ℤ z (pos 0)) (abs z * 10 ^ scale))
unfolding units decimal_of_int
units-integer z fits =
    let sign = ltb_ℤ z (pos 0) in
    let magnitude = abs-signed sign (abs z * 10 ^ scale) in
    let few = short_digits (abs z) (omega (arith, fits)) in
    let writes : ltb max_str_digits (length (digits_of (abs z))) ≡ false = ground (arith, few) in
    passed _ not_a_number _ writes (
      (units_of_decimal_iff (decimal_of_int z) (signed sign (abs z * 10 ^ scale))
          (digits_of-IsCanonical (abs z))).1
        (
          omega (arith, few),
          ap (signed sign) (sym magnitude),
          omega (arith, magnitude, joined-digits_of (abs z)),
          omega (arith, magnitude),
        ))
