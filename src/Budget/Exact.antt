-- ===== src/Budget/Exact.antt =====
-- `units` is exact: it returns the integer that the decimal is, in units of 10^-9, and refuses
-- exactly the decimals that are no such integer or lie beyond the range.
use Prim.Native.Nat.{min}
use native.Mathlib.Nat.{pow-suc, div-add-mod', mul-div_cancel, mul-le-mul_right}
use actenon_permit.Base.{
  ℕ, zero, suc, ◌+◌, ◌*◌, ◌/◌, ◌%◌, ◌^◌, ◌≤◌, ◌<◌, ◌≡◌, ◌↔◌, ◌⊎◌, ◌≢◌, inl, inr, Bool, true, false,
  List, [], ◌∷◌, length, arith, ltb, ◌==◌, Bool-cases, if◌then◌else◌, ap, not,
}
use actenon_permit.Base.Int.{ℤ, pos, pos_part, neg_part, abs, ◌+ℤ◌, negsuc, ltb_ℤ}
use actenon_permit.Budget.{
  Decimal, scale, joined, signed, scale_down, scale_up, max_units, units_of_decimal, max_str_digits,
}
use actenon_permit.Budget.Powers.{one-le-pow, pow_mono, pow-add, IsDigits, joined-lt, le-joined}
use actenon_permit.Result.{ok, err, Result, ◌>>=◌, ◌>>◌, raise_if, too_precise, out_of_range}

-- The digits of a decimal: at least one, and no leading zero but in the zero itself.
abbrev pub IsCanonical : List ℕ → Type 0
IsCanonical [] = ⊥
IsCanonical (d ∷ ds) = (d < 10) × IsDigits ds × ((1 ≤ d) ⊎ (ds ≡ []))

-- `n` units of 10^-9 are the magnitude of the decimal: n = digits * 10^(exponent + 9).
abbrev pub IsExact : Decimal → ℕ → Type 0
IsExact number n =
    let shift = number.exponent +ℤ pos scale in
    n * 10 ^ neg_part shift ≡ joined 0 number.digits * 10 ^ pos_part shift

-- The division of `scale_down`, with its divisor as a variable.
divided : ℕ → ℕ → Result ℕ
divided c p = do raise_if (not (c % p == 0)) too_precise; ok (c / p)

divided_iff : (c p n : ℕ) → 1 ≤ p → (divided c p ≡ ok n) ↔ (n * p ≡ c)
unfolding divided
divided_iff c p n h = (
  λ e. ground (arith, div-add-mod' c p, ap (λ (t : ℕ). t * p) (exact e)),
  λ e. rw (← e) (ground (arith, div-add-mod' (n * p) p, mul-div_cancel n h)),
)
  where
    exact : divided c p ≡ ok n → c / p ≡ n
    exact e = ground arith

scale_down_zero : (len k n : ℕ) → (scale_down 0 len k ≡ ok n) ↔ (n * 10 ^ k ≡ 0)
unfolding scale_down divided
scale_down_zero len k n =
    let step = divided_iff 0 (10 ^ min k len) n (one-le-pow (min k len)) in
    (
      λ e. only_zero (10 ^ min k len) (10 ^ k) (one-le-pow (min k len)) (step.0 e),
      λ e. step.1 (only_zero (10 ^ k) (10 ^ min k len) (one-le-pow k) e),
    )
  where
    only_zero : (p q : ℕ) → 1 ≤ p → n * p ≡ 0 → n * q ≡ 0
    only_zero p q h e = let z : n ≡ 0 = grind arith in rw z (omega arith)

le_of_mul : (n p c : ℕ) → n * p ≡ c → 1 ≤ c → p ≤ c
le_of_mul zero p c e h = absurd (omega arith)
le_of_mul (suc n) p c e h = omega arith

-- Dividing comes through with exactly the quotient that leaves no remainder.
pub scale_down_lem : (c len k n : ℕ) → c < 10 ^ len → (scale_down c len k ≡ ok n) ↔ (n * 10 ^ k ≡ c)
unfolding scale_down divided
scale_down_lem c len k n h = elim (Bool-cases (c == 0)) [
  | inl none_left ↦ let z : c ≡ 0 = ground arith in rw z (scale_down_zero len k n)
  | inr some_left ↦ elim (Bool-cases (ltb len k)) [
    | inl deep ↦ rw (some_left, deep) (λ e. cc, λ e. absurd (too_deep some_left deep e))
    | inr shallow ↦
        let e : min k len ≡ k = ground arith in
        rw (some_left, shallow, e) (divided_iff c (10 ^ k) n (one-le-pow k))
  ]
]
  where
    too_deep : c == 0 ≡ false → ltb len k ≡ true → n * 10 ^ k ≡ c → ⊥
    too_deep some_left deep e =
        let len_le_k : len ≤ k = ground arith in
        let p = pow_mono len_le_k in
        let c_pos : 1 ≤ c = ground arith in omega (arith, le_of_mul n (10 ^ k) c e c_pos)

-- Multiplying comes through with the product, unless the product is out of range.
pub scale_up_lem :
    (c len k n : ℕ)
    → (c ≢ 0 → 10 ^ len ≤ c * 10)
    → (scale_up c len k ≡ ok n) × (n ≤ max_units) ↔ (n ≡ c * 10 ^ k) × (n ≤ max_units)
unfolding scale_up
scale_up_lem c len k n leading = elim (Bool-cases (c == 0)) [
  | inl none_left ↦ let z : c ≡ 0 = ground arith in rw z (λ e. ground arith, λ e. ground arith)
  | inr some_left ↦ elim (Bool-cases (ltb 48 (len + k))) [
    | inl long ↦ rw (some_left, long) (λ e. cc e.0, λ e. absurd (too_long some_left long e.0 e.1))
    | inr fits ↦ rw (some_left, fits) (λ e. ground arith, λ e. ground arith)
  ]
]
  where
    too_long : c == 0 ≡ false → ltb 48 (len + k) ≡ true → n ≡ c * 10 ^ k → n ≤ max_units → ⊥
    too_long some_left long e bound =
        let longer : 49 ≤ len + k = ground arith in
        let p = pow_mono longer in
        let q = pow-add len k in
        let lead : 10 ^ len ≤ c * 10 = leading (ground arith) in
        let scaled : 10 ^ len * 10 ^ k ≤ c * 10 * 10 ^ k = mul-le-mul_right (10 ^ k) lead in
        omega arith

-- The end of `units`: the last range test and the sign.
signed_result : Bool → Result ℕ → Result ℤ
signed_result sign scaled = do
  n ← scaled
  raise_if (ltb max_units n) out_of_range
  ok (signed sign n)

signed_result_lem :
    (sign : Bool) (scaled : Result ℕ) (z : ℤ)
    → (signed_result sign scaled ≡ ok z)
      ↔ (z ≡ signed sign (abs z)) × (scaled ≡ ok (abs z)) × (abs z ≤ max_units)
unfolding signed_result
signed_result_lem true (ok zero) z = (λ e. ground arith, λ e. ground arith)
signed_result_lem true (ok (suc n)) z = (λ e. ground arith, λ e. ground arith)
signed_result_lem false (ok n) z = (λ e. ground arith, λ e. ground arith)
signed_result_lem sign (err e) z = (λ h. cc, λ h. cc h.1)

joined-lt-pow : (ds : List ℕ) → IsCanonical ds → joined 0 ds < 10 ^ length ds
joined-lt-pow [] h = absurd h
joined-lt-pow (d ∷ ds) h = omega (arith, joined-lt 0 (d ∷ ds) (h.0, h.1))

pub pow-le-joined :
    (ds : List ℕ) → IsCanonical ds → joined 0 ds ≢ 0 → 10 ^ length ds ≤ joined 0 ds * 10
unfolding joined
pow-le-joined [] h ne = absurd h
pow-le-joined (d ∷ ds) h ne = elim h.2 [
  | inl leading ↦
      let lead : 1 * 10 ^ length ds ≤ (0 + d) * 10 ^ length ds =
        mul-le-mul_right (10 ^ length ds) (omega arith) in
      rw (pow-suc 10 (length ds)) (omega (arith, le-joined (0 + d) ds))
  | inr alone ↦ single ds alone ne
]
  where
    single :
        (rest : List ℕ)
        → rest ≡ []
        → joined 0 (d ∷ rest) ≢ 0
        → 10 ^ suc (length rest) ≤ joined 0 (d ∷ rest) * 10
    single [] e nonzero = omega arith
    single (x ∷ xs) e nonzero = cc

scaled_lem :
    (c len : ℕ) (shift : ℤ) (n : ℕ)
    → c < 10 ^ len
    → (c ≢ 0 → 10 ^ len ≤ c * 10)
    → n ≤ max_units
    → ((if ltb_ℤ shift (pos 0)
          then scale_down c len (neg_part shift)
          else scale_up c len (pos_part shift))
        ≡ ok n)
      ↔ (n * 10 ^ neg_part shift ≡ c * 10 ^ pos_part shift)
scaled_lem c len (pos k) n short leading fits =
    let up = scale_up_lem c len k n leading in
    let upward : ltb_ℤ (pos k) (pos 0) ≡ false = ground arith in
    rw upward (λ e. omega (arith, (up.0 (e, fits)).0), λ e. (up.1 (omega arith, fits)).0)
scaled_lem c len (negsuc k) n short leading fits =
    let down = scale_down_lem c len (suc k) n short in
    let downward : ltb_ℤ (negsuc k) (pos 0) ≡ true = ground arith in
    rw downward (λ e. omega (arith, down.0 e), λ e. down.1 (omega arith))

-- The digits of a decimal being canonical, `units` of it is the integer z exactly when they are at most
-- 4300, z has its sign and its exact magnitude in units of 10^-9, and is in range: nothing is rounded, and
-- nothing that fits is refused but for its number of digits.
pub units_of_decimal_iff :
    (number : Decimal) (z : ℤ)
    → IsCanonical number.digits
    → (units_of_decimal number ≡ ok z)
      ↔ (length number.digits ≤ max_str_digits)
        × (z ≡ signed number.sign (abs z))
        × IsExact number (abs z)
        × (abs z ≤ max_units)
unfolding units_of_decimal signed_result
units_of_decimal_iff number z h =
    let c = joined 0 number.digits in
    let len = length number.digits in
    let shift = number.exponent +ℤ pos scale in
    let scaled =
      if ltb_ℤ shift (pos 0)
      then scale_down c len (neg_part shift)
      else scale_up c len (pos_part shift) in
    let finish = signed_result_lem number.sign scaled z in
    let middle = λ (fits : abs z ≤ max_units).
      scaled_lem c len shift (abs z) (joined-lt-pow number.digits h) (pow-le-joined number.digits h)
        fits in
    elim (Bool-cases (ltb max_str_digits len)) [
      | inl long ↦
          let above : max_str_digits < len = ground arith in
          rw long (λ e. cc, λ e. absurd (omega (arith, above, e.0)))
      | inr short ↦
          let within : len ≤ max_str_digits = ground arith in
          rw short (
            λ e. let f = finish.0 e in (within, f.0, (middle f.2).0 f.1, f.2),
            λ e. finish.1 (e.1, (middle e.3).1 e.2, e.3),
          )
    ]
