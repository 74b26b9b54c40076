-- ===== src/Pdp/Rules.antt =====
-- The matching of scopes and of approval rules in src/actenon_permit/pdp.py, and the action of
-- src/actenon_permit/model.py that they look at.
use actenon_permit.Base.{
  ℕ, zero, suc, ◌+◌, ◌*◌, ◌^◌, Bool, true, false, not, ◌&&◌, ◌||◌, Option, none, some, List, [],
  ◌∷◌, ◌++◌, length, ltb, ◌==◌, if◌then◌else◌, ◌-◌,
}
use actenon_permit.Base.Int.{pos, negsuc, pos_part, neg_part, abs, ltb_ℤ}
use actenon_permit.Base.Equality.{Text, text_beq}
use actenon_permit.Result.{Result, ok, err, ◌>>=◌, bad_threshold}
use actenon_permit.Budget.{
  Value, boolean, integer, float, decimal, other, Number, finite, special, Decimal, joined, signed,
  decimal_of_int, digits_of, max_str_digits,
}
use actenon_permit.Texts.{is_space, skip_spaces, strip, is_between, span}
use actenon_permit.Glob.{fnmatch}

-- `Action`. `amount` is what `Decimal(str(params["amount"]))` gives where that parameter is there and is
-- not None; within, `none` is a conversion that raised.
pub record Action : Type 0 where
  pub action_id : ℕ
  pub grant_id : ℕ
  pub ts : ℕ
  pub action_type : Text
  pub target : ℕ
  pub params : ℕ
  pub amount : Option (Option Number)
  pub est_cost : Option Value

-- `_scope_matches`
unfoldable pub scope_matches : List Text → Text → Option Text
scope_matches [] action_type = none
scope_matches (p ∷ patterns) action_type =
    let rest = scope_matches patterns action_type in
    if text_beq p action_type then some p else if fnmatch action_type p then some p else rest

abbrev pub is_digit : ℕ → Bool
is_digit = is_between 48 57

-- `Decimal(text)` of digits and points, with the digits before the point, how many have come after it, and
-- whether it has come.
unfoldable pub read_decimal : List ℕ → ℕ → Bool → Text → Result Decimal
read_decimal digits after seen [] =
    if length digits == 0
    then err bad_threshold
    else ok (record { sign = false; digits = digits; exponent = signed true after })
read_decimal digits after seen (c ∷ s) =
    let more = read_decimal (digits ++ (c - 48) ∷ []) (if seen then suc after else after) seen s in
    let point = read_decimal digits after true s in
    if is_digit c then more else if seen then err bad_threshold else point

-- The groups of `_THRESHOLD_RE`, where it matches.
unfoldable pub threshold : Text → Option (Text × Text)
threshold rule =
    let front = span (λ c. not (is_space c || c == 62)) rule in
    let name = front.0 in
    elim (skip_spaces front.1) [
      | [] ↦ none
      | c ∷ s ↦
          let number = span (λ c. is_digit c || c == 46) (skip_spaces s) in
          if c == 62
            && ltb 0 (length name)
            && ltb 0 (length number.0)
            && length (skip_spaces number.1) == 0
          then some (name, number.0)
          else none
    ]

-- `value > threshold` of two finite decimals
unfoldable pub decimal_gt : Decimal → Decimal → Bool
decimal_gt a b =
    let common = neg_part a.exponent + neg_part b.exponent in
    let left = joined 0 a.digits * 10 ^ (pos_part a.exponent + neg_part b.exponent) in
    let right = joined 0 b.digits * 10 ^ (pos_part b.exponent + neg_part a.exponent) in
    ltb_ℤ (signed b.sign right) (signed a.sign left)

unfoldable pub is_zero : Number → Bool
is_zero (finite d) = joined 0 d.digits == 0
is_zero special = false

-- Python's `not value`
unfoldable pub is_falsy : Value → Bool
is_falsy (boolean b) = not b
is_falsy (integer (pos zero)) = true
is_falsy (integer z) = false
is_falsy (float f) = is_zero f.shown
is_falsy (decimal d) = is_zero d
is_falsy other = false

abbrev pub zero_decimal : Decimal
zero_decimal = record { sign = false; digits = 0 ∷ []; exponent = negsuc 0 }

-- `0.0`
abbrev pub zero_float : Value
zero_float = float (record { is_finite = true; is_coarse = false; shown = finite zero_decimal })

-- `action.est_cost or 0.0`
unfoldable pub cost_of : Option Value → Value
cost_of none = zero_float
cost_of (some v) = if is_falsy v then zero_float else v

-- `Decimal(str(value))`; an int with too many digits is not written.
unfoldable pub shown_number : Value → Option Number
shown_number (boolean b) = none
shown_number (integer z) =
    if ltb max_str_digits (length (digits_of (abs z)))
    then none
    else some (finite (decimal_of_int z))
shown_number (float f) = some f.shown
shown_number (decimal d) = some d
shown_number other = none

unfoldable pub rule_amount : Action → Option Number
rule_amount action = elim action.amount [
  | some number ↦ number
  | none ↦ shown_number (cost_of action.est_cost)
]

-- What does not show that it is a number within the threshold is over it.
unfoldable pub is_over : Decimal → Option Number → Bool
is_over limit none = true
is_over limit (some special) = true
is_over limit (some (finite value)) = decimal_gt value limit

-- `_approval_rule_matches`
unfoldable pub approval_rule_matches : Text → Action → Result Bool
approval_rule_matches rule action = elim (threshold (strip rule)) [
  | none ↦ ok (text_beq action.action_type (strip rule))
  | some (name, number) ↦ read_decimal [] 0 false number >>= λ limit.
      ok (text_beq action.action_type name && is_over limit (rule_amount action))
]

-- `for rule in grant.approval_rules: if _approval_rule_matches(rule, action)`
unfoldable pub first_rule : List Text → Action → Result (Option Text)
first_rule [] action = ok none
first_rule (rule ∷ rules) action =
    let rest = first_rule rules action in
    approval_rule_matches rule action >>= λ matched. if matched then ok (some rule) else rest
