-- ===== src/Tests/Money.antt =====
-- Amounts, on numbers.
use actenon_permit.Base.{length, refl, not, all, is_some, none, some, [], ◌∷◌, true}
use actenon_permit.Base.Equality.{text_beq}
use actenon_permit.Texts.{codes}
use actenon_permit.Result.{err, not_a_number}
use actenon_permit.Budget.{Value, integer}
use actenon_permit.Cost.{
  Arguments, argument, candidates, checked_cost, first_cost, estimate_cost, IsCost,
  estimate_cost-IsCost,
}
use actenon_permit.Base.{◌≡◌, ◌↔◌, arith, false, [], ◌∷◌, ◌^◌, ◌≤◌, ◌*◌, inl}
use actenon_permit.Base.Int.{pos, negsuc, abs, ltb_ℤ}
use actenon_permit.Result.{ok}
use actenon_permit.Budget.{
  max_str_digits, Decimal, Value, units, signed, scale, units_of_decimal, max_units, Number,
  from_units,
}
use actenon_permit.Budget.Exact.{units_of_decimal_iff, IsExact}
use actenon_permit.Budget.Roundtrip.{units-from_units, units-integer, in_range}

-- 0.25
abbrev quarter : Decimal
quarter = record { sign = false; digits = 2 ∷ 5 ∷ []; exponent = negsuc 1 }

units_of_decimal_iff_example :
    (units_of_decimal quarter ≡ ok (pos 250000000))
    ↔ (length quarter.digits ≤ max_str_digits)
      × (pos 250000000 ≡ signed quarter.sign (abs (pos 250000000)))
      × IsExact quarter (abs (pos 250000000))
      × (abs (pos 250000000) ≤ max_units)
units_of_decimal_iff_example =
    units_of_decimal_iff quarter (pos 250000000) (omega arith, (omega arith, tt), inl (omega arith))

units-from_units_example :
    units (Value.decimal (Number.finite (from_units (negsuc 4)))) ≡ in_range (negsuc 4)
units-from_units_example = units-from_units (negsuc 4)

units-integer_example :
    units (Value.integer (negsuc 4))
    ≡ ok (signed (ltb_ℤ (negsuc 4) (pos 0)) (abs (negsuc 4) * 10 ^ scale))
units-integer_example = units-integer (negsuc 4) (omega arith)

-- A refund of forty, and one whose amount is a text.
abbrev refund : Arguments
refund = (codes "amount", integer (pos 40)) ∷ []

abbrev text_refund : Arguments
text_refund = (codes "amount", Value.other) ∷ []

refuses_text : estimate_cost text_refund none ≡ err not_a_number
unfolding estimate_cost first_cost candidates argument checked_cost text_beq
refuses_text = refl

estimate_cost-IsCost_example :
    ((estimate_cost refund none ≡ ok none)
      ↔ (all (λ k. not (is_some (argument k refund))) (candidates none) ≡ true))
    × ((d : Decimal) → estimate_cost refund none ≡ ok (some d) → IsCost (candidates none) refund d)
estimate_cost-IsCost_example = estimate_cost-IsCost refund none
