-- ===== src/Cost.antt =====
-- `estimate_cost` of src/actenon_permit/model.py: what a call reserves, from its arguments.
use actenon_permit.Base.{
  ◌≡◌, ◌↔◌, refl, ◌∙◌, inl, inr, true, not, Option, none, some, List, [], ◌∷◌, Option-cases, all,
  is_some, if◌then◌else◌, arith,
}
use actenon_permit.Base.Equality.{
  Text, text_eq, text_beq, contains, contains_cons, contains-cons_self,
}
use actenon_permit.Base.Int.{ℤ}
use actenon_permit.Result.{
  Result, ok, err, ◌>>=◌, not_a_number, Result-cases, ok-injective, >>=-eq-ok,
}
use actenon_permit.Budget.{
  Value, boolean, integer, float, decimal, other, Decimal, amount, units, from_units,
}
use actenon_permit.Texts.{codes}

-- The arguments of a call: each name with what the code tests of its value.
abbrev pub Arguments : Type 0
Arguments = List (Text × Value)

-- `arguments[key]`, if it is there
unfoldable pub argument : Text → Arguments → Option Value
argument key [] = none
argument key ((name, value) ∷ rest) = if text_beq name key then some value else argument key rest

-- `([cost_from] if cost_from else []) + ["amount", "cost"]`
unfoldable pub candidates : Option Text → List Text
candidates none = codes "amount" ∷ codes "cost" ∷ []
candidates (some []) = codes "amount" ∷ codes "cost" ∷ []
candidates (some (c ∷ s)) = (c ∷ s) ∷ codes "amount" ∷ codes "cost" ∷ []

-- The two tests of a value; either failure is a `CostError`.
unfoldable pub checked_cost : Value → Result Decimal
checked_cost (boolean b) = err not_a_number
checked_cost other = err not_a_number
checked_cost value = amount value

-- The loop over the names.
unfoldable pub first_cost : List Text → Arguments → Result (Option Decimal)
first_cost [] arguments = ok none
first_cost (key ∷ keys) arguments = elim (argument key arguments) [
  | none ↦ first_cost keys arguments
  | some value ↦ checked_cost value >>= λ cost. ok (some cost)
]

unfoldable pub estimate_cost : Arguments → Option Text → Result (Option Decimal)
estimate_cost arguments cost_from = first_cost (candidates cost_from) arguments

-- A call that reserves nothing has none of the names among its arguments.
first_cost-absent :
    (keys : List Text) (arguments : Arguments)
    → first_cost keys arguments ≡ ok none
    → all (λ k. not (is_some (argument k arguments))) keys ≡ true
unfolding first_cost
first_cost-absent [] arguments h = refl
first_cost-absent (key ∷ keys) arguments h = elim (Option-cases (argument key arguments)) [
  | inl absent ↦ rw absent (first_cost-absent keys arguments (rw (absent, first_cost) at h))
  | inr (value, there) ↦ elim (Result-cases (checked_cost value)) [
    | inl (d, good) ↦ (let both = ok-injective (rw (there, good, first_cost) at h) in cc)
    | inr (e, bad) ↦ (let both = rw (there, bad, first_cost) at h in cc)
  ]
]

first_cost-none :
    (keys : List Text) (arguments : Arguments)
    → all (λ k. not (is_some (argument k arguments))) keys ≡ true
    → first_cost keys arguments ≡ ok none
unfolding first_cost
first_cost-none [] arguments h = refl
first_cost-none (key ∷ keys) arguments h = elim (Option-cases (argument key arguments)) [
  | inl absent ↦ rw (absent, first_cost) (first_cost-none keys arguments (rw absent at h))
  | inr (value, there) ↦ ground (arith, rw there at h)
]

-- A cost that is estimated is the exact amount of one of the named arguments.
pub record IsCost (keys : List Text) (arguments : Arguments) (d : Decimal) : Type 0 where
  pub key : Text
  pub value : Value
  pub units_of_value : ℤ
  pub named : contains key keys ≡ true
  pub there : argument key arguments ≡ some value
  pub exact : units value ≡ ok units_of_value
  pub written : from_units units_of_value ≡ d

checked_cost-units :
    (value : Value) (d : Decimal)
    → checked_cost value ≡ ok d
    → (z : ℤ) × (units value ≡ ok z) × (from_units z ≡ d)
unfolding checked_cost amount
checked_cost-units (boolean b) d h = cc
checked_cost-units other d h = cc
checked_cost-units (integer n) d h =
    let (z, exact, last) = >>=-eq-ok (units (integer n)) _ h in (z, exact, ok-injective last)
checked_cost-units (float f) d h =
    let (z, exact, last) = >>=-eq-ok (units (float f)) _ h in (z, exact, ok-injective last)
checked_cost-units (decimal n) d h =
    let (z, exact, last) = >>=-eq-ok (units (decimal n)) _ h in (z, exact, ok-injective last)

first_cost-IsCost :
    (keys : List Text) (arguments : Arguments) (d : Decimal)
    → first_cost keys arguments ≡ ok (some d)
    → IsCost keys arguments d
unfolding first_cost
first_cost-IsCost [] arguments d h = (let both = ok-injective h in cc)
first_cost-IsCost (key ∷ keys) arguments d h = elim (Option-cases (argument key arguments)) [
  | inl absent ↦
      let c = first_cost-IsCost keys arguments d (rw (absent, first_cost) at h) in
      record {
        key = c.key;
        value = c.value;
        units_of_value = c.units_of_value;
        named = contains_cons c.key key keys c.named;
        there = c.there;
        exact = c.exact;
        written = c.written;
      }
  | inr (value, there) ↦
      let (cost, good, last) = >>=-eq-ok (checked_cost value) _ (rw (there, first_cost) at h) in
      let (z, exact, written) = checked_cost-units value cost good in
      let both : some cost ≡ some d = ok-injective last in
      let same : cost ≡ d = cc in
      record {
        key = key;
        value = value;
        units_of_value = z;
        named = contains-cons_self key keys;
        there = there;
        exact = exact;
        written = written ∙ same;
      }
]

-- `estimate_cost` returns no cost exactly when none of the names of a cost is among the arguments; a
-- cost that it returns is the exact amount in units of the value under one of those names.
pub estimate_cost-IsCost :
    (arguments : Arguments) (cost_from : Option Text)
    → ((estimate_cost arguments cost_from ≡ ok none)
        ↔ (all (λ k. not (is_some (argument k arguments))) (candidates cost_from) ≡ true))
      × ((d : Decimal)
          → estimate_cost arguments cost_from ≡ ok (some d)
          → IsCost (candidates cost_from) arguments d)
unfolding estimate_cost
estimate_cost-IsCost arguments cost_from = (
  (
    first_cost-absent (candidates cost_from) arguments,
    first_cost-none (candidates cost_from) arguments,
  ),
  first_cost-IsCost (candidates cost_from) arguments,
)
