-- ===== src/Pdp/Reasons.antt =====
-- What a decision of src/actenon_permit/pdp.py says: the texts of refused reservations, as state.py,
-- delegated_budget.py and effects.py write them, and the code that the text of a refusal is given.
use actenon_permit.Base.{ℕ, ◌||◌, Option, ◌∷◌, ◌++◌, map, ◌+◌, if◌then◌else◌}
use actenon_permit.Base.Int.{ℤ, pos, negsuc}
use actenon_permit.Base.Equality.{Text}
use actenon_permit.Result.{
  Error, lineage_cyclic, ancestor_missing, owner_inactive, owner_expired, signature_invalid,
  widens_parent, no_root,
}
use actenon_permit.Status.{Status, active, revoked, expired, exhausted}
use actenon_permit.Budget.{Value, digits_of}
use actenon_permit.Store.Reserve.{
  Refusal, negative_amount, no_lineage, effect_unapproved, finite_signature, unsettled_overrun,
  exceeds_budget, rate_limit, Snapshot,
}
use actenon_permit.Effects.{Reference}
use actenon_permit.Texts.{codes, lower, has_infix}

-- `DecisionOutcome`
pub data DecisionOutcome : Type 0 where
  allow deny require_approval : DecisionOutcome

-- The members of the kernel's `FailureCode` that the module uses.
pub data FailureCode : Type 0 where
  signature_invalid_code out_of_scope_code revoked_code not_active_code expired_code : FailureCode
  scope_denied_code rate_limited_code approval_required_code budget_exceeded_code : FailureCode
  engine_error_code allowed_code : FailureCode

-- `state_delta`
pub data Delta : Type 0 where
  nothing status_expired : Delta
  budget_reserved : Snapshot → Delta
  effect_reserved : Snapshot → Reference → Delta
  effect_named : ℕ → Delta
  released : Value → Delta

-- `Decision`
pub record Decision : Type 0 where
  pub outcome : DecisionOutcome
  pub reason : Text
  pub rule_matched : Option Text
  pub state_delta : Delta
  pub failure_code : Option FailureCode

-- How `str` writes an identifier, an amount of the budget and an exception, and the name of its class.
pub record Printing : Type 0 where
  pub id_text : ℕ → Text
  pub amount_text : ℕ → Text
  pub message_text : Error → Text
  pub class_text : Error → Text

-- `status.value`
unfoldable pub status_text : Status → Text
status_text active = codes "active"
status_text revoked = codes "revoked"
status_text expired = codes "expired"
status_text exhausted = codes "exhausted"

-- `str(n)` of an int
unfoldable pub int_text : ℤ → Text
int_text (pos n) = map (λ d. d + 48) (digits_of n)
int_text (negsuc n) = 45 ∷ map (λ d. d + 48) (digits_of (n + 1))

-- `str(exc)` of what `_budget_lineage` raises
unfoldable pub lineage_text : Printing → Error → Text
lineage_text p lineage_cyclic = codes "delegated budget lineage is cyclic or too deep"
lineage_text p ancestor_missing = codes "delegated budget ancestor is missing"
lineage_text p (owner_inactive id status) =
    codes "budget owner " ++ p.id_text id ++ codes " status is " ++ status_text status
lineage_text p (owner_expired id) = codes "budget owner " ++ p.id_text id ++ codes " is expired"
lineage_text p signature_invalid = codes "delegated budget authority signature is invalid"
lineage_text p widens_parent = codes "delegated authority widens its parent constraints"
lineage_text p no_root = codes "delegated budget lineage has no root authority"
lineage_text p e = p.message_text e

-- The reason that goes with a reservation's False.
unfoldable pub refusal_text : Printing → Refusal → Text
refusal_text p negative_amount =
    codes "negative amounts are not allowed — this is a budget bypass attempt"
refusal_text p (no_lineage e) = lineage_text p e
refusal_text p effect_unapproved = codes "effect is not explicitly approved by its authority"
refusal_text p finite_signature = codes "finite effect authority signature is invalid"
refusal_text p unsettled_overrun = codes "budget overrun remains unsettled"
refusal_text p (exceeds_budget owner) =
    codes "would exceed "
    ++ owner.budget.currency
    ++ codes " "
    ++ p.amount_text owner.budget.limit
    ++ codes " budget"
refusal_text p rate_limit = codes "rate limit"

-- The code of a refused reservation, by the words of its reason.
unfoldable pub refusal_code : Text → FailureCode
refusal_code reason =
    let r = lower reason in
    if has_infix (codes "revoked") r
    then revoked_code
    else if has_infix (codes "rate limit") r
    then rate_limited_code
    else if has_infix (codes "budget") r || has_infix (codes "exceed") r
    then budget_exceeded_code
    else engine_error_code

-- `f"engine error, failing closed: {type(e).__name__}: {e}"`
unfoldable pub engine_text : Printing → Error → Text
engine_text p e =
    codes "engine error, failing closed: " ++ p.class_text e ++ codes ": " ++ p.message_text e
