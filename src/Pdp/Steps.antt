-- ===== src/Pdp/Steps.antt =====
-- What a decision of src/actenon_permit/pdp.py is made of: its records, its entry in the ledger and its
-- reservation. A step takes the store and the ledger and returns them as they are afterwards, also where it
-- raises: the store commits on its own.
use actenon_permit.Base.{ℕ, Option, none, some, List, ◌++◌, if◌then◌else◌}
use actenon_permit.Base.Int.{pos}
use actenon_permit.Base.Equality.{Text}
use actenon_permit.Result.{Result, ok, err, ◌>>=◌}
use actenon_permit.Status.{Status, revoked, status_beq}
use actenon_permit.Budget.{Value}
use actenon_permit.Grant.{Grant, Signing}
use actenon_permit.Store.Tables.{Db, map_option}
use actenon_permit.Store.Reserve.{Outcome, reserved, refused, reserve}
use actenon_permit.Effects.{
  Protocol, EffectRequest, EffectOutcome, effect_taken, attempt_used, effect_refused,
  reserve_effect,
}
use actenon_permit.Effects as Effects
use actenon_permit.Ledger.{Hashing, LedgerRow, append}
use actenon_permit.Texts.{codes}
use actenon_permit.Pdp.Rules.{Action, cost_of}
use actenon_permit.Pdp.Reasons.{
  Decision, DecisionOutcome, allow, deny, require_approval, FailureCode, signature_invalid_code,
  out_of_scope_code, revoked_code, not_active_code, expired_code, scope_denied_code,
  rate_limited_code, approval_required_code, allowed_code, Delta, nothing, status_expired,
  budget_reserved, effect_reserved, effect_named, Printing, status_text, int_text, refusal_text,
  refusal_code,
}

pub record World : Type 0 where
  pub db : Db
  pub log : List LedgerRow

-- How a ledger entry writes its texts and values; `costs` has the column and the exact text of a cost, or the
-- exception that normalising it raises.
pub record Writing : Type 0 where
  pub text : Text → ℕ
  pub outcome : DecisionOutcome → ℕ
  pub delta : Delta → ℕ
  pub code : FailureCode → ℕ
  pub boundary : Grant → Action → ℕ
  pub costs : Option Value → Result (Option ℕ × Option ℕ)

-- The `_effect_reservation`, with the fresh id of the reservation.
pub record EffectReservation : Type 0 where
  pub action_id : ℕ
  pub descriptor : ℕ
  pub action_hash : Option ℕ
  pub principal : Text
  pub reservation_id : ℕ

-- What the store and the ledger are built on, and the readings of the clock: by the decision, by the rate count
-- and by the reservation.
pub record Setting : Type 0 where
  pub key : Signing
  pub hashing : Hashing
  pub protocol : Protocol
  pub printing : Printing
  pub writing : Writing
  pub decided_at : ℕ
  pub counted_at : ℕ
  pub reserved_at : ℕ

-- `self.ledger.append(...)`, with the grant that the entry is about
unfoldable pub record_entry :
    Setting → ℕ → Grant → Action → Decision → World → Result (List LedgerRow)
record_entry s grant_id grant action d w =
    let write = s.writing in
    write.costs action.est_cost >>= λ (real_cost, exact_cost).
    append s.hashing
      (record {
        action_id = action.action_id;
        grant_id = grant_id;
        ts = action.ts;
        action_type = write.text action.action_type;
        target = action.target;
        params = action.params;
        outcome = write.outcome d.outcome;
        reason = write.text d.reason;
        rule_matched = map_option write.text d.rule_matched;
        state_delta = write.delta d.state_delta;
        failure_code = map_option write.code d.failure_code;
        authority_boundary = some (write.boundary grant action);
      })
      real_cost exact_cost w.log

-- The entry is appended and the decision returned.
unfoldable pub conclude : Setting → Grant → Action → Decision → World → Result Decision × World
conclude s grant action d w = elim (record_entry s grant.id grant action d w) [
  | err e ↦ (err e, w)
  | ok rows ↦ (ok d, record w { log = rows })
]

abbrev pub denial : Text → Text → FailureCode → Decision
denial reason rule code = record {
  outcome = deny;
  reason = reason;
  rule_matched = some rule;
  state_delta = nothing;
  failure_code = some code;
}

-- `"descriptor"` gives the identity of the effect.
unfoldable pub effect_of : Setting → Option EffectReservation → Option ℕ
effect_of s none = none
effect_of s (some r) = some (s.protocol.effect_identity r.descriptor)

abbrev pub unverified : Decision
unverified =
    denial (codes "grant signature could not be verified") (codes "signature")
      signature_invalid_code

abbrev pub unapproved : Decision
unapproved =
    denial (codes "effect is not explicitly approved by its authority") (codes "effect:approval")
      out_of_scope_code

unfoldable pub inactive : Status → Decision
inactive status =
    denial (codes "grant status is " ++ status_text status) (codes "status")
      (if status_beq status revoked then revoked_code else not_active_code)

abbrev pub too_late : Decision
too_late = record {
  outcome = deny;
  reason = codes "expired";
  rule_matched = some (codes "expiry");
  state_delta = status_expired;
  failure_code = some expired_code;
}

unfoldable pub scope_denied : Text → Decision
scope_denied pattern =
    denial (codes "scope denied: " ++ pattern) (codes "deny:" ++ pattern) scope_denied_code

abbrev pub out_of_scope : Decision
out_of_scope = denial (codes "out of scope") (codes "allow:default-deny") out_of_scope_code

unfoldable pub rate_limited : Grant → Decision
rate_limited grant =
    denial (codes "rate limit")
      (codes "rate:"
        ++ int_text grant.rate.max
        ++ codes "/"
        ++ int_text grant.rate.per_seconds
        ++ codes "s")
      rate_limited_code

unfoldable pub waits : Text → Text → Delta → Decision
waits prefix rule delta = record {
  outcome = require_approval;
  reason = prefix ++ rule;
  rule_matched = some (codes "approval:" ++ rule);
  state_delta = delta;
  failure_code = some approval_required_code;
}

unfoldable pub reserve_denied : Text → Delta → Decision
reserve_denied reason delta = record {
  outcome = deny;
  reason = reason;
  rule_matched = some (codes "reserve");
  state_delta = delta;
  failure_code = some (refusal_code reason);
}

unfoldable pub allowed : Delta → Decision
allowed delta = record {
  outcome = allow;
  reason = codes "allowed";
  rule_matched = none;
  state_delta = delta;
  failure_code = some allowed_code;
}

-- What either reservation returns: its snapshot, or a reason with its snapshot.
pub data Reservation : Type 0 where
  taken : Delta → Reservation
  denied : Text → Delta → Reservation

unfoldable pub of_outcome : Printing → Outcome → Reservation
of_outcome p (reserved snapshot) = taken (budget_reserved snapshot)
of_outcome p (refused reason) = denied (refusal_text p reason) nothing

unfoldable pub of_effect : Printing → ℕ → EffectOutcome → Reservation
of_effect p effect_id (Effects.effect_reserved snapshot ref) = taken (effect_reserved snapshot ref)
of_effect p effect_id effect_taken =
    denied (codes "effect already reserved, committed, or unresolved") (effect_named effect_id)
of_effect p effect_id attempt_used =
    denied (codes "effect attempt was already used") (effect_named effect_id)
of_effect p effect_id (effect_refused reason) = denied (refusal_text p reason) nothing

unfoldable pub map_result {ℓ} : {A B : Type ℓ} → (A → B) → Result A → Result B
map_result f (err e) = err e
map_result f (ok a) = ok (f a)

-- `self.state.reserve_effect(...)` or `self.state.reserve(...)`
unfoldable pub take :
    Setting → Grant → Action → Option EffectReservation → Db → Result Reservation × Db
take s grant action none db =
    let end =
      reserve s.key (cost_of action.est_cost)
        (record {
          grant_id = grant.id;
          action_id = action.action_id;
          amount = pos 0;
          rate_max = grant.rate.max;
          rate_per_seconds = grant.rate.per_seconds;
          effect_id = none;
        })
        s.reserved_at db in
    (map_result (of_outcome s.printing) end.0, end.1)
take s grant action (some r) db =
    let end =
      reserve_effect s.protocol s.key
        (record {
          grant_id = grant.id;
          action_id = r.action_id;
          descriptor = r.descriptor;
          action_hash = r.action_hash;
          principal = r.principal;
          amount = cost_of action.est_cost;
          rate_max = grant.rate.max;
          rate_per_seconds = grant.rate.per_seconds;
          reservation_id = r.reservation_id;
        })
        s.reserved_at db in
    (map_result (of_effect s.printing (s.protocol.effect_identity r.descriptor)) end.0, end.1)
