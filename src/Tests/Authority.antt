-- ===== src/Tests/Authority.antt =====
-- Lineage and attenuation, on the example store.
use actenon_permit.Store.Admission.{IsAdmitted, put_grant, put_grant-IsAdmitted}
use actenon_permit.Base.Int.{◌+ℤ◌, pos}
use actenon_permit.Base.Equality.{text_beq, subset, contains}
use actenon_permit.Store.Tables.{find_event, update_grant, owner_rate_count, overrun_of, is_owner}
use actenon_permit.Budget.{
  joined, scale_down, digits_of, units_of_number, decimal_of_int, digits_onto, units_of_decimal,
  check_float, scale_up, units,
}
use actenon_permit.Base.{◌≡◌, refl, arith, false, true, some, [], ◌∷◌, leb, ◌*◌, none}
use actenon_permit.Result.{ok}
use actenon_permit.Grant.{
  Grant, attenuate, verify, active, check_effect_ids, has_repeat, extend_rules, sorted_set,
  insert_sorted, text_ltb, sign, authority_payload, effects_widen, status_beq, permits_effect,
}
use actenon_permit.Store.Lineage.{
  budget_lineage, widens, walk, check_live, load, visit, some_link_widens, check_root,
}
use actenon_permit.Store.Reserve.{
  live_mode, reserve, charge, reserve_in_transaction, first_refusal, finish, charge_owners,
  snapshot_of, check_units, is_state_error, check_owner, insert_owner, settled_status, insert_event,
  write_owner_balance,
}
use actenon_permit.Store.Authority.{IsLineage, budget_lineage-IsLineage}
use actenon_permit.Store.Delegation.{attenuate-narrows, attenuate-descends}
use actenon_permit.Tests.Data.{
  key, root, child, store, store-IsWellFormed, narrowing, pay, usd, unit,
}

lineage_runs : budget_lineage key store live_mode 10 2 ≡ ok (child ∷ root ∷ [])
unfolding reserve units finish reserve_in_transaction budget_lineage check_live load verify
    some_link_widens text_beq subset effects_widen check_root first_refusal check_owner
    permits_effect overrun_of contains ◌+ℤ◌ check_float decimal_of_int digits_of digits_onto joined
    scale_down scale_up units_of_decimal units_of_number authority_payload status_beq visit walk
    widens charge charge_owners check_units insert_event insert_owner is_state_error settled_status
    snapshot_of write_owner_balance find_event is_owner owner_rate_count update_grant
lineage_runs = refl

budget_lineage-IsLineage_example : IsLineage key store live_mode 10 (child ∷ root ∷ [])
budget_lineage-IsLineage_example =
    budget_lineage-IsLineage key store live_mode 10 2 (child ∷ root ∷ []) store-IsWellFormed.keyed
      lineage_runs

abbrev narrowed : Grant
narrowed = record {
  id = 3;
  agent_id = b'a' ∷ b'+' ∷ b'c' ∷ b'h' ∷ b'i' ∷ b'l' ∷ b'd' ∷ [];
  issued_at = 5;
  expires_at = 800;
  scopes = record { allow = pay ∷ []; deny = usd ∷ [] };
  budget = record { currency = usd; limit = 20 * unit; remaining = 20 * unit };
  rate = record { max = pos 3; per_seconds = pos 60 };
  approval_rules = [];
  status = active;
  signature = 4;
  parent_grant_id = some 2;
  delegation_depth = pos 2;
  approved_effect_ids = none;
}

attenuate_runs : attenuate key child narrowing 3 5 ≡ ok narrowed
unfolding attenuate check_effect_ids has_repeat extend_rules sorted_set insert_sorted text_ltb sign
    authority_payload subset contains text_beq effects_widen ◌+ℤ◌
attenuate_runs = refl

attenuate-narrows_example : widens narrowed child ≡ false
attenuate-narrows_example =
    attenuate-narrows key child narrowing 3 5 narrowed (omega arith) attenuate_runs

attenuate-descends_example :
    (verify key narrowed ≡ true)
    × ((narrowed.parent_grant_id ≡ some 2)
        × (narrowed.status ≡ active)
        × (leb narrowed.budget.remaining child.budget.remaining ≡ true))
attenuate-descends_example = attenuate-descends key child narrowing 3 5 narrowed attenuate_runs

put_grant-IsAdmitted_example : IsAdmitted key child store (put_grant key child store).1
put_grant-IsAdmitted_example = put_grant-IsAdmitted key child store
