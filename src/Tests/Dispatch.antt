-- ===== src/Tests/Dispatch.antt =====
-- An effect on the example store: reserved, claimed, and settled as ambiguous.
use actenon_permit.Base.Int.{◌+ℤ◌}
use actenon_permit.Base.Equality.{text_beq, subset, contains}
use actenon_permit.Store.Lineage.{
  walk, budget_lineage, visit, check_root, check_live, load, some_link_widens, widens,
}
use actenon_permit.Grant.{authority_payload, effects_widen, permits_effect, verify, status_beq}
use actenon_permit.Budget.{
  joined, scale_down, decimal_of_int, digits_onto, scale_up, units, digits_of, units_of_number,
  units_of_decimal, check_float,
}
use actenon_permit.Store.Reserve.{
  charge, reserve_in_transaction, first_refusal, reserve, charge_owners, snapshot_of,
  is_state_error, check_owner, insert_owner, settled_status, insert_event, write_owner_balance,
  finish, check_units,
}
use actenon_permit.Base.{◌≡◌, ◌≢◌, ◌⊎◌, refl, ap, none, some, true, Bool, ◌*◌}
use actenon_permit.Result.{Result, ok}
use actenon_permit.Store.Tables.{
  Db, EffectRow, EffectState, find_event, update_grant, overrun_of, owners_of, owner_rate_count,
  is_owner,
}
use actenon_permit.Store.Accounting.{IsWellFormed}
use actenon_permit.Effects.{
  valid_grant, reserve_effect, claim_effect, find_effect, state_beq, finish_effect,
  claim_in_transaction, count_reserved, effect_row, dispatched, has_live, effect_event,
  update_effect, effect_grant, has_reservation, finish_claim, next_sequence, enter_effect,
  insert_effect, has_attempt, reserve_effect_in_transaction,
}
use actenon_permit.Effects.Settle.{settle_effect}
use actenon_permit.Effects.Books.{reserve_effect-Keeps}
use actenon_permit.Effects.States.{is_live}
use actenon_permit.Effects.Advance.{Advances}
use actenon_permit.Effects.Lawful.{IsLawful, settle_effect-IsLawful}
use actenon_permit.Runs.{
  Run, here, next, reserve_move, claim_move, Run-Advances, Run-one_owner, claim-once,
}
use actenon_permit.Tests.Data.{
  key, store, store-IsWellFormed, protocol, effect_request, effect_ref, agent, unclear, unit,
}

abbrev entered : Db
entered = (reserve_effect protocol key effect_request 10 store).1

abbrev claimed : Db
claimed = (claim_effect key effect_ref 2 agent 12 20 entered).1

abbrev settled : Db
settled = (settle_effect protocol unclear 30 claimed).1

abbrev run : Run protocol key store claimed
run = next (next here (reserve_move effect_request 10)) (claim_move effect_ref 2 agent 12 20)

Run-Advances_example : Advances store.effects claimed.effects
Run-Advances_example = Run-Advances run store-IsWellFormed

entered-IsWellFormed : IsWellFormed entered
entered-IsWellFormed =
    (reserve_effect-Keeps protocol key effect_request 10 store store-IsWellFormed).well_formed

claim_runs : (claim_effect key effect_ref 2 agent 12 20 entered).0 ≡ ok true
unfolding reserve units finish reserve_in_transaction budget_lineage check_live load verify
    some_link_widens text_beq subset effects_widen check_root first_refusal check_owner
    permits_effect overrun_of contains ◌+ℤ◌ check_float decimal_of_int digits_of digits_onto joined
    scale_down scale_up units_of_decimal units_of_number authority_payload status_beq visit walk
    widens charge charge_owners check_units insert_event insert_owner is_state_error settled_status
    snapshot_of write_owner_balance find_event is_owner owner_rate_count update_grant reserve_effect
    reserve_effect_in_transaction finish_effect enter_effect valid_grant insert_effect effect_event
    next_sequence effect_grant has_live has_attempt has_reservation state_beq claim_effect
    claim_in_transaction finish_claim effect_row find_effect update_effect dispatched count_reserved
    owners_of
claim_runs = refl

abbrev none_left : Run protocol key claimed claimed
none_left = here

claim-once_example : (claim_effect key effect_ref 2 agent 12 21 claimed).0 ≢ ok true
claim-once_example =
    claim-once effect_ref effect_ref 2 2 agent agent 12 12 20 21 entered entered-IsWellFormed
      (ap (λ (o : Result Bool). (o, claimed)) claim_runs) none_left refl

abbrev paid_row : EffectRow
paid_row = record {
  reservation_id = 30;
  effect_id = 40;
  action_id = 8;
  grant_id = 2;
  principal = agent;
  action_hash = 12;
  descriptor = 40;
  reserved_units = 5 * unit;
  state = EffectState.dispatching;
  execution_occurred = none;
  evidence = none;
  updated_at = 20;
}

finds : find_effect 30 claimed.effects ≡ some paid_row
unfolding reserve units finish reserve_in_transaction budget_lineage check_live load verify
    some_link_widens text_beq subset effects_widen check_root first_refusal check_owner
    permits_effect overrun_of contains ◌+ℤ◌ check_float decimal_of_int digits_of digits_onto joined
    scale_down scale_up units_of_decimal units_of_number authority_payload status_beq visit walk
    widens charge charge_owners check_units insert_event insert_owner is_state_error settled_status
    snapshot_of write_owner_balance find_event is_owner owner_rate_count update_grant reserve_effect
    reserve_effect_in_transaction finish_effect enter_effect valid_grant insert_effect effect_event
    next_sequence effect_grant has_live has_attempt has_reservation state_beq claim_effect
    claim_in_transaction finish_claim effect_row find_effect update_effect dispatched count_reserved
    owners_of
finds = refl

lives : is_live paid_row ≡ true
unfolding state_beq
lives = refl

Run-one_owner_example : paid_row.reservation_id ≡ 30
Run-one_owner_example =
    Run-one_owner 30 30 paid_row paid_row run store-IsWellFormed tt finds finds lives lives refl

settle_effect-IsLawful_example :
    (settled ≡ claimed)
    ⊎ ((row : EffectRow) × (find_effect 30 claimed.effects ≡ some row)
        × IsLawful unclear row claimed settled)
settle_effect-IsLawful_example =
    settle_effect-IsLawful protocol unclear 30 claimed (settle_effect protocol unclear 30 claimed).0
      settled refl
