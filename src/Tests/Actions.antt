-- ===== src/Tests/Actions.antt =====
-- Reservations and commits, on the example store.
use actenon_permit.Base.Equality.{text_beq, subset, contains}
use actenon_permit.Store.Lineage.{
  check_live, walk, budget_lineage, load, visit, some_link_widens, check_root, widens,
}
use actenon_permit.Base.{ℕ, ◌≡◌, ◌≤◌, refl, ap, [], ◌∷◌, ◌==◌, if◌then◌else◌, ◌*◌}
use actenon_permit.Base.Int.{ℤ, pos, pos_part, ◌-ℤ◌, ◌+ℤ◌}
use actenon_permit.Result.{Result, ok, err, committed_otherwise, committed_release}
use actenon_permit.Budget.{
  units, joined, scale_down, digits_of, units_of_number, decimal_of_int, digits_onto,
  units_of_decimal, check_float, scale_up,
}
use actenon_permit.Store.Tables.{
  Db, overrun_of, owners_of, find_event, put_overrun, update_grant, owner_rate_count, commit_event,
  is_owner,
}
use actenon_permit.Store.Reserve.{
  reserve, reserved, refused, exceeds_budget, Snapshot, Outcome, finish, reserve_in_transaction,
  charge, first_refusal, charge_owners, snapshot_of, is_state_error, check_owner, insert_owner,
  settled_status, insert_event, check_units, write_owner_balance,
}
use actenon_permit.Store.Settle.{
  commit, release, settle_rows, reservation, settle_budget_owners, commit_in_transaction,
  owner_rows, some_balance, settled_balance, atomically, has_effect,
}
use actenon_permit.Store.Accounting.{held, balance_of, IsWellFormed}
use actenon_permit.Store.Books.{Keeps, reserve_step, reserve-Keeps}
use actenon_permit.Store.Charging.{IsGranted, reserve-IsGranted, reserve-keeps_otherwise}
use actenon_permit.Store.Replay.{commit-replay}
use actenon_permit.Runs.{Run, here, next, store_move, Run-Keeps, held-le-balance}
use actenon_permit.Grant.{
  active, authority_payload, effects_widen, verify, status_beq, permits_effect,
}
use actenon_permit.Tests.Data.{
  key, five, sixty, request, store, store-IsWellFormed, unit, child, protocol,
}

abbrev after_reserve : Db
after_reserve = (reserve key five request 10 store).1

abbrev shown : Snapshot
shown = record { remaining = 45 * unit; status = active; budget_owners = 2 ∷ 1 ∷ [] }

reserve_runs : (reserve key five request 10 store).0 ≡ ok (reserved shown)
unfolding reserve units finish reserve_in_transaction budget_lineage check_live load verify
    some_link_widens text_beq subset effects_widen check_root first_refusal check_owner
    permits_effect overrun_of contains ◌+ℤ◌ check_float decimal_of_int digits_of digits_onto joined
    scale_down scale_up units_of_decimal units_of_number authority_payload status_beq visit walk
    widens charge charge_owners check_units insert_event insert_owner is_state_error settled_status
    snapshot_of write_owner_balance find_event is_owner owner_rate_count update_grant
reserve_runs = refl

reserve-IsGranted_example : IsGranted key five request 10 store shown after_reserve
reserve-IsGranted_example =
    reserve-IsGranted key five request 10 store shown after_reserve store-IsWellFormed
      (ap (λ (o : Result Outcome). (o, after_reserve)) reserve_runs)

reserve_refuses : (reserve key sixty request 10 store).0 ≡ ok (refused (exceeds_budget child))
unfolding reserve units finish reserve_in_transaction budget_lineage check_live load verify
    some_link_widens text_beq subset effects_widen check_root first_refusal check_owner
    permits_effect overrun_of contains ◌+ℤ◌ check_float decimal_of_int digits_of digits_onto joined
    scale_down scale_up units_of_decimal units_of_number authority_payload status_beq visit walk
    widens charge charge_owners check_units insert_event insert_owner is_state_error settled_status
    snapshot_of write_owner_balance find_event is_owner owner_rate_count update_grant
reserve_refuses = refl

reserve-keeps_otherwise_example : (reserve key sixty request 10 store).1 ≡ store
reserve-keeps_otherwise_example =
    reserve-keeps_otherwise key sixty request 10 store (ok (refused (exceeds_budget child)))
      (reserve key sixty request 10 store).1
      (ap (λ (o : Result Outcome). (o, (reserve key sixty request 10 store).1)) reserve_refuses)
      (λ s e. cc)

abbrev run : Run protocol key store after_reserve
run = next here (store_move (reserve_step five request 10))

nothing_held : held store 2 ≡ 0
unfolding held
nothing_held = refl

no_debt : overrun_of after_reserve 2 ≡ 0
unfolding reserve units finish reserve_in_transaction budget_lineage check_live load verify
    some_link_widens text_beq subset effects_widen check_root first_refusal check_owner
    permits_effect overrun_of contains ◌+ℤ◌ check_float decimal_of_int digits_of digits_onto joined
    scale_down scale_up units_of_decimal units_of_number authority_payload status_beq visit walk
    widens charge charge_owners check_units insert_event insert_owner is_state_error settled_status
    snapshot_of write_owner_balance find_event is_owner owner_rate_count update_grant
no_debt = refl

held-le-balance_example : held after_reserve 2 ≤ balance_of store 2
held-le-balance_example =
    held-le-balance {protocol = protocol} {key = key} {db = store} {db' = after_reserve} 2 run
      store-IsWellFormed nothing_held no_debt

Run-Keeps_example : Keeps store after_reserve
Run-Keeps_example = Run-Keeps run store-IsWellFormed

after_reserve-IsWellFormed : IsWellFormed after_reserve
after_reserve-IsWellFormed =
    (reserve-Keeps key five request 10 store store-IsWellFormed).well_formed

abbrev after_commit : Db
after_commit = (commit 2 7 five five after_reserve).1

commit_runs : (commit 2 7 five five after_reserve).0 ≡ ok (45 * unit)
unfolding reserve units finish reserve_in_transaction budget_lineage check_live load verify
    some_link_widens text_beq subset effects_widen check_root first_refusal check_owner
    permits_effect overrun_of contains ◌+ℤ◌ check_float decimal_of_int digits_of digits_onto joined
    scale_down scale_up units_of_decimal units_of_number authority_payload status_beq visit walk
    widens charge charge_owners check_units insert_event insert_owner is_state_error settled_status
    snapshot_of write_owner_balance find_event is_owner owner_rate_count update_grant commit
    atomically has_effect commit_in_transaction reservation owner_rows settle_budget_owners
    settle_rows some_balance settled_balance put_overrun owners_of commit_event ◌-ℤ◌
commit_runs = refl

units-sixty : units sixty ≡ ok (pos (60 * unit))
unfolding reserve units finish reserve_in_transaction budget_lineage check_live load verify
    some_link_widens text_beq subset effects_widen check_root first_refusal check_owner
    permits_effect overrun_of contains ◌+ℤ◌ check_float decimal_of_int digits_of digits_onto joined
    scale_down scale_up units_of_decimal units_of_number authority_payload status_beq visit walk
    widens charge charge_owners check_units insert_event insert_owner is_state_error settled_status
    snapshot_of write_owner_balance find_event is_owner owner_rate_count update_grant
units-sixty = refl

commit-replay_example :
    (m : ℕ) × (cost : ℤ) × (units five ≡ ok cost)
    × (commit 2 7 sixty five after_commit ≡ (
      if pos_part (pos (60 * unit)) == pos_part cost then ok m else err committed_otherwise,
      after_commit,
    ))
    × (release 2 7 five after_commit ≡ (err committed_release, after_commit))
commit-replay_example =
    commit-replay 2 7 five five sixty (pos (60 * unit)) after_reserve (45 * unit) after_commit
      after_reserve-IsWellFormed (ap (λ (o : Result ℕ). (o, after_commit)) commit_runs) units-sixty
