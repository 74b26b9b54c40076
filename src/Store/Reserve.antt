-- ===== src/Store/Reserve.antt =====
-- `reserve` of state.py: an amount is charged to a grant and to all its ancestors, or to none.
use actenon_permit.Base.{
  ℕ, ◌-◌, Bool, true, false, not, ◌&&◌, ◌||◌, Option, none, some, List, [], ◌∷◌, map, ltb, leb,
  ◌==◌, is_some, if◌then◌else◌,
}
use actenon_permit.Base.Int.{ℤ, pos, pos_part, ltb_ℤ}
use actenon_permit.Result.{
  Error, Result, ok, err, ◌>>◌, raise_if, integrity_error, index_error, too_many_digits,
  out_of_range,
}
use actenon_permit.Budget.{Value, units, max_units}
use actenon_permit.Grant.{Grant, Status, active, exhausted, Signing, verify, permits_effect}
use actenon_permit.Store.Transaction.{statement, then_run}
use actenon_permit.Store.Tables.{
  Db, RateEvent, update_grant, overrun_of, find_event, is_owner, owner_rate_count,
}
use actenon_permit.Store.Lineage.{Mode, budget_lineage}

-- The reasons that `_reserve_in_transaction` returns with False.
pub data Refusal : Type 0 where
  negative_amount : Refusal
  no_lineage : Error → Refusal
  effect_unapproved finite_signature unsettled_overrun : Refusal
  exceeds_budget : Grant → Refusal
  rate_limit : Refusal

-- What a reservation reports: `remaining` and `status` of the leaf, and the charged owners.
pub record Snapshot : Type 0 where
  pub remaining : ℕ
  pub status : Status
  pub budget_owners : List ℕ

pub data Outcome : Type 0 where
  reserved : Snapshot → Outcome
  refused : Refusal → Outcome

-- `_settled_status`, on the status alone
unfoldable pub settled_status : Status → ℕ → Status
settled_status exhausted remaining = if ltb 0 remaining then active else exhausted
settled_status active remaining = if leb remaining 0 then exhausted else active
settled_status s remaining = s

-- `units(remaining)` of an exact non-negative amount
unfoldable pub check_units : ℕ → Result (Unit {0})
check_units n = raise_if (ltb max_units n) out_of_range

-- `_write_owner_balance`: the exact column, the status if `settle`, and the body.
unfoldable pub write_owner_balance : Grant → ℕ → Bool → Db → Result Db
unfolding update_grant settled_status check_units
write_owner_balance g remaining settle db =
    let status = if settle then settled_status g.status remaining else g.status in
    let budget = g.budget in
    check_units remaining
    >> ok (
        update_grant g.id
          (λ row. record {
            body = record g { status = status; budget = record budget { remaining = remaining } };
            status = if settle then status else row.status;
            remaining_units = remaining;
          })
          db)

-- One round of the first loop: the reason to refuse this owner, if there is one. `leaf` is the
-- grant of the call, whose rate the caller may have made stricter.
unfoldable pub check_owner : Signing → Db → ℕ → ℕ → ℤ → ℤ → Option ℕ → ℕ → Grant → Option Refusal
check_owner key db leaf amount rate_max rate_per_seconds effect_id now owner =
    if not (permits_effect owner effect_id)
    then some effect_unapproved
    else if is_some owner.approved_effect_ids && not (verify key owner)
    then some finite_signature
    else if ltb 0 (overrun_of db owner.id)
    then some unsettled_overrun
    else if ltb owner.budget.remaining amount
    then some (exceeds_budget owner)
    else if (ltb_ℤ (pos 0) owner.rate.max
          && not (
              ltb_ℤ (pos (owner_rate_count db owner.id now owner.rate.per_seconds)) owner.rate.max))
        || (owner.id == leaf
            && ltb_ℤ (pos 0) rate_max
            && not (ltb_ℤ (pos (owner_rate_count db owner.id now rate_per_seconds)) rate_max))
    then some rate_limit
    else none

-- The first loop, with the test of one owner as a function.
unfoldable pub first_refusal : (Grant → Option Refusal) → List Grant → Option Refusal
first_refusal check [] = none
first_refusal check (owner ∷ owners) = elim (check owner) [
  | some r ↦ some r
  | none ↦ first_refusal check owners
]

-- `INSERT INTO rate_events`, whose primary key is the action
unfoldable pub insert_event : RateEvent → Db → Result Db
unfolding find_event
insert_event e db =
    raise_if (is_some (find_event e.action_id db.rate_events)) integrity_error
    >> ok (record db { rate_events = e ∷ db.rate_events })

-- `INSERT INTO reservation_budget_owners`, whose primary key is the pair
unfoldable pub insert_owner : ℕ → ℕ → Db → Result Db
unfolding is_owner
insert_owner a g db =
    raise_if (is_owner a g db.owners) integrity_error
    >> ok (record db { owners = record { action_id = a; grant_id = g } ∷ db.owners })

-- The second loop: the first one has refused an amount beyond the balance of an owner.
unfoldable pub charge_owners : ℕ → ℕ → List Grant → Db → Result (Unit {0}) × Db
charge_owners a amount [] db = (ok tt, db)
charge_owners a amount (owner ∷ owners) db =
    then_run
      (statement db (write_owner_balance owner (owner.budget.remaining - amount) (ltb 0 amount) db))
      (λ _ written.
        then_run (statement written (insert_owner a owner.id written))
          (λ _ charged. charge_owners a amount owners charged))

-- The leaf after the second loop, which has written to the owner's object.
unfoldable pub snapshot_of : ℕ → List Grant → Result Snapshot
unfolding settled_status
snapshot_of amount [] = err index_error
snapshot_of amount (leaf ∷ above) =
    let remaining = leaf.budget.remaining - amount in
    ok (record {
      remaining = remaining;
      status = if ltb 0 amount then settled_status leaf.status remaining else leaf.status;
      budget_owners = map (λ (g : Grant). g.id) (leaf ∷ above);
    })

-- Whether `except StateError` catches it.
unfoldable pub is_state_error : Error → Bool
is_state_error index_error = false
is_state_error too_many_digits = false
is_state_error e = true

abbrev pub live_mode : Mode
live_mode = record { live = true; dispatch = false }

-- The tail of `_reserve_in_transaction`, once no owner refuses.
unfoldable pub charge : ℕ → ℕ → ℕ → ℕ → List Grant → Db → Result Outcome × Db
charge grant_id action_id amount now owners db =
    then_run
      (statement db (
        insert_event
          (record {
            action_id = action_id;
            grant_id = grant_id;
            ts = now;
            reserved_units = amount;
            committed = false;
            actual_units = none;
          })
          db))
      (λ _ inserted. then_run (charge_owners action_id amount owners inserted) (λ _ charged.
        then_run (snapshot_of amount owners, charged)
          (λ snapshot end. (ok (reserved snapshot), end))))

-- The arguments of a reservation; `amount` is `dec_amount`, in units.
pub record Request : Type 0 where
  pub grant_id : ℕ
  pub action_id : ℕ
  pub amount : ℤ
  pub rate_max : ℤ
  pub rate_per_seconds : ℤ
  pub effect_id : Option ℕ

unfoldable pub reserve_in_transaction : Signing → Request → ℕ → Db → Result Outcome × Db
reserve_in_transaction key r now db =
    if ltb_ℤ r.amount (pos 0)
    then (ok (refused negative_amount), db)
    else elim (budget_lineage key db live_mode now r.grant_id) [
      | err e ↦ if is_state_error e then (ok (refused (no_lineage e)), db) else (err e, db)
      | ok owners ↦
          elim (first_refusal
            (check_owner key db r.grant_id (pos_part r.amount) r.rate_max r.rate_per_seconds
              r.effect_id now)
            owners) [
              | some reason ↦ (ok (refused reason), db)
              | none ↦ charge r.grant_id r.action_id (pos_part r.amount) now owners db
            ]
    ]

-- COMMIT of a reservation that is reported; ROLLBACK to the tables at BEGIN of a refusal, and of an
-- exception, which may come after some owners are charged.
unfoldable pub finish : Db → Result Outcome × Db → Result Outcome × Db
finish begun (ok (reserved s), db) = (ok (reserved s), db)
finish begun (ok (refused r), db) = (ok (refused r), begun)
finish begun (err e, db) = (err e, begun)

-- `reserve`: the amount is made exact first; then one write transaction, with no effect in it.
unfoldable pub reserve : Signing → Value → Request → ℕ → Db → Result Outcome × Db
reserve key value r now db = elim (units value) [
  | err e ↦ (err e, db)
  | ok z ↦ finish db (reserve_in_transaction key (record r { amount = z; effect_id = none }) now db)
]
