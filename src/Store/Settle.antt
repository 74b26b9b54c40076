-- ===== src/Store/Settle.antt =====
-- `commit` and `release` of state.py: a reservation is settled at its actual cost, or undone.
use actenon_permit.Base.{
  ℕ, Bool, true, false, not, Option, none, some, List, [], ◌∷◌, any, ◌==◌, if◌then◌else◌,
}
use actenon_permit.Base.Int.{ℤ, pos, pos_part, neg_part, sub_ℕ, eqb_ℤ, ◌+ℤ◌, ◌-ℤ◌}
use actenon_permit.Result.{
  Result, ok, err, ◌>>=◌, ◌>>◌, raise_if, grant_not_found, reservation_missing, reservation_foreign,
  amount_mismatch, committed_otherwise, committed_release, effect_backed, ownership_missing,
  ownership_mismatch,
}
use actenon_permit.Budget.{Value, units}
use actenon_permit.Grant.{is_empty, Status}
use actenon_permit.Store.Tables.{
  Db, GrantRow, RateEvent, EffectRow, put_overrun, overrun_of, find_event, commit_event,
  delete_event, owners_of, delete_owners, update_grant,
}
use actenon_permit.Store.Reserve.{write_owner_balance, check_units}

-- `_reservation`: the event of the action, if it is this grant's and of the claimed amount. The
-- stored amount is not negative, as `reserve` refuses those.
unfoldable pub reservation : Db → ℕ → ℕ → ℤ → Result RateEvent
unfolding find_event
reservation db g a claimed = elim (find_event a db.rate_events) [
  | none ↦ err reservation_missing
  | some e ↦ do
    raise_if (not (e.grant_id == g)) reservation_foreign
    raise_if (not (eqb_ℤ (pos e.reserved_units) claimed)) amount_mismatch
    ok e
]

-- `_settled_balance`: what the adjustment leaves, debts first; a shortfall is the new debt.
unfoldable pub settled_balance : ℕ → ℕ → ℤ → Db → Result (ℕ × Db)
unfolding check_units
settled_balance g remaining adjustment db =
    let balance = pos remaining -ℤ pos (overrun_of db g) +ℤ adjustment in
    check_units (neg_part balance) >> ok (pos_part balance, put_overrun g (neg_part balance) db)

-- The rows that `_settle_budget_owners` fetches: a charged owner that is gone is an error.
unfoldable pub owner_rows : Db → List ℕ → Result (List GrantRow)
owner_rows db [] = ok []
owner_rows db (g ∷ gs) = elim (db.grants g) [
  | none ↦ err ownership_missing
  | some row ↦ owner_rows db gs >>= λ rows. ok (row ∷ rows)
]

-- The loop over those rows; the result is the balance of the grant of the call.
unfoldable pub settle_rows : ℕ → ℤ → List GrantRow → Option ℕ → Db → Result (Option ℕ × Db)
settle_rows grant_id adjustment [] found db = ok (found, db)
settle_rows grant_id adjustment (row ∷ rows) found db =
    let owner = row.body in
    settled_balance owner.id row.remaining_units adjustment db >>= λ (value, noted).
    write_owner_balance owner value true noted >>= λ written.
    settle_rows grant_id adjustment rows (if owner.id == grant_id then some value else found)
      written

unfoldable pub some_balance : Option ℕ → Result ℕ
some_balance none = err ownership_mismatch
some_balance (some n) = ok n

-- `_settle_budget_owners`
unfoldable pub settle_budget_owners : ℕ → ℕ → ℤ → Db → Result (ℕ × Db)
settle_budget_owners grant_id action_id adjustment db = do
  rows ← owner_rows db (owners_of action_id db.owners)
  raise_if (is_empty rows) ownership_missing
  settled ← settle_rows grant_id adjustment rows none db
  remaining ← some_balance settled.0
  ok (remaining, settled.1)

-- `_require_legacy_reservation`
unfoldable pub has_effect : ℕ → List EffectRow → Bool
has_effect a effects = any (λ (r : EffectRow). r.action_id == a) effects

-- `settled_cost is None or _budget_amount(settled_cost) != dec_actual`
unfoldable pub same_cost : Option ℕ → ℕ → Bool
same_cost none actual = false
same_cost (some cost) actual = cost == actual

-- `_commit_in_transaction`, with `actual` and `claimed` in units
unfoldable pub commit_in_transaction : ℕ → ℕ → ℕ → ℤ → Db → Result (ℕ × Db)
commit_in_transaction grant_id action_id actual claimed db = elim (db.grants grant_id) [
  | none ↦ err grant_not_found
  | some row ↦ do
    e ← reservation db grant_id action_id claimed
    if e.committed
        then raise_if (not (same_cost e.actual_units actual)) committed_otherwise
          >> ok (row.remaining_units, db)
        else settle_budget_owners grant_id action_id (sub_ℕ e.reserved_units actual) db
          >>= λ (remaining, settled). ok (
            remaining,
            record settled {
              rate_events = commit_event action_id grant_id actual settled.rate_events;
            },
          )
]

-- `_release_in_transaction`
unfoldable pub release_in_transaction : ℕ → ℕ → ℤ → Db → Result (ℕ × Db)
release_in_transaction grant_id action_id claimed db = elim (db.grants grant_id) [
  | none ↦ err grant_not_found
  | some row ↦ do
    e ← reservation db grant_id action_id claimed
    raise_if e.committed committed_release
    settle_budget_owners grant_id action_id (pos e.reserved_units) db >>= λ (remaining, settled).
        ok (
          remaining,
          record settled {
            owners = delete_owners action_id settled.owners;
            rate_events = delete_event action_id grant_id settled.rate_events;
          },
        )
]

-- COMMIT, or ROLLBACK after an exception
unfoldable pub atomically : Db → Result (ℕ × Db) → Result ℕ × Db
atomically db (ok (n, db')) = (ok n, db')
atomically db (err e) = (err e, db)

-- `commit`: a negative actual cost counts as zero.
unfoldable pub commit : ℕ → ℕ → Value → Value → Db → Result ℕ × Db
commit grant_id action_id actual_cost reserved_amount db = atomically db (
    units actual_cost >>= λ actual. units reserved_amount >>= λ claimed.
    raise_if (has_effect action_id db.effects) effect_backed
    >> commit_in_transaction grant_id action_id (pos_part actual) claimed db)

unfoldable pub release : ℕ → ℕ → Value → Db → Result ℕ × Db
release grant_id action_id reserved_amount db = atomically db (
    units reserved_amount >>= λ claimed.
    raise_if (has_effect action_id db.effects) effect_backed
    >> release_in_transaction grant_id action_id claimed db)

-- `set_status`: the column and the body, of a grant that is there.
unfoldable pub set_status : ℕ → Status → Db → Db
unfolding update_grant
set_status grant_id status db =
    update_grant grant_id
      (λ row. record {
        body = record (row.body) { status = status };
        status = status;
        remaining_units = row.remaining_units;
      })
      db
