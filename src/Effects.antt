-- ===== src/Effects.antt =====
-- src/actenon_permit/effects.py: an effect is reserved with its budget, claimed for dispatch and
-- settled, each in one transaction of the store. A reference is a valid `EffectReference`; a text
-- that fails its test of form (an action hash, an observer) is `none`.
pub mod Settle
pub mod States
pub mod Reserving
pub mod Transitions
pub mod Books
pub mod Advance
pub mod Lawful
pub mod History
use actenon_permit.Base.{
  ℕ, suc, ◌≡◌, Bool, true, false, not, ◌&&◌, ◌||◌, Option, none, some, List, [], ◌∷◌, any, map, ltb,
  leb, ◌==◌, is_some, if◌then◌else◌, sum_over,
}
use actenon_permit.Base.Int.{ℤ, pos, pos_part, ltb_ℤ, eqb_ℤ}
use actenon_permit.Base.Equality.{Text, text_beq, nat_eq, subset}
use actenon_permit.Result.{
  Result, ok, err, ◌>>=◌, ◌>>◌, raise_if, bad_action_hash, effect_mismatch, effect_grant_missing,
  principal_mismatch, effect_grant_expired, effect_not_approved, lineage_changed, owner_in_debt,
  claim_lost, integrity_error,
}
use actenon_permit.Budget.{Value, units}
use actenon_permit.Grant.{Grant, Signing, verify, permits_effect}
use actenon_permit.Store.Transaction.{statement, then_run}
use actenon_permit.Store.Tables.{
  Db, GrantRow, EffectState, EffectRow, EffectEvent, EventEvidence, reference, nothing, owners_of,
  overrun_of,
}
use actenon_permit.Store.Lineage.{Mode, budget_lineage}
use actenon_permit.Store.Reserve.{
  Refusal, Snapshot, Outcome, Request, reserved, refused, reserve_in_transaction,
}

-- What `actenon_protocol.effects` computes: the identity of a descriptor, and whether an outcome
-- goes with its report. Only a final or an ambiguous state is an outcome.
abbrev pub is_outcome : EffectState → Bool
is_outcome EffectState.reserved = false
is_outcome EffectState.dispatching = false
is_outcome s = true

pub record Protocol : Type 0 where
  pub effect_identity : ℕ → ℕ
  pub valid_outcome : EffectState → Option Bool → ℕ → Bool
  pub valid_is_outcome :
      (o : EffectState) (occurred : Option Bool) (hash : ℕ)
      → valid_outcome o occurred hash ≡ true
      → is_outcome o ≡ true

-- `EffectReference`, its profile a constant
pub record Reference : Type 0 where
  pub effect_id : ℕ
  pub reservation_id : ℕ
  pub owner_attempt_id : ℕ

unfoldable pub state_beq : EffectState → EffectState → Bool
state_beq EffectState.reserved EffectState.reserved = true
state_beq EffectState.dispatching EffectState.dispatching = true
state_beq EffectState.committed EffectState.committed = true
state_beq EffectState.not_executed EffectState.not_executed = true
state_beq EffectState.ambiguous EffectState.ambiguous = true
state_beq s t = false

-- `SELECT state FROM effect_reservations WHERE effect_id = ? AND state <> 'NOT_EXECUTED'`
unfoldable pub has_live : ℕ → List EffectRow → Bool
unfolding state_beq
has_live e rows =
    any (λ (r : EffectRow). r.effect_id == e && not (state_beq r.state EffectState.not_executed))
      rows

unfoldable pub has_attempt : ℕ → List EffectRow → Bool
has_attempt a rows = any (λ (r : EffectRow). r.action_id == a) rows

unfoldable pub has_reservation : ℕ → List EffectRow → Bool
has_reservation rid rows = any (λ (r : EffectRow). r.reservation_id == rid) rows

-- `INSERT INTO effect_reservations`: the primary key, the unique attempt and the live owner index
unfoldable pub insert_effect : EffectRow → Db → Result Db
unfolding has_live has_attempt has_reservation
insert_effect row db =
    raise_if
      (has_reservation row.reservation_id db.effects
        || has_attempt row.action_id db.effects
        || has_live row.effect_id db.effects)
      integrity_error
    >> ok (record db { effects = row ∷ db.effects })

-- the next value of `sequence INTEGER PRIMARY KEY AUTOINCREMENT`
unfoldable pub next_sequence : List EffectEvent → ℕ
next_sequence [] = 1
next_sequence (e ∷ es) = suc e.sequence

-- `_effect_event`
unfoldable pub effect_event : ℕ → EffectState → EventEvidence → ℕ → Db → Db
unfolding next_sequence
effect_event rid state evidence now db = record db {
  effect_events =
      record {
        sequence = next_sequence db.effect_events;
        reservation_id = rid;
        state = state;
        evidence = evidence;
        occurred_at = now;
      }
      ∷ db.effect_events;
}

unfoldable pub find_effect : ℕ → List EffectRow → Option EffectRow
find_effect rid [] = none
find_effect rid (r ∷ rows) = if r.reservation_id == rid then some r else find_effect rid rows

-- `_effect_row`: the reservation, if every part of its identity is the claimed one.
unfoldable pub effect_row : Db → Reference → ℕ → Text → ℕ → Result EffectRow
effect_row db ref grant_id principal action_hash =
    elim (find_effect ref.reservation_id db.effects) [
      | none ↦ err effect_mismatch
      | some row ↦
          raise_if
            (not (
              row.effect_id == ref.effect_id
              && row.action_id == ref.owner_attempt_id
              && row.grant_id == grant_id
              && text_beq row.principal principal
              && row.action_hash == action_hash))
            effect_mismatch
          >> ok row
    ]

abbrev pub dispatch_mode : Mode
dispatch_mode = record { live = true; dispatch = true }

-- `_effect_grant`
unfoldable pub effect_grant : Signing → Db → ℕ → Text → ℕ → Result Grant
effect_grant key db grant_id principal now = elim (db.grants grant_id) [
  | none ↦ err effect_grant_missing
  | some row ↦ do
    raise_if (not (text_beq row.body.agent_id principal) || not (verify key row.body))
        principal_mismatch
    _ ← budget_lineage key db dispatch_mode now grant_id
    ok row.body
]

-- What `reserve_effect` returns with its flag.
pub data EffectOutcome : Type 0 where
  effect_reserved : Snapshot → Reference → EffectOutcome
  effect_taken attempt_used : EffectOutcome
  effect_refused : Refusal → EffectOutcome

-- The arguments of `reserve_effect`, and the fresh id of the reservation.
pub record EffectRequest : Type 0 where
  pub grant_id : ℕ
  pub action_id : ℕ
  pub descriptor : ℕ
  pub action_hash : Option ℕ
  pub principal : Text
  pub amount : Value
  pub rate_max : ℤ
  pub rate_per_seconds : ℤ
  pub reservation_id : ℕ

-- The end of the transaction, when the budget is charged.
unfoldable pub enter_effect :
    EffectRequest → ℕ → ℕ → ℤ → ℕ → Outcome → Db → Result EffectOutcome × Db
enter_effect r effect_id action_hash amount now (refused reason) db =
    (ok (effect_refused reason), db)
enter_effect r effect_id action_hash amount now (reserved snapshot) db =
    then_run
      (statement db (
        insert_effect
          (record {
            reservation_id = r.reservation_id;
            effect_id = effect_id;
            action_id = r.action_id;
            grant_id = r.grant_id;
            principal = r.principal;
            action_hash = action_hash;
            descriptor = r.descriptor;
            reserved_units = pos_part amount;
            state = EffectState.reserved;
            execution_occurred = none;
            evidence = none;
            updated_at = now;
          })
          db))
      (λ _ entered. (
        ok (
            effect_reserved snapshot (record {
              effect_id = effect_id;
              reservation_id = r.reservation_id;
              owner_attempt_id = r.action_id;
            })),
        effect_event r.reservation_id EffectState.reserved
            (reference effect_id r.reservation_id r.action_id) now entered,
      ))

-- `_effect_grant` and the test of its expiry
unfoldable pub valid_grant : Signing → Db → EffectRequest → ℕ → Result (Unit {0})
valid_grant key db r now = do
  grant ← effect_grant key db r.grant_id r.principal now
  raise_if (leb grant.expires_at now) effect_grant_expired

unfoldable pub reserve_effect_in_transaction :
    Signing → EffectRequest → ℕ → ℕ → ℤ → ℕ → Db → Result EffectOutcome × Db
reserve_effect_in_transaction key r effect_id action_hash amount now db =
    if has_live effect_id db.effects
    then (ok effect_taken, db)
    else if has_attempt r.action_id db.effects
    then (ok attempt_used, db)
    else then_run (valid_grant key db r now, db)
        (λ _ same.
          then_run
            (reserve_in_transaction key
              (record {
                grant_id = r.grant_id;
                action_id = r.action_id;
                amount = amount;
                rate_max = r.rate_max;
                rate_per_seconds = r.rate_per_seconds;
                effect_id = some effect_id;
              })
              now same)
            (enter_effect r effect_id action_hash amount now))

-- COMMIT of a reservation that was entered; ROLLBACK of any other end, to the tables at BEGIN.
unfoldable pub finish_effect : Db → Result EffectOutcome × Db → Result EffectOutcome × Db
finish_effect begun (ok (effect_reserved s ref), db) = (ok (effect_reserved s ref), db)
finish_effect begun (o, db) = (o, begun)

-- `reserve_effect`
unfoldable pub reserve_effect :
    Protocol → Signing → EffectRequest → ℕ → Db → Result EffectOutcome × Db
reserve_effect protocol key r now db = elim r.action_hash [
  | none ↦ (err bad_action_hash, db)
  | some action_hash ↦ elim (units r.amount) [
    | err e ↦ (err e, db)
    | ok amount ↦ finish_effect db (
        reserve_effect_in_transaction key r (protocol.effect_identity r.descriptor) action_hash
          amount now db)
  ]
]

-- `UPDATE effect_reservations SET ... WHERE reservation_id = ?`
unfoldable pub update_effect : ℕ → (EffectRow → EffectRow) → List EffectRow → List EffectRow
update_effect rid f [] = []
update_effect rid f (r ∷ rows) =
    (if r.reservation_id == rid then f r else r) ∷ update_effect rid f rows

-- the row count of the claiming UPDATE
unfoldable pub count_reserved : ℕ → List EffectRow → ℕ
unfolding state_beq
count_reserved rid rows =
    sum_over
      (λ (r : EffectRow).
        if r.reservation_id == rid && state_beq r.state EffectState.reserved then 1 else 0)
      rows

-- `... SET state = 'DISPATCHING', updated_at = ? WHERE ... AND state = 'RESERVED'`
unfoldable pub dispatched : ℕ → EffectRow → EffectRow
unfolding state_beq
dispatched now r =
    if state_beq r.state EffectState.reserved
    then record r { state = EffectState.dispatching; updated_at = now }
    else r

-- `claim_effect`, inside its transaction: the flag tells whether the caller may dispatch.
unfoldable pub claim_in_transaction :
    Signing → Reference → ℕ → Text → ℕ → ℕ → Db → Result (Bool × Db)
claim_in_transaction key ref grant_id principal action_hash now db = do
  row ← effect_row db ref grant_id principal action_hash
  grant ← effect_grant key db grant_id principal now
  raise_if (leb grant.expires_at now) effect_grant_expired
  lineage ← budget_lineage key db dispatch_mode now grant_id
  raise_if (any (λ (o : Grant). not (permits_effect o (some row.effect_id))) lineage)
      effect_not_approved
  let charged = owners_of row.action_id db.owners
  let ids = map (λ (o : Grant). o.id) lineage
  raise_if (not (subset charged ids && subset ids charged)) lineage_changed
  raise_if (any (λ g. ltb 0 (overrun_of db g)) charged) owner_in_debt
  if not (state_beq row.state EffectState.reserved)
      then ok (false, db)
      else raise_if (not (count_reserved row.reservation_id db.effects == 1)) claim_lost
        >> ok (
          true,
          effect_event row.reservation_id EffectState.dispatching nothing now (record db {
            effects = update_effect row.reservation_id (dispatched now) db.effects;
          }),
        )

unfoldable pub finish_claim : Db → Result (Bool × Db) → Result Bool × Db
finish_claim db (ok (b, db')) = (ok b, db')
finish_claim db (err e) = (err e, db)

-- `claim_effect`
unfoldable pub claim_effect : Signing → Reference → ℕ → Text → ℕ → ℕ → Db → Result Bool × Db
claim_effect key ref grant_id principal action_hash now db =
    finish_claim db (claim_in_transaction key ref grant_id principal action_hash now db)
