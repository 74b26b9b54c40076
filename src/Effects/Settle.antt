-- ===== src/Effects/Settle.antt =====
-- `settle_effect` of src/actenon_permit/effects.py: the outcome of an effect is recorded, and its
-- budget settled with it.
use actenon_permit.Base.{
  ℕ, Bool, true, false, not, ◌&&◌, ◌||◌, Option, none, some, List, [], ◌∷◌, leb, ◌==◌, is_some,
  if◌then◌else◌,
}
use actenon_permit.Base.Int.{ℤ, pos, pos_part, ltb_ℤ, eqb_ℤ}
use actenon_permit.Base.Equality.{Text}
use actenon_permit.Result.{
  Result, ok, err, ◌>>=◌, ◌>>◌, raise_if, invalid_outcome, bad_observer, bad_sequence,
  negative_cost, bad_review, review_expired, cost_without_execution, cost_of_ambiguous,
  settled_otherwise, stale_review, needs_reconciliation, unclaimed_execution, not_reconcilable,
  index_error,
}
use actenon_permit.Budget.{Value, units}
use actenon_permit.Store.Tables.{Db, EffectState, EffectRow, EffectEvent, Evidence, settlement}
use actenon_permit.Store.Settle.{commit_in_transaction, release_in_transaction}
use actenon_permit.Effects.{Protocol, Reference, state_beq, effect_row, update_effect, effect_event}

-- The arguments of `settle_effect`.
pub record Settlement : Type 0 where
  pub ref : Reference
  pub grant_id : ℕ
  pub principal : Text
  pub action_hash : ℕ
  pub outcome : EffectState
  pub execution_occurred : Option Bool
  pub evidence_hash : ℕ
  pub observer : Option ℕ
  pub actual_cost : Option Value
  pub reconciliation : Bool
  pub expected_event_sequence : Option ℤ
  pub review_expires_at : Option ℕ

-- What `settle_effect` returns.
pub record Settled : Type 0 where
  pub remaining : ℕ
  pub settled_at : ℕ

-- `_budget_amount(actual_cost) if actual_cost is not None else None`, and its sign
unfoldable pub exact_cost : Option Value → Result (Option ℕ)
exact_cost none = ok none
exact_cost (some value) = do
  z ← units value
  raise_if (ltb_ℤ z (pos 0)) negative_cost
  ok (some (pos_part z))

-- The tests before the transaction; the result is the observer and the exact cost.
unfoldable pub check_settlement : Protocol → Settlement → Result (ℕ × Option ℕ)
unfolding exact_cost
check_settlement protocol s = do
  raise_if (not (protocol.valid_outcome s.outcome s.execution_occurred s.evidence_hash))
      invalid_outcome
  observer ← elim s.observer [ none ↦ err bad_observer | some o ↦ ok o ]
  raise_if
      (elim s.expected_event_sequence [
        | none ↦ false
        | some n ↦ not s.reconciliation || not (ltb_ℤ (pos 0) n)
      ])
      bad_sequence
  raise_if (is_some s.review_expires_at && not s.reconciliation) bad_review
  cost ← exact_cost s.actual_cost
  ok (observer, cost)

-- `cost not in (None, 0)`
unfoldable pub is_costly : Option ℕ → Bool
is_costly none = false
is_costly (some n) = not (n == 0)

-- The cost to record: a commitment with none costs all that was reserved.
unfoldable pub settlement_cost : EffectState → Option ℕ → ℕ → Result (Option ℕ)
unfolding is_costly state_beq
settlement_cost outcome cost reserved_units = do
  raise_if (state_beq outcome EffectState.not_executed && is_costly cost) cost_without_execution
  raise_if (state_beq outcome EffectState.ambiguous && is_some cost) cost_of_ambiguous
  ok (
      if state_beq outcome EffectState.committed && not (is_some cost)
      then some reserved_units
      else cost)

unfoldable pub option_beq {ℓ} : {A : Type ℓ} → (A → A → Bool) → Option A → Option A → Bool
option_beq beq none none = true
option_beq beq (some a) (some b) = beq a b
option_beq beq o p = false

abbrev bool_beq : Bool → Bool → Bool
bool_beq true b = b
bool_beq false b = not b

-- Equality of the canonical texts.
unfoldable pub evidence_beq : Evidence → Evidence → Bool
unfolding option_beq state_beq
evidence_beq a b =
    state_beq a.outcome b.outcome
    && option_beq bool_beq a.execution_occurred b.execution_occurred
    && a.evidence_hash == b.evidence_hash
    && a.observer == b.observer
    && bool_beq a.reconciliation b.reconciliation
    && option_beq ◌==◌ a.actual_cost b.actual_cost

-- `SELECT MAX(sequence) FROM effect_events WHERE reservation_id = ?`; the latest event comes first.
unfoldable pub latest_sequence : ℕ → List EffectEvent → Option ℕ
latest_sequence rid [] = none
latest_sequence rid (e ∷ es) =
    if e.reservation_id == rid then some e.sequence else latest_sequence rid es

-- `SELECT remaining_units FROM grants WHERE id = ?`, of a row that must be there
unfoldable pub remaining_of : Db → ℕ → Result ℕ
remaining_of db g = elim (db.grants g) [
  | none ↦ err index_error
  | some row ↦ ok row.remaining_units
]

unfoldable pub is_final : EffectState → Bool
unfolding state_beq
is_final s = state_beq s EffectState.committed || state_beq s EffectState.not_executed

-- The tests on a settlement of an effect that is not final.
unfoldable pub check_transition : EffectState → ℕ → Settlement → Db → Result (Unit {0})
unfolding state_beq latest_sequence option_beq
check_transition state rid s db = do
  raise_if
      (elim s.expected_event_sequence [
        | none ↦ false
        | some n ↦ not (
            option_beq eqb_ℤ
              (elim (latest_sequence rid db.effect_events) [ none ↦ none | some k ↦ some (pos k) ])
              (some n))
      ])
      stale_review
  raise_if
      (state_beq state EffectState.ambiguous
        && not (state_beq s.outcome EffectState.ambiguous)
        && not s.reconciliation)
      needs_reconciliation
  raise_if
      (state_beq state EffectState.reserved && not (state_beq s.outcome EffectState.not_executed))
      unclaimed_execution
  raise_if
      (s.reconciliation
        && not (
            state_beq state EffectState.dispatching
            || state_beq state EffectState.ambiguous
            || state_beq state EffectState.reserved))
      not_reconcilable

-- The budget of a settlement. The cost of a commitment is known by then.
unfoldable pub settle_budget : EffectState → Option ℕ → EffectRow → ℕ → Db → Result (ℕ × Db)
settle_budget EffectState.committed (some cost) row g db =
    commit_in_transaction g row.action_id cost (pos row.reserved_units) db
settle_budget EffectState.committed none row g db = err index_error
settle_budget EffectState.not_executed cost row g db =
    release_in_transaction g row.action_id (pos row.reserved_units) db
settle_budget outcome cost row g db = remaining_of db g >>= λ n. ok (n, db)

-- The last UPDATE.
unfoldable pub settle_row : EffectState → Option Bool → Evidence → ℕ → EffectRow → EffectRow
settle_row outcome occurred evidence now r = record r {
  state = outcome;
  execution_occurred = occurred;
  evidence = some evidence;
  updated_at = now;
}

-- What follows the row: a replay, or the settlement.
unfoldable pub settle_found :
    Settlement → EffectRow → Evidence → Option ℕ → ℕ → Db → Result (Settled × Db)
settle_found s row evidence cost now db =
    if is_final row.state
    then (raise_if
          (not (state_beq row.state s.outcome)
            || not (option_beq evidence_beq row.evidence (some evidence)))
          settled_otherwise
        >>= λ _. remaining_of db s.grant_id >>= λ n.
            ok (record { remaining = n; settled_at = row.updated_at }, db))
    else (check_transition row.state row.reservation_id s db >>= λ _.
        settle_budget s.outcome cost row s.grant_id db >>= λ (n, paid). ok (
          record { remaining = n; settled_at = now },
          effect_event row.reservation_id s.outcome (settlement evidence) now (record paid {
            effects =
                update_effect row.reservation_id
                  (settle_row s.outcome s.execution_occurred evidence now) paid.effects;
          }),
        ))

unfoldable pub settle_in_transaction : Settlement → ℕ → Option ℕ → ℕ → Db → Result (Settled × Db)
settle_in_transaction s observer given now db = do
  raise_if (elim s.review_expires_at [ none ↦ false | some t ↦ leb t now ]) review_expired
  row ← effect_row db s.ref s.grant_id s.principal s.action_hash
  cost ← settlement_cost s.outcome given row.reserved_units
  settle_found s row
      (record {
        outcome = s.outcome;
        execution_occurred = s.execution_occurred;
        evidence_hash = s.evidence_hash;
        observer = observer;
        reconciliation = s.reconciliation;
        actual_cost = cost;
      })
      cost now db

unfoldable pub finish_settle : Db → Result (Settled × Db) → Result Settled × Db
finish_settle db (ok (r, db')) = (ok r, db')
finish_settle db (err e) = (err e, db)

-- `settle_effect`
unfoldable pub settle_effect : Protocol → Settlement → ℕ → Db → Result Settled × Db
settle_effect protocol s now db = finish_settle db (
    check_settlement protocol s >>= λ (observer, cost).
    settle_in_transaction s observer cost now db)
