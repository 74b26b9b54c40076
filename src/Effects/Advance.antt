-- ===== src/Effects/Advance.antt =====
-- Every transaction of the store moves the rows of the effects forward only, and leaves at most one
-- live row for an effect.
use mathlib.Core.Path.{subst}
use actenon_permit.Base.{
  ℕ, ◌≡◌, ◌≤◌, refl, sym, ◌∙◌, arith, inl, inr, Option, some, true, false, Bool, not, List,
}
use actenon_permit.Base.Equality.{Text}
use actenon_permit.Base.Int.{pos_part}
use actenon_permit.Result.{Result, ok, err, Result-cases, >>=-eq-ok, raise_if-eq-ok, effect_backed}
use actenon_permit.Budget.{units}
use actenon_permit.Grant.{Signing}
use actenon_permit.Store.Tables.{Db, EffectRow, EffectState, Evidence}
use actenon_permit.Store.Reserve.{
  Request, reserve, reserved, finish, Outcome, reserve_in_transaction,
}
use actenon_permit.Store.Settle.{commit, release, set_status, atomically}
use actenon_permit.Store.Accounting.{IsWellFormed}
use actenon_permit.Store.Accounting.Reserved.{reserve_in_transaction_lem}
use actenon_permit.Store.Accounting.ReserveLaws.{reserved-IsCharged}
use actenon_permit.Store.Replay.{commit_in_transaction-effects, release_in_transaction-effects}
use actenon_permit.Store.Books.{Step, reserve_step, commit_step, release_step, status_step}
use actenon_permit.Effects.{
  EffectRequest, Protocol, Reference, is_outcome, state_beq, find_effect, reserve_effect,
  claim_effect, effect_event, dispatched,
}
use actenon_permit.Effects.Settle.{Settlement, settle_effect, settle_row, is_final}
use actenon_permit.Effects.States.{
  rank, is_live, AreExclusive, HasAdvanced, HasAdvanced-refl, IsForward, update_effect-IsForward,
  update_effect-AreExclusive, cons-IsForward,
}
use actenon_permit.Effects.Reserving.{reserve_effect_lem}
use actenon_permit.Effects.Transitions.{claim_effect_lem, settle_effect_lem}
use actenon_permit.Effects.Books.{settle_budget-Keeps}

-- What a transaction does to the rows.
pub record Advances (rows rows' : List EffectRow) : Type 0 where
  pub forward : IsForward rows rows'
  pub exclusive : AreExclusive rows → AreExclusive rows'

pub Advances-refl : (rows : List EffectRow) → Advances rows rows
unfolding IsForward
Advances-refl rows = record {
  forward = λ i row found. (row, found, HasAdvanced-refl row);
  exclusive = λ x. x;
}

finish-effects :
    (key : Signing) (r : Request) (now : ℕ) (db : Db) (t : Result Outcome × Db)
    → IsWellFormed db
    → reserve_in_transaction key r now db ≡ t
    → (finish db t).1.effects ≡ db.effects
unfolding finish
finish-effects key r now db (ok (reserved s), db') wf e =
    (reserved-IsCharged key r now db wf.keyed (reserve_in_transaction_lem key r now db e)).1.effects
finish-effects key r now db (ok (Outcome.refused reason), db') wf e = refl
finish-effects key r now db (err x, db') wf e = refl

atomically-effects :
    (db : Db) (t : Result (ℕ × Db))
    → ((n : ℕ) (db' : Db) → t ≡ ok (n, db') → db'.effects ≡ db.effects)
    → (atomically db t).1.effects ≡ db.effects
unfolding atomically
atomically-effects db (ok (n, db')) k = k n db' refl
atomically-effects db (err e) k = refl

-- The transactions of state.py leave the effects alone.
pub Step-effects :
    {key : Signing} {db db' : Db} → Step key db db' → IsWellFormed db → db'.effects ≡ db.effects
unfolding reserve commit release set_status
Step-effects {key} {db} (reserve_step value r now) wf = elim (Result-cases (units value)) [
  | inr (e, bad) ↦ rw (bad, reserve) refl
  | inl (z, exact) ↦ rw (exact, reserve) (finish-effects key _ now db _ wf refl)
]
Step-effects {key} {db} (commit_step g a actual claimed) wf = atomically-effects db _ (λ n db' h.
    let (cost, _, rest) = >>=-eq-ok (units actual) _ h in
    let (claim, _, rest') = >>=-eq-ok (units claimed) _ rest in
    let (_, run) = raise_if-eq-ok _ effect_backed _ rest' in
    commit_in_transaction-effects g a (pos_part cost) claim db wf run)
Step-effects {key} {db} (release_step g a claimed) wf = atomically-effects db _ (λ n db' h.
    let (claim, _, rest) = >>=-eq-ok (units claimed) _ h in
    let (_, run) = raise_if-eq-ok _ effect_backed _ rest in
    release_in_transaction-effects g a claim db wf run)
Step-effects {key} {db} (status_step g status) wf = refl

pub is_reserved :
    (s : EffectState) → state_beq s EffectState.reserved ≡ true → s ≡ EffectState.reserved
unfolding state_beq
is_reserved EffectState.reserved h = refl
is_reserved EffectState.dispatching h = cc
is_reserved EffectState.committed h = cc
is_reserved EffectState.not_executed h = cc
is_reserved EffectState.ambiguous h = cc

dispatched-HasAdvanced :
    (now : ℕ) (row : EffectRow)
    → state_beq row.state EffectState.reserved ≡ true
    → HasAdvanced row (dispatched now row)
unfolding dispatched
dispatched-HasAdvanced now row h =
    let at_start = is_reserved row.state h in
    record {
      same_effect = rw h refl;
      further = rw (h, at_start) (omega arith);
      settled = λ e. cc (rw at_start at e);
    }

pub rank_open : (s : EffectState) → is_final s ≡ false → rank s ≤ 2
unfolding is_final state_beq
rank_open EffectState.reserved h = omega arith
rank_open EffectState.dispatching h = omega arith
rank_open EffectState.ambiguous h = omega arith
rank_open EffectState.committed h = cc
rank_open EffectState.not_executed h = cc

rank_outcome : (s : EffectState) → is_outcome s ≡ true → 2 ≤ rank s
rank_outcome EffectState.reserved h = cc
rank_outcome EffectState.dispatching h = cc
rank_outcome EffectState.ambiguous h = omega arith
rank_outcome EffectState.committed h = omega arith
rank_outcome EffectState.not_executed h = omega arith

settle_row-HasAdvanced :
    (outcome : EffectState) (occurred : Option Bool) (evidence : Evidence) (now : ℕ)
    (row : EffectRow)
    → is_outcome outcome ≡ true
    → is_final row.state ≡ false
    → HasAdvanced row (settle_row outcome occurred evidence now row)
unfolding settle_row
settle_row-HasAdvanced outcome occurred evidence now row valid unsettled =
    let low = rank_open row.state unsettled in
    record {
      same_effect = refl;
      further = omega (arith, low, rank_outcome outcome valid);
      settled = λ e. absurd (omega (arith, low, e));
    }

live_state : (s : EffectState) → rank s ≤ 2 → not (state_beq s EffectState.not_executed) ≡ true
unfolding state_beq
live_state EffectState.reserved h = refl
live_state EffectState.dispatching h = refl
live_state EffectState.ambiguous h = refl
live_state EffectState.committed h = refl
live_state EffectState.not_executed h = absurd (omega (arith, h))

pub some-injective : {r r' : EffectRow} → some r ≡ some r' → r ≡ r'
some-injective h = cc

pub dispatched-id : (now : ℕ) (r : EffectRow) → (dispatched now r).reservation_id ≡ r.reservation_id
unfolding dispatched
dispatched-id now r = ground arith

dispatched-effect : (now : ℕ) (r : EffectRow) → (dispatched now r).effect_id ≡ r.effect_id
unfolding dispatched
dispatched-effect now r = ground arith

pub live_open : (row : EffectRow) → rank row.state ≤ 2 → is_live row ≡ true
live_open row h = live_state row.state h

pub reserve_effect-Advances :
    (protocol : Protocol) (key : Signing) (r : EffectRequest) (now : ℕ) (db : Db)
    → IsWellFormed db
    → Advances db.effects (reserve_effect protocol key r now db).1.effects
unfolding effect_event
reserve_effect-Advances protocol key r now db wf =
    elim (reserve_effect_lem protocol key r now db refl) [
      | inl same ↦ rw same (Advances-refl db.effects)
      | inr e ↦
          let w = e.entered in
          let c =
            (reserved-IsCharged key _ now db wf.keyed
              (reserve_in_transaction_lem key _ now db w.budget)).1 in
          subst (λ (d : Db). Advances db.effects d.effects) (sym w.after)
            (rw c.effects (record {
              forward = cons-IsForward _ db.effects (rw c.effects at w.new_id);
              exclusive =
                  λ x. (rw c.effects at w.new_id, (λ live. rw c.effects at w.still_free), x);
            }))
    ]

pub claim_effect-Advances :
    (key : Signing) (ref : Reference) (grant_id : ℕ) (principal : Text) (action_hash now : ℕ)
    (db : Db)
    → Advances db.effects (claim_effect key ref grant_id principal action_hash now db).1.effects
unfolding effect_event
claim_effect-Advances key ref grant_id principal action_hash now db =
    elim (claim_effect_lem key ref grant_id principal action_hash now db refl) [
      | inl (_, same) ↦ rw same (Advances-refl db.effects)
      | inr c ↦
          let start : (row : EffectRow)
              → find_effect ref.reservation_id db.effects ≡ some row
              → state_beq row.state EffectState.reserved ≡ true =
            λ row found. rw (some-injective (sym c.found ∙ found)) at c.state in
          subst (λ (d : Db). Advances db.effects d.effects) (sym c.after)
            (record {
              forward =
                  update_effect-IsForward ref.reservation_id (dispatched now) (dispatched-id now)
                    db.effects (λ row found. dispatched-HasAdvanced now row (start row found));
              exclusive = λ x.
                  update_effect-AreExclusive ref.reservation_id (dispatched now) (dispatched-id now)
                    (dispatched-effect now) db.effects x
                    (λ row found.
                      live_open row (rw (is_reserved row.state (start row found)) (omega arith)));
            })
    ]

pub settle_effect-Advances :
    (protocol : Protocol) (s : Settlement) (now : ℕ) (db : Db)
    → IsWellFormed db
    → Advances db.effects (settle_effect protocol s now db).1.effects
unfolding effect_event settle_row
settle_effect-Advances protocol s now db wf = elim (settle_effect_lem protocol s now db refl) [
  | inl same ↦ rw same (Advances-refl db.effects)
  | inr (valid, w) ↦
      let (_, kept) = settle_budget-Keeps s.outcome w.cost w.row s.grant_id db wf w.budget in
      let start : (row : EffectRow)
          → find_effect s.ref.reservation_id db.effects ≡ some row
          → is_final row.state ≡ false =
        λ row found. rw (some-injective (sym w.found ∙ found)) at w.unsettled in
      let f = settle_row s.outcome s.execution_occurred w.evidence now in
      subst (λ (d : Db). Advances db.effects d.effects) (sym w.after)
        (rw kept (record {
          forward =
              update_effect-IsForward s.ref.reservation_id f (λ row. refl) db.effects
                (λ row found.
                  settle_row-HasAdvanced s.outcome s.execution_occurred w.evidence now row valid
                    (start row found));
          exclusive = λ x.
              update_effect-AreExclusive s.ref.reservation_id f (λ row. refl) (λ row. refl)
                db.effects x (λ row found. live_open row (rank_open row.state (start row found)));
        }))
]
