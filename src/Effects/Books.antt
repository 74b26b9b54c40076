-- ===== src/Effects/Books.antt =====
-- The effect transactions keep the books of the store: they charge, settle and release budget only
-- through its own operations.
use mathlib.Core.Path.{subst}
use actenon_permit.Base.{ℕ, ◌≡◌, refl, ap, sym, inl, inr, Option, none, some, List}
use actenon_permit.Base.Int.{pos}
use actenon_permit.Result.{ok, ok-injective, ◌>>=◌, >>=-eq-ok}
use actenon_permit.Grant.{Signing}
use actenon_permit.Store.Tables.{Db, EffectRow, EffectState, EffectEvent}
use actenon_permit.Store.Accounting.{IsWellFormed, held, balance_of}
use actenon_permit.Store.Tables.{overrun_of}
use actenon_permit.Store.Accounting.Reserved.{reserve_in_transaction_lem}
use actenon_permit.Store.Accounting.ReserveLaws.{reserved-Balances, reserved-IsWellFormed}
use actenon_permit.Store.Books.{
  Keeps, Keeps-refl, commit_in_transaction-Keeps, release_in_transaction-Keeps,
}
use actenon_permit.Effects.{EffectRequest, Protocol, reserve_effect, effect_event}
use actenon_permit.Base.Equality.{Text}
use actenon_permit.Store.Replay.{commit_in_transaction-effects, release_in_transaction-effects}
use actenon_permit.Effects.{Reference, claim_effect}
use actenon_permit.Effects.Settle.{Settlement, settle_effect, settle_budget, remaining_of}
use actenon_permit.Effects.Reserving.{reserve_effect_lem}
use actenon_permit.Effects.Transitions.{claim_effect_lem, settle_effect_lem}

-- The books do not read the effect tables.
pub Keeps-effects :
    (db d : Db) (rows : List EffectRow) (events : List EffectEvent)
    → Keeps db d
    → Keeps db (record d { effects = rows; effect_events = events })
unfolding held balance_of overrun_of
Keeps-effects db d rows events k = record {
  well_formed = record {
    keyed = k.well_formed.keyed;
    events_distinct = k.well_formed.events_distinct;
    owners_distinct = k.well_formed.owners_distinct;
    owners_closed = k.well_formed.owners_closed;
  };
  balances = k.balances;
}

pub reserve_effect-Keeps :
    (protocol : Protocol) (key : Signing) (r : EffectRequest) (now : ℕ) (db : Db)
    → IsWellFormed db
    → Keeps db (reserve_effect protocol key r now db).1
unfolding effect_event
reserve_effect-Keeps protocol key r now db wf =
    elim (reserve_effect_lem protocol key r now db refl) [
      | inl same ↦ rw same (Keeps-refl db wf)
      | inr e ↦
          let w = e.entered in
          let charge = reserve_in_transaction_lem key _ now db w.budget in
          subst (Keeps db) (sym w.after) (
            Keeps-effects db w.charged _ _ (record {
              well_formed = reserved-IsWellFormed key _ now db wf charge;
              balances = reserved-Balances key _ now db wf charge;
            }))
    ]

pub claim_effect-Keeps :
    (key : Signing) (ref : Reference) (grant_id : ℕ) (principal : Text) (action_hash now : ℕ)
    (db : Db)
    → IsWellFormed db
    → Keeps db (claim_effect key ref grant_id principal action_hash now db).1
unfolding effect_event
claim_effect-Keeps key ref grant_id principal action_hash now db wf =
    elim (claim_effect_lem key ref grant_id principal action_hash now db refl) [
      | inl (_, same) ↦ rw same (Keeps-refl db wf)
      | inr c ↦ subst (Keeps db) (sym c.after) (Keeps-effects db db _ _ (Keeps-refl db wf))
    ]

unpaid :
    (db : Db) (g : ℕ) {n : ℕ} {paid : Db}
    → IsWellFormed db
    → ◌>>=◌ {B = ℕ × Db} (remaining_of db g) (λ m. ok (m, db)) ≡ ok (n, paid)
    → Keeps db paid × (paid.effects ≡ db.effects)
unpaid db g {n} {paid} wf h =
    let (m, _, e) = >>=-eq-ok (remaining_of db g) _ h in
    let same : db ≡ paid = ap (λ (p : ℕ × Db). p.1) (ok-injective e) in
    (subst (Keeps db) same (Keeps-refl db wf), ap (λ (d : Db). d.effects) (sym same))

-- The budget of a settlement moves through `_commit_in_transaction` and `_release_in_transaction`.
pub settle_budget-Keeps :
    (outcome : EffectState) (cost : Option ℕ) (row : EffectRow) (g : ℕ) (db : Db) {n : ℕ}
    {paid : Db}
    → IsWellFormed db
    → settle_budget outcome cost row g db ≡ ok (n, paid)
    → Keeps db paid × (paid.effects ≡ db.effects)
unfolding settle_budget
settle_budget-Keeps EffectState.committed (some cost) row g db {n} {paid} wf h = (
  commit_in_transaction-Keeps g row.action_id cost (pos row.reserved_units) db n paid wf h,
  commit_in_transaction-effects g row.action_id cost (pos row.reserved_units) db wf h,
)
settle_budget-Keeps EffectState.committed none row g db wf h = cc
settle_budget-Keeps EffectState.not_executed cost row g db {n} {paid} wf h = (
  release_in_transaction-Keeps g row.action_id (pos row.reserved_units) db n paid wf h,
  release_in_transaction-effects g row.action_id (pos row.reserved_units) db wf h,
)
settle_budget-Keeps EffectState.ambiguous cost row g db wf h = unpaid db g wf h
settle_budget-Keeps EffectState.reserved cost row g db wf h = unpaid db g wf h
settle_budget-Keeps EffectState.dispatching cost row g db wf h = unpaid db g wf h

pub settle_effect-Keeps :
    (protocol : Protocol) (s : Settlement) (now : ℕ) (db : Db)
    → IsWellFormed db
    → Keeps db (settle_effect protocol s now db).1
unfolding effect_event
settle_effect-Keeps protocol s now db wf = elim (settle_effect_lem protocol s now db refl) [
  | inl same ↦ rw same (Keeps-refl db wf)
  | inr (_, w) ↦
      let (kept, _) = settle_budget-Keeps s.outcome w.cost w.row s.grant_id db wf w.budget in
      subst (Keeps db) (sym w.after) (Keeps-effects db w.paid _ _ kept)
]
