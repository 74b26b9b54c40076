-- ===== src/Store/Charging.antt =====
-- What `reserve` of state.py does, on its branches: an exact amount is charged to the whole lineage
-- of the grant, or the tables stay.
use actenon_permit.Base.{
  ℕ, ◌+◌, ◌≡◌, ◌≢◌, ap, sym, ◌∙◌, inl, inr, none, All, map, List, [], ◌∷◌, if◌then◌else◌, false,
}
use actenon_permit.Base.Int.{ℤ, pos}
use actenon_permit.Result.{Result, ok, err, Result-cases, ok-injective}
use actenon_permit.Budget.{Value, units}
use actenon_permit.Grant.{Grant, Signing}
use actenon_permit.Store.Tables.{Db}
use actenon_permit.Store.Lineage.{budget_lineage}
use actenon_permit.Store.Reserve.{
  Request, Snapshot, Outcome, reserve, finish, reserved, refused, live_mode, snapshot_of,
}
use actenon_permit.Store.Accounting.{IsWellFormed, balance_of}
use actenon_permit.Store.Accounting.Chain.{has_id}
use actenon_permit.Store.Accounting.Reserved.{
  IsReserved, IsAccepted, reserve_in_transaction_lem, first_refusal-none, check_owner-IsAccepted,
}
use actenon_permit.Store.Accounting.ReserveLaws.{reserved-IsCharged, charge_lem}

-- A reservation that was granted.
pub record IsGranted (key : Signing) (value : Value) (r : Request) (now : ℕ) (db : Db)
    (s : Snapshot) (db' : Db) : Type 0 where
  pub amount : ℕ
  pub owners : List Grant
  pub exact : units value ≡ ok (pos amount)
  pub lineage : budget_lineage key db live_mode now r.grant_id ≡ ok owners
  pub accepted :
      All (IsAccepted key db r.grant_id amount r.rate_max r.rate_per_seconds none now) owners
  pub charged :
      (j : ℕ) → balance_of db' j + (if has_id j owners then amount else 0) ≡ balance_of db j
  pub debts : db'.overruns ≡ db.overruns
  pub events :
      db'.rate_events
      ≡ record {
        action_id = r.action_id;
        grant_id = r.grant_id;
        ts = now;
        reserved_units = amount;
        committed = false;
        actual_units = none;
      }
        ∷ db.rate_events
  pub reported : s.budget_owners ≡ map (λ (g : Grant). g.id) owners

All_map : {P Q : Grant → Type 0} (os : List Grant) → ((o : Grant) → P o → Q o) → All P os → All Q os
All_map [] f a = tt
All_map (o ∷ os) f a = (f o a.0, All_map os f a.1)

snapshot_of-owners :
    (amount : ℕ) (os : List Grant) {s : Snapshot}
    → snapshot_of amount os ≡ ok s
    → s.budget_owners ≡ map (λ (g : Grant). g.id) os
unfolding snapshot_of
snapshot_of-owners amount [] h = cc
snapshot_of-owners amount (o ∷ os) h = ap (λ (t : Snapshot). t.budget_owners) (sym (ok-injective h))

finish_reserved :
    (db : Db) (t : Result Outcome × Db) {s : Snapshot} {db' : Db}
    → finish db t ≡ (ok (reserved s), db')
    → t ≡ (ok (reserved s), db')
unfolding finish
finish_reserved db (ok (reserved x), d) h = cc
finish_reserved db (ok (refused x), d) h = cc
finish_reserved db (err e, d) h = cc

finish_other :
    (db : Db) (t : Result Outcome × Db) {o : Result Outcome} {db' : Db}
    → finish db t ≡ (o, db')
    → ((s : Snapshot) → o ≢ ok (reserved s))
    → db' ≡ db
unfolding finish
finish_other db (ok (reserved x), d) h other =
    absurd (other x (sym (ap (λ (p : Result Outcome × Db). p.0) h)))
finish_other db (ok (refused x), d) h other = sym (ap (λ (p : Result Outcome × Db). p.1) h)
finish_other db (err e, d) h other = sym (ap (λ (p : Result Outcome × Db). p.1) h)

reserved-IsGranted :
    (key : Signing) (value : Value) (r : Request) (now : ℕ) (db : Db) {s : Snapshot} {db' : Db}
    (z : ℤ)
    → IsWellFormed db
    → units value ≡ ok z
    → IsReserved key (record r { amount = z; effect_id = none }) now db s db'
    → IsGranted key value r now db s db'
unfolding balance_of
reserved-IsGranted key value r now db {s} {db'} z wf exact w =
    let (fresh, c) =
      reserved-IsCharged key (record r { amount = z; effect_id = none }) now db wf.keyed w in
    let entered = charge_lem r.grant_id r.action_id w.amount now w.owners db w.charged in
    record {
      amount = w.amount;
      owners = w.owners;
      exact = exact ∙ ap (λ (a : ℤ). ok a) w.exact;
      lineage = w.lineage;
      accepted =
          All_map w.owners
            (λ o.
              check_owner-IsAccepted key db r.grant_id w.amount r.rate_max r.rate_per_seconds none
                now o)
            (first_refusal-none _ w.owners w.accepted);
      charged = c.balances;
      debts = c.debts;
      events = c.events;
      reported = snapshot_of-owners w.amount w.owners entered.shown;
    }

-- From well-formed tables, if `reserve` reports success, then the amount is an exact non-negative
-- number of units; the lineage of the grant was accepted; every owner of it permits the action, is
-- signed where it is finite, has no debt, has the amount in its balance and is below its rates; the
-- balance of every owner is lower by the amount, every other balance and every debt is as before; one
-- uncommitted event of the amount is added; and the report names the owners.
pub reserve-IsGranted :
    (key : Signing) (value : Value) (r : Request) (now : ℕ) (db : Db) (s : Snapshot) (db' : Db)
    → IsWellFormed db
    → reserve key value r now db ≡ (ok (reserved s), db')
    → IsGranted key value r now db s db'
unfolding reserve
reserve-IsGranted key value r now db s db' wf h = elim (Result-cases (units value)) [
  | inr (e, bad) ↦ cc (rw (bad, reserve) at h)
  | inl (z, exact) ↦
      reserved-IsGranted key value r now db z wf exact
        (reserve_in_transaction_lem key _ now db (finish_reserved db _ (rw (exact, reserve) at h)))
]

-- If `reserve` does not report success, be it a refusal or an error, the tables are as before.
pub reserve-keeps_otherwise :
    (key : Signing) (value : Value) (r : Request) (now : ℕ) (db : Db) (o : Result Outcome)
    (db' : Db)
    → reserve key value r now db ≡ (o, db')
    → ((s : Snapshot) → o ≢ ok (reserved s))
    → db' ≡ db
unfolding reserve
reserve-keeps_otherwise key value r now db o db' h other = elim (Result-cases (units value)) [
  | inr (e, bad) ↦ cc (rw (bad, reserve) at h)
  | inl (z, exact) ↦ finish_other db _ (rw (exact, reserve) at h) other
]
