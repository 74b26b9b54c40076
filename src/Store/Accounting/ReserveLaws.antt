-- ===== src/Store/Accounting/ReserveLaws.antt =====
-- `reserve` keeps the books: the equation of balances and charges, and the shape of the tables.
use mathlib.Core.Path.{subst}
use actenon_permit.Base.{
  ℕ, ◌≡◌, ◌≤◌, sym, ap, ◌∙◌, false, Option, none, List, [], ◌∷◌, is_some, arith, All, sum_over,
  eq-none,
}
use actenon_permit.Base.Int.{ℤ}
use actenon_permit.Result.{Result, ok, raise_if-eq-ok, ok-injective, integrity_error}
use actenon_permit.Grant.{Grant, Signing}
use actenon_permit.Store.Transaction.{statement-eq-ok, then_run-eq-ok}
use actenon_permit.Store.Tables.{Db, RateEvent, is_owner, find_event, overrun_of}
use actenon_permit.Store.Reserve.{
  Request, Snapshot, Outcome, charge, insert_event, charge_owners, snapshot_of, check_owner,
  reserved, live_mode,
}
use actenon_permit.Store.Accounting.{
  Balances, IsWellFormed, balance_of, held, charged_to, charge_of, IsDistinct,
}
use actenon_permit.Store.Accounting.Rows.{sum_charged_cong}
use actenon_permit.Store.Accounting.Chain.{
  IsKeyed, walk_sound, budget_lineage_lem, AreFresh-HaveDistinctIds,
}
use actenon_permit.Store.Accounting.Reserving.{IsCharged, charge_owners_lem}
use actenon_permit.Store.Accounting.Reserved.{
  IsReserved, first_refusal-none, check_owner-IsAccepted,
}

abbrev new_event : ℕ → ℕ → ℕ → ℕ → RateEvent
new_event grant_id a amount now = record {
  action_id = a;
  grant_id = grant_id;
  ts = now;
  reserved_units = amount;
  committed = false;
  actual_units = none;
}

reserved-injective : {s t : Snapshot} → reserved s ≡ reserved t → s ≡ t
reserved-injective h = cc

-- The three steps of the charge.
pub record IsEntered (grant_id a amount now : ℕ) (owners : List Grant) (s : Snapshot) (db db' : Db)
    : Type 0 where
  pub fresh : find_event a db.rate_events ≡ none
  pub charged :
      charge_owners a amount owners
        (record db { rate_events = new_event grant_id a amount now ∷ db.rate_events })
      ≡ (ok tt, db')
  pub shown : snapshot_of amount owners ≡ ok s

pub charge_lem :
    (grant_id a amount now : ℕ) (owners : List Grant) (db : Db) {s : Snapshot} {db' : Db}
    → charge grant_id a amount now owners db ≡ (ok (reserved s), db')
    → IsEntered grant_id a amount now owners s db db'
unfolding charge insert_event
charge_lem grant_id a amount now owners db {s} {db'} h =
    let (inserted, first, rest) =
      statement-eq-ok db (insert_event (new_event grant_id a amount now) db) _ h in
    let (_, charged, second, rest') =
      then_run-eq-ok (charge_owners a amount owners inserted) _ rest in
    let (shown, end, third, e) = then_run-eq-ok (snapshot_of amount owners, charged) _ rest' in
    let (new, entered) =
      raise_if-eq-ok (is_some (find_event a db.rate_events)) integrity_error _ first in
    let shown_eq = ap (λ (p : Result Snapshot × Db). p.0) third in
    let last = ap (λ (p : Result Snapshot × Db). p.1) third in
    let outcome = ok-injective (ap (λ (p : Result Outcome × Db). p.0) e) in
    record {
      fresh = eq-none _ new;
      charged =
          ap (charge_owners a amount owners) (ok-injective entered)
          ∙ second
          ∙ ap (λ (d : Db). (let t : Result (Unit {0}) × Db = (ok tt, d) in t))
              (last ∙ ap (λ (p : Result Outcome × Db). p.1) e);
      shown = shown_eq ∙ ap (λ (t : Snapshot). ok t) (reserved-injective outcome);
    }

-- The owners of an accepted reservation: read from the store, distinct, and able to pay.
covered_owners :
    (key : Signing) (db : Db) (leaf amount : ℕ) (rate_max rate_per_seconds : ℤ)
    (effect_id : Option ℕ) (now : ℕ) (os : List Grant)
    → All (λ o. check_owner key db leaf amount rate_max rate_per_seconds effect_id now o ≡ none) os
    → All (λ o. amount ≤ o.budget.remaining) os
covered_owners key db leaf amount rate_max rate_per_seconds effect_id now [] h = tt
covered_owners key db leaf amount rate_max rate_per_seconds effect_id now (o ∷ os) h = (
  (check_owner-IsAccepted key db leaf amount rate_max rate_per_seconds effect_id now o h.0).covered,
  covered_owners key db leaf amount rate_max rate_per_seconds effect_id now os h.1,
)

-- A reservation, seen as one step on the tables.
pub reserved-IsCharged :
    (key : Signing) (r : Request) (now : ℕ) (db : Db) {s : Snapshot} {db' : Db}
    → IsKeyed db
    → (w : IsReserved key r now db s db')
    → (find_event r.action_id db.rate_events ≡ none)
      × IsCharged r.action_id w.amount w.owners
          (record db {
            rate_events = new_event r.grant_id r.action_id w.amount now ∷ db.rate_events;
          })
          db'
unfolding balance_of
reserved-IsCharged key r now db {s} {db'} k w =
    let entered = charge_lem r.grant_id r.action_id w.amount now w.owners db w.charged in
    let (walked, _, _, _) = budget_lineage_lem key db live_mode now r.grant_id w.owners w.lineage in
    let (loaded, fresh, _) = walk_sound db live_mode now _ [] r.grant_id w.owners k walked in
    (
      entered.fresh,
      charge_owners_lem r.action_id w.amount w.owners _ db' entered.charged loaded
          (AreFresh-HaveDistinctIds [] w.owners fresh)
          (covered_owners key db r.grant_id w.amount r.rate_max r.rate_per_seconds r.effect_id now
            w.owners (first_refusal-none _ w.owners w.accepted)),
    )

-- One charge more, and the balances are lower by what the owners are charged for it.
pub reserved-Balances :
    (key : Signing) (r : Request) (now : ℕ) (db : Db) {s : Snapshot} {db' : Db}
    → IsWellFormed db
    → IsReserved key r now db s db'
    → Balances db db'
unfolding held charged_to charge_of overrun_of balance_of
reserved-Balances key r now db {s} {db'} wf w g =
    let (fresh, c) = reserved-IsCharged key r now db wf.keyed w in
    let unowned : is_owner r.action_id g db.owners ≡ false =
      ground (arith, wf.owners_closed r.action_id g) in
    let unchanged : sum_over (charged_to db'.owners g) db.rate_events
        ≡ sum_over (charged_to db.owners g) db.rate_events =
      sum_charged_cong db'.owners db.owners g db.rate_events
        (λ b found. ground (arith, c.owner_rows b g)) in
    ground (arith, unchanged, unowned, c.events, c.debts, c.balances g, c.owner_rows r.action_id g)

pub reserved-IsWellFormed :
    (key : Signing) (r : Request) (now : ℕ) (db : Db) {s : Snapshot} {db' : Db}
    → IsWellFormed db
    → IsReserved key r now db s db'
    → IsWellFormed db'
unfolding find_event
reserved-IsWellFormed key r now db {s} {db'} wf w =
    let (fresh, c) = reserved-IsCharged key r now db wf.keyed w in
    record {
      keyed = c.keyed wf.keyed;
      events_distinct = subst IsDistinct (sym c.events) (fresh, wf.events_distinct);
      owners_distinct = c.distinct wf.owners_distinct;
      owners_closed = λ b g owned. ground (arith, c.events, c.owner_rows b g, wf.owners_closed b g);
    }
