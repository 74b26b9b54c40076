-- ===== src/Store/Accounting/CommitLaws.antt =====
-- `commit` keeps the books, and leaves the event at its cost.
use mathlib.Core.Path.{subst}
use actenon_permit.Base.{
  ℕ, ◌≡◌, sym, ap, true, false, Option, none, some, is_some, arith, if◌then◌else◌, Bool-cases,
  Option-cases, inl, inr, ◌⊎◌, not, ==_iff,
}
use actenon_permit.Base.Int.{ℤ, pos, sub_ℕ, eqb_ℤ, sub_ℕ_parts}
use actenon_permit.Base.Equality.{nat_eq}
use actenon_permit.Result.{
  ok, >>=-eq-ok, raise_if-eq-ok, ok-injective, reservation_foreign, amount_mismatch,
  committed_otherwise,
}
use actenon_permit.Store.Tables.{
  Db, RateEvent, is_owner, owners_of, find_event, commit_event, overrun_of,
}
use actenon_permit.Store.Settle.{
  reservation, commit_in_transaction, settle_budget_owners, same_cost,
}
use actenon_permit.Store.Accounting.{
  Balances, IsWellFormed, balance_of, held, charged_to, charge_of, IsDistinct, AreDistinct,
}
use actenon_permit.Store.Accounting.Rows.{
  sum-commit_event, find_event-action, contains-owners_of, find_event-commit_event,
  commit_event-IsDistinct,
}
use actenon_permit.Store.Accounting.Settling.{IsSettled, settle_budget_owners_lem}

pub reservation_lem :
    (db : Db) (g a : ℕ) (claimed : ℤ) {e : RateEvent}
    → reservation db g a claimed ≡ ok e
    → (find_event a db.rate_events ≡ some e)
      × (e.grant_id ≡ g)
      × (eqb_ℤ (pos e.reserved_units) claimed ≡ true)
unfolding reservation
reservation_lem db g a claimed {e} h = elim (Option-cases (find_event a db.rate_events)) [
  | inl missing ↦ cc (rw (missing, reservation) at h)
  | inr (x, found) ↦
      let (own, rest) = raise_if-eq-ok _ reservation_foreign _ (rw (found, reservation) at h) in
      let (matches, e') = raise_if-eq-ok _ amount_mismatch _ rest in
      let same : x ≡ e = ok-injective e' in
      (rw (← same) found, rw (← same) (ground arith), rw (← same) (ground arith))
]

-- An event that stands committed at a cost.
pub record IsSettledAt (g a cost : ℕ) (claimed : ℤ) (db : Db) : Type 0 where
  pub event : RateEvent
  pub found : find_event a db.rate_events ≡ some event
  pub own : event.grant_id ≡ g
  pub claim : eqb_ℤ (pos event.reserved_units) claimed ≡ true
  pub committed : event.committed ≡ true
  pub at_cost : event.actual_units ≡ some cost
  pub present : is_some (db.grants g) ≡ true

same_cost-eq : (o : Option ℕ) (n : ℕ) → not (same_cost o n) ≡ false → o ≡ some n
unfolding same_cost
same_cost-eq none n h = cc
same_cost-eq (some m) n h = ap (λ (k : ℕ). some k) ((==_iff m n).0 (ground arith))

-- A commit that settled: the event that it settled, and the tables in between.
pub record IsCommitted (g a actual : ℕ) (claimed : ℤ) (db db' : Db) : Type 0 where
  pub event : RateEvent
  pub mid : Db
  pub found : find_event a db.rate_events ≡ some event
  pub own : event.grant_id ≡ g
  pub claim : eqb_ℤ (pos event.reserved_units) claimed ≡ true
  pub first : event.committed ≡ false
  pub settled : IsSettled (sub_ℕ event.reserved_units actual) (owners_of a db.owners) db mid
  pub present : is_some (db.grants g) ≡ true
  pub after : db' ≡ record mid { rate_events = commit_event a g actual mid.rate_events }

pub commit_in_transaction_lem :
    (g a actual : ℕ) (claimed : ℤ) (db : Db) {n : ℕ} {db' : Db}
    → IsWellFormed db
    → commit_in_transaction g a actual claimed db ≡ ok (n, db')
    → ((db' ≡ db) × IsSettledAt g a actual claimed db) ⊎ IsCommitted g a actual claimed db db'
unfolding commit_in_transaction
commit_in_transaction_lem g a actual claimed db {n} {db'} wf h = elim (Option-cases (db.grants g)) [
  | inl missing ↦ cc (rw (missing, commit_in_transaction) at h)
  | inr (row, there) ↦
      let (e, valid, rest) =
        >>=-eq-ok (reservation db g a claimed) _ (rw (there, commit_in_transaction) at h) in
      let (found, own, claim) = reservation_lem db g a claimed valid in
      elim (Bool-cases e.committed) [
        | inl again ↦
            let (same, pair) = raise_if-eq-ok _ committed_otherwise _ (rw again at rest) in
            inl (
              sym (ap (λ (p : ℕ × Db). p.1) (ok-injective pair)),
              record {
                event = e;
                found = found;
                own = own;
                claim = claim;
                committed = again;
                at_cost = same_cost-eq e.actual_units actual same;
                present = ap is_some there;
              },
            )
        | inr first ↦
            let ((m, mid), settled, e') =
              >>=-eq-ok (settle_budget_owners g a (sub_ℕ e.reserved_units actual) db) _
                (rw first at rest) in
            inr (record {
              event = e;
              mid = mid;
              found = found;
              own = own;
              claim = claim;
              first = first;
              settled =
                  settle_budget_owners_lem g a (sub_ℕ e.reserved_units actual) db wf.keyed
                    wf.owners_distinct settled;
              present = ap is_some there;
              after = sym (ap (λ (p : ℕ × Db). p.1) (ok-injective e'));
            })
      ]
]

-- One grant's books, when the balances were settled and the event took its actual cost.
pub committed-Balances :
    (g a actual : ℕ) (claimed : ℤ) (db db' : Db)
    → IsWellFormed db
    → IsCommitted g a actual claimed db db'
    → Balances db db'
unfolding held overrun_of balance_of
committed-Balances g a actual claimed db db' wf c j =
    let adj = sub_ℕ c.event.reserved_units actual in
    let charges =
      sum-commit_event db.owners j a g actual db.rate_events wf.events_distinct c.found c.own in
    let owned = contains-owners_of j a db.owners in
    let books = c.settled.books j in
    let cost : charged_to db.owners j c.event
        ≡ (if is_owner a j db.owners then c.event.reserved_units else 0) =
      unfold charged_to charge_of in
      ground (arith, c.first, find_event-action a db.rate_events c.found) in
    rw (c.after, c.settled.events, c.settled.owners)
      (ground (arith, charges, owned, books, cost, sub_ℕ_parts c.event.reserved_units actual))

pub committed-IsWellFormed :
    (g a actual : ℕ) (claimed : ℤ) (db db' : Db)
    → IsWellFormed db
    → IsCommitted g a actual claimed db db'
    → IsWellFormed db'
committed-IsWellFormed g a actual claimed db db' wf c = subst IsWellFormed (sym c.after) (record {
  keyed = c.settled.keyed wf.keyed;
  events_distinct =
      subst (λ es. IsDistinct (commit_event a g actual es)) (sym c.settled.events)
        (commit_event-IsDistinct a g actual db.rate_events wf.events_distinct);
  owners_distinct = subst AreDistinct (sym c.settled.owners) wf.owners_distinct;
  owners_closed = λ b j owned.
      rw (c.settled.events, find_event-commit_event b a g actual db.rate_events)
        (wf.owners_closed b j (rw c.settled.owners at owned));
})
