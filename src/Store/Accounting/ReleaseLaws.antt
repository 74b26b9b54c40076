-- ===== src/Store/Accounting/ReleaseLaws.antt =====
-- `release` keeps the books.
use mathlib.Core.Path.{subst}
use actenon_permit.Base.{
  ℕ, ◌≡◌, sym, ap, true, false, some, List, arith, if◌then◌else◌, Option-cases, inl, inr, sum_over,
}
use actenon_permit.Base.Int.{ℤ, pos, eqb_ℤ}
use actenon_permit.Base.Equality.{nat_eq}
use actenon_permit.Result.{ok, >>=-eq-ok, raise_if-eq-ok, ok-injective, committed_release}
use actenon_permit.Store.Tables.{
  Db, OwnerRow, RateEvent, is_owner, owners_of, find_event, delete_event, delete_owners, overrun_of,
}
use actenon_permit.Store.Settle.{reservation, release_in_transaction, settle_budget_owners}
use actenon_permit.Store.Accounting.{
  Balances, IsWellFormed, balance_of, held, charged_to, charge_of, IsDistinct, AreDistinct,
}
use actenon_permit.Store.Accounting.Rows.{
  sum_charged_cong, sum-delete_event, find_event-action, contains-owners_of,
  delete_event-IsDistinct, find_event-delete_event_ne, find_event-delete_event_self,
  is_owner-delete_owners, delete_owners-AreDistinct,
}
use actenon_permit.Store.Accounting.Settling.{IsSettled, settle_budget_owners_lem}
use actenon_permit.Store.Accounting.CommitLaws.{reservation_lem}

-- A release that went through.
pub record IsReleased (g a : ℕ) (claimed : ℤ) (db db' : Db) : Type 0 where
  pub event : RateEvent
  pub mid : Db
  pub found : find_event a db.rate_events ≡ some event
  pub own : event.grant_id ≡ g
  pub claim : eqb_ℤ (pos event.reserved_units) claimed ≡ true
  pub first : event.committed ≡ false
  pub settled : IsSettled (pos event.reserved_units) (owners_of a db.owners) db mid
  pub after : db' ≡ record mid {
    owners = delete_owners a mid.owners;
    rate_events = delete_event a g mid.rate_events;
  }

pub release_in_transaction_lem :
    (g a : ℕ) (claimed : ℤ) (db : Db) {n : ℕ} {db' : Db}
    → IsWellFormed db
    → release_in_transaction g a claimed db ≡ ok (n, db')
    → IsReleased g a claimed db db'
unfolding release_in_transaction
release_in_transaction_lem g a claimed db {n} {db'} wf h = elim (Option-cases (db.grants g)) [
  | inl missing ↦ cc (rw (missing, release_in_transaction) at h)
  | inr (row, there) ↦
      let (e, valid, rest) =
        >>=-eq-ok (reservation db g a claimed) _ (rw (there, release_in_transaction) at h) in
      let (found, own, claim) = reservation_lem db g a claimed valid in
      let (first, rest') = raise_if-eq-ok e.committed committed_release _ rest in
      let ((m, mid), settled, e') =
        >>=-eq-ok (settle_budget_owners g a (pos e.reserved_units) db) _ rest' in
      record {
        event = e;
        mid = mid;
        found = found;
        own = own;
        claim = claim;
        first = first;
        settled =
            settle_budget_owners_lem g a (pos e.reserved_units) db wf.keyed wf.owners_distinct
              settled;
        after = sym (ap (λ (p : ℕ × Db). p.1) (ok-injective e'));
      }
]

-- The charges that are left after a release are those of the other events.
released-held :
    (g a j : ℕ) (db : Db) (e : RateEvent)
    → IsWellFormed db
    → find_event a db.rate_events ≡ some e
    → e.grant_id ≡ g
    → sum_over (charged_to (delete_owners a db.owners) j) (delete_event a g db.rate_events)
      ≡ sum_over (charged_to db.owners j) (delete_event a g db.rate_events)
released-held g a j db e wf found own =
    sum_charged_cong (delete_owners a db.owners) db.owners j (delete_event a g db.rate_events)
      (λ b there. ground (
        arith,
        is_owner-delete_owners b j a db.owners,
        find_event-delete_event_self a g db.rate_events {e = e} wf.events_distinct found own,
      ))

pub released-Balances :
    (g a : ℕ) (claimed : ℤ) (db db' : Db)
    → IsWellFormed db
    → IsReleased g a claimed db db'
    → Balances db db'
unfolding held overrun_of balance_of
released-Balances g a claimed db db' wf c j =
    let charges =
      sum-delete_event db.owners j a g db.rate_events wf.events_distinct c.found c.own in
    let left = released-held g a j db c.event wf c.found c.own in
    let owned = contains-owners_of j a db.owners in
    let books = c.settled.books j in
    let cost : charged_to db.owners j c.event
        ≡ (if is_owner a j db.owners then c.event.reserved_units else 0) =
      unfold charged_to charge_of in
      ground (arith, c.first, find_event-action a db.rate_events c.found) in
    rw (c.after, c.settled.events, c.settled.owners)
      (ground (arith, charges, left, owned, books, cost))

pub released-IsWellFormed :
    (g a : ℕ) (claimed : ℤ) (db db' : Db)
    → IsWellFormed db
    → IsReleased g a claimed db db'
    → IsWellFormed db'
released-IsWellFormed g a claimed db db' wf c = subst IsWellFormed (sym c.after) (record {
  keyed = c.settled.keyed wf.keyed;
  events_distinct =
      subst (λ es. IsDistinct (delete_event a g es)) (sym c.settled.events)
        (delete_event-IsDistinct a g db.rate_events wf.events_distinct);
  owners_distinct =
      subst (λ os. AreDistinct (delete_owners a os)) (sym c.settled.owners)
        (delete_owners-AreDistinct a db.owners wf.owners_distinct);
  owners_closed = λ b j owned. rw c.settled.events (
      ground (
        arith,
        is_owner-delete_owners b j a db.owners,
        ap (λ (os : List OwnerRow). is_owner b j (delete_owners a os)) c.settled.owners,
        wf.owners_closed b j,
        find_event-delete_event_ne b a g db.rate_events,
      ));
})
