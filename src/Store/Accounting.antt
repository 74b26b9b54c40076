-- ===== src/Store/Accounting.antt =====
-- What the store has charged to a grant, and the equation that every transaction keeps.
pub mod Chain
pub mod Reserving
pub mod Rows
pub mod Reserved
pub mod ReserveLaws
pub mod Settling
pub mod CommitLaws
pub mod ReleaseLaws
use actenon_permit.Base.{
  ℕ, ◌+◌, ◌≡◌, Bool, true, false, Option, none, some, List, [], ◌∷◌, sum_over, is_some,
  if◌then◌else◌, arith,
}
use actenon_permit.Store.Tables.{
  Db, GrantRow, RateEvent, OwnerRow, find_event, is_owner, overrun_of,
}

-- The units that an event takes: its actual cost once that is known.
unfoldable pub charge_of : RateEvent → ℕ
charge_of e =
    if e.committed then (elim e.actual_units [ none ↦ 0 | some cost ↦ cost ]) else e.reserved_units

-- The units of an event that a grant is charged.
unfoldable pub charged_to : List OwnerRow → ℕ → RateEvent → ℕ
unfolding charge_of
charged_to owners g e = if is_owner e.action_id g owners then charge_of e else 0

-- All units that are charged to a grant.
unfoldable pub held : Db → ℕ → ℕ
unfolding charged_to
held db g = sum_over (charged_to db.owners g) db.rate_events

-- The balance of a grant.
unfoldable pub balance_of : Db → ℕ → ℕ
balance_of db g = elim (db.grants g) [ none ↦ 0 | some row ↦ row.remaining_units ]

pub balance_of_found :
    (db : Db) (g : ℕ) (row : GrantRow)
    → db.grants g ≡ some row
    → balance_of db g ≡ row.remaining_units
unfolding balance_of
balance_of_found db g row found = ground arith

-- Balance and charges together change only by what becomes debt.
abbrev pub Balances : Db → Db → Type 0
Balances db db' =
    (g : ℕ)
    → balance_of db' g + held db' g + overrun_of db g
      ≡ balance_of db g + held db g + overrun_of db' g

-- `action_id` is the primary key of the events.
abbrev pub IsDistinct : List RateEvent → Type 0
IsDistinct [] = Unit
IsDistinct (e ∷ es) = (find_event e.action_id es ≡ none) × IsDistinct es

-- The pair is the primary key of the owner rows.
abbrev pub AreDistinct : List OwnerRow → Type 0
AreDistinct [] = Unit
AreDistinct (o ∷ os) = (is_owner o.action_id o.grant_id os ≡ false) × AreDistinct os

-- A grant is stored under its id, the keys are unique, and only events have owners.
pub record IsWellFormed (db : Db) : Type 0 where
  pub keyed : (k : ℕ) (row : GrantRow) → db.grants k ≡ some row → row.body.id ≡ k
  pub events_distinct : IsDistinct db.rate_events
  pub owners_distinct : AreDistinct db.owners
  pub owners_closed :
      (a g : ℕ) → is_owner a g db.owners ≡ true → is_some (find_event a db.rate_events) ≡ true
