-- ===== src/Store/Tables.antt =====
-- The tables of the store (state.py, delegated_budget.py, effects.py) and the queries on them. A
-- table that is only read by its primary key is a function. The REAL mirrors of the exact columns
-- are never read after the migration and are left out; so are `updated_at` and the index of agents.
use actenon_permit.Base.{
  ℕ, ◌+◌, ◌*◌, Bool, true, false, ◌&&◌, ◌||◌, Option, none, some, List, [], ◌∷◌, sum_over, leb,
  ◌==◌, if◌then◌else◌,
}
use actenon_permit.Base.Int.{ℤ, pos_part, neg_part}
use actenon_permit.Base.Equality.{Text}
use actenon_permit.Grant.{Grant, Status}

-- A row of `grants`: the stored body with its columns `status` and `remaining_units`.
pub record GrantRow : Type 0 where
  pub body : Grant
  pub status : Status
  pub remaining_units : ℕ

-- A row of `rate_events`, by its primary key `action_id`.
pub record RateEvent : Type 0 where
  pub action_id : ℕ
  pub grant_id : ℕ
  pub ts : ℕ
  pub reserved_units : ℕ
  pub committed : Bool
  pub actual_units : Option ℕ

-- A row of `reservation_budget_owners`.
pub record OwnerRow : Type 0 where
  pub action_id : ℕ
  pub grant_id : ℕ

pub data EffectState : Type 0 where
  reserved dispatching committed not_executed ambiguous : EffectState

-- The canonical JSON of a settlement: equal texts are equal records.
pub record Evidence : Type 0 where
  pub outcome : EffectState
  pub execution_occurred : Option Bool
  pub evidence_hash : ℕ
  pub observer : ℕ
  pub reconciliation : Bool
  pub actual_cost : Option ℕ

pub record EffectRow : Type 0 where
  pub reservation_id : ℕ
  pub effect_id : ℕ
  pub action_id : ℕ
  pub grant_id : ℕ
  pub principal : Text
  pub action_hash : ℕ
  pub descriptor : ℕ
  pub reserved_units : ℕ
  pub state : EffectState
  pub execution_occurred : Option Bool
  pub evidence : Option Evidence
  pub updated_at : ℕ

-- The `evidence` of an event: the canonical JSON of a reservation's reference, of a settlement, or
-- NULL. The reference has the effect, the reservation and the attempt that owns it.
pub data EventEvidence : Type 0 where
  reference : ℕ → ℕ → ℕ → EventEvidence
  settlement : Evidence → EventEvidence
  nothing : EventEvidence

-- A row of `effect_events`, the latest first.
pub record EffectEvent : Type 0 where
  pub sequence : ℕ
  pub reservation_id : ℕ
  pub state : EffectState
  pub evidence : EventEvidence
  pub occurred_at : ℕ

pub record Db : Type 0 where
  pub grants : ℕ → Option GrantRow
  pub rate_events : List RateEvent
  pub owners : List OwnerRow
  pub overruns : ℕ → Option ℕ
  pub effects : List EffectRow
  pub effect_events : List EffectEvent

abbrev pub map_option {ℓ} : {A B : Type ℓ} → (A → B) → Option A → Option B
map_option f none = none
map_option f (some a) = some (f a)

-- `UPDATE grants SET ... WHERE id = ?`
unfoldable pub update_grant : ℕ → (GrantRow → GrantRow) → Db → Db
update_grant id f db = record db {
  grants = λ j. if j == id then map_option f (db.grants j) else db.grants j;
}

-- `INSERT INTO budget_overruns ... ON CONFLICT(grant_id) DO UPDATE`
unfoldable pub put_overrun : ℕ → ℕ → Db → Db
put_overrun id debt db = record db { overruns = λ j. if j == id then some debt else db.overruns j }

-- `from_units(row[0]) if row else Decimal("0")`
unfoldable pub overrun_of : Db → ℕ → ℕ
overrun_of db id = elim (db.overruns id) [ none ↦ 0 | some debt ↦ debt ]

-- `SELECT ... FROM rate_events WHERE action_id = ?`
unfoldable pub find_event : ℕ → List RateEvent → Option RateEvent
find_event a [] = none
find_event a (e ∷ es) = if e.action_id == a then some e else find_event a es

-- `UPDATE rate_events SET committed = 1, actual_units = ? WHERE action_id = ? AND grant_id = ?`
unfoldable pub commit_event : ℕ → ℕ → ℕ → List RateEvent → List RateEvent
commit_event a g actual [] = []
commit_event a g actual (e ∷ es) =
    (if e.action_id == a && e.grant_id == g
      then record e { committed = true; actual_units = some actual }
      else e)
    ∷ commit_event a g actual es

-- `DELETE FROM rate_events WHERE action_id = ? AND grant_id = ?`
unfoldable pub delete_event : ℕ → ℕ → List RateEvent → List RateEvent
delete_event a g [] = []
delete_event a g (e ∷ es) =
    let rest = delete_event a g es in if e.action_id == a && e.grant_id == g then rest else e ∷ rest

-- whether `reservation_budget_owners` has the row (action_id, grant_id), its primary key
unfoldable pub is_owner : ℕ → ℕ → List OwnerRow → Bool
is_owner a g [] = false
is_owner a g (o ∷ os) = (o.action_id == a && o.grant_id == g) || is_owner a g os

-- `SELECT grant_id FROM reservation_budget_owners WHERE action_id = ?`
unfoldable pub owners_of : ℕ → List OwnerRow → List ℕ
owners_of a [] = []
owners_of a (o ∷ os) =
    let rest = owners_of a os in if o.action_id == a then o.grant_id ∷ rest else rest

-- `DELETE FROM reservation_budget_owners WHERE action_id = ?`
unfoldable pub delete_owners : ℕ → List OwnerRow → List OwnerRow
delete_owners a [] = []
delete_owners a (o ∷ os) =
    let rest = delete_owners a os in if o.action_id == a then rest else o ∷ rest

abbrev pub ticks : ℕ
ticks = 1000000

-- `e.ts >= now_ts - seconds`, with the window on the side where it is added
abbrev pub in_window : ℕ → ℤ → RateEvent → Bool
in_window now seconds e = leb (now + neg_part seconds * ticks) (e.ts + pos_part seconds * ticks)

-- `_owner_rate_count`: the join has at most one owner row for an event and a grant.
unfoldable pub owner_rate_count : Db → ℕ → ℕ → ℤ → ℕ
unfolding is_owner
owner_rate_count db g now seconds =
    sum_over (λ e. if is_owner e.action_id g db.owners && in_window now seconds e then 1 else 0)
      db.rate_events
