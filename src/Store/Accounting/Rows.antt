-- ===== src/Store/Accounting/Rows.antt =====
-- Sums of charges when rows are added, changed or removed.
use actenon_permit.Base.Equality.{nat_eq, contains}
use actenon_permit.Base.{
  ℕ, ◌+◌, ◌≡◌, ◌≢◌, refl, true, false, none, some, List, [], ◌∷◌, sum_over, is_some, ◌==◌, arith,
  if◌then◌else◌, Bool-cases, inl, inr,
}
use actenon_permit.Store.Tables.{
  owners_of, RateEvent, OwnerRow, find_event, is_owner, commit_event, delete_event, delete_owners,
}
use actenon_permit.Store.Accounting.{charge_of, charged_to, IsDistinct, AreDistinct}

-- Charges depend on the owner rows only through the events' own actions.
pub sum_charged_cong :
    (os os' : List OwnerRow) (g : ℕ) (es : List RateEvent)
    → ((a : ℕ) → is_some (find_event a es) ≡ true → is_owner a g os ≡ is_owner a g os')
    → sum_over (charged_to os g) es ≡ sum_over (charged_to os' g) es
unfolding charged_to find_event
sum_charged_cong os os' g [] h = refl
sum_charged_cong os os' g (e ∷ es) h =
    ground (arith, h e.action_id, sum_charged_cong os os' g es (λ a found. h a (ground arith)))

-- An action that has no event is not changed.
commit_event-none :
    (a grant actual : ℕ) (es : List RateEvent)
    → find_event a es ≡ none
    → commit_event a grant actual es ≡ es
unfolding find_event commit_event
commit_event-none a grant actual [] f = refl
commit_event-none a grant actual (e ∷ es) f = ground (arith, commit_event-none a grant actual es)

delete_event-none :
    (a grant : ℕ) (es : List RateEvent) → find_event a es ≡ none → delete_event a grant es ≡ es
unfolding find_event delete_event
delete_event-none a grant [] f = refl
delete_event-none a grant (e ∷ es) f = ground (arith, delete_event-none a grant es)

-- A committed event takes its actual cost in place of what it held.
pub sum-commit_event :
    (os : List OwnerRow) (g a grant actual : ℕ) (es : List RateEvent) {e : RateEvent}
    → IsDistinct es
    → find_event a es ≡ some e
    → e.grant_id ≡ grant
    → sum_over (charged_to os g) (commit_event a grant actual es) + charged_to os g e
      ≡ sum_over (charged_to os g) es + (if is_owner a g os then actual else 0)
unfolding charged_to charge_of find_event commit_event
sum-commit_event os g a grant actual [] d f h = cc
sum-commit_event os g a grant actual (x ∷ es) {e} d f h = elim (Bool-cases (x.action_id == a)) [
  | inl same ↦ ground (arith, commit_event-none a grant actual es)
  | inr other ↦ ground (arith, sum-commit_event os g a grant actual es {e = e} d.1)
]

-- A removed event is no longer charged.
pub sum-delete_event :
    (os : List OwnerRow) (g a grant : ℕ) (es : List RateEvent) {e : RateEvent}
    → IsDistinct es
    → find_event a es ≡ some e
    → e.grant_id ≡ grant
    → sum_over (charged_to os g) (delete_event a grant es) + charged_to os g e
      ≡ sum_over (charged_to os g) es
unfolding charged_to charge_of find_event delete_event
sum-delete_event os g a grant [] d f h = cc
sum-delete_event os g a grant (x ∷ es) {e} d f h = elim (Bool-cases (x.action_id == a)) [
  | inl same ↦ ground (arith, delete_event-none a grant es)
  | inr other ↦ ground (arith, sum-delete_event os g a grant es {e = e} d.1)
]

pub find_event-commit_event :
    (b a grant actual : ℕ) (es : List RateEvent)
    → is_some (find_event b (commit_event a grant actual es)) ≡ is_some (find_event b es)
unfolding find_event commit_event
find_event-commit_event b a grant actual [] = refl
find_event-commit_event b a grant actual (x ∷ es) =
    ground (arith, find_event-commit_event b a grant actual es)

-- Only the event of the action itself goes.
pub find_event-delete_event_ne :
    (b a grant : ℕ) (es : List RateEvent)
    → b ≢ a
    → find_event b (delete_event a grant es) ≡ find_event b es
unfolding find_event delete_event
find_event-delete_event_ne b a grant [] h = refl
find_event-delete_event_ne b a grant (x ∷ es) h =
    ground (arith, find_event-delete_event_ne b a grant es h)

pub commit_event-IsDistinct :
    (a grant actual : ℕ) (es : List RateEvent)
    → IsDistinct es
    → IsDistinct (commit_event a grant actual es)
unfolding commit_event
commit_event-IsDistinct a grant actual [] d = tt
commit_event-IsDistinct a grant actual (x ∷ es) d = ground (
  arith,
  find_event-commit_event x.action_id a grant actual es,
  commit_event-IsDistinct a grant actual es d.1,
)

find_event-delete_event-none :
    (b a grant : ℕ) (es : List RateEvent)
    → find_event b es ≡ none
    → find_event b (delete_event a grant es) ≡ none
unfolding find_event delete_event
find_event-delete_event-none b a grant [] h = refl
find_event-delete_event-none b a grant (x ∷ es) h =
    ground (arith, find_event-delete_event-none b a grant es)

pub delete_event-IsDistinct :
    (a grant : ℕ) (es : List RateEvent) → IsDistinct es → IsDistinct (delete_event a grant es)
unfolding delete_event
delete_event-IsDistinct a grant [] d = tt
delete_event-IsDistinct a grant (x ∷ es) d = ground (
  arith,
  find_event-delete_event-none x.action_id a grant es,
  delete_event-IsDistinct a grant es d.1,
)

-- The owner rows of an action go, and no others.
pub is_owner-delete_owners :
    (b g a : ℕ) (os : List OwnerRow)
    → is_owner b g (delete_owners a os) ≡ (if b == a then false else is_owner b g os)
unfolding is_owner delete_owners
is_owner-delete_owners b g a [] = ground arith
is_owner-delete_owners b g a (o ∷ os) = ground (arith, is_owner-delete_owners b g a os)

pub delete_owners-AreDistinct :
    (a : ℕ) (os : List OwnerRow) → AreDistinct os → AreDistinct (delete_owners a os)
unfolding delete_owners
delete_owners-AreDistinct a [] d = tt
delete_owners-AreDistinct a (o ∷ os) d =
    ground (
      arith,
      is_owner-delete_owners o.action_id o.grant_id a os,
      delete_owners-AreDistinct a os d.1,
    )

pub find_event-delete_event_self :
    (a grant : ℕ) (es : List RateEvent) {e : RateEvent}
    → IsDistinct es
    → find_event a es ≡ some e
    → e.grant_id ≡ grant
    → find_event a (delete_event a grant es) ≡ none
unfolding find_event delete_event
find_event-delete_event_self a grant [] d f h = cc
find_event-delete_event_self a grant (x ∷ es) {e} d f h = elim (Bool-cases (x.action_id == a)) [
  | inl same ↦ ground (arith, delete_event-none a grant es)
  | inr other ↦ ground (arith, find_event-delete_event_self a grant es {e = e} d.1)
]

-- The event that is found is the action's own.
pub find_event-action :
    (a : ℕ) (es : List RateEvent) {e : RateEvent} → find_event a es ≡ some e → e.action_id ≡ a
unfolding find_event
find_event-action a [] f = cc
find_event-action a (x ∷ es) {e} f = ground (arith, find_event-action a es {e = e})

-- The owners that a query lists are those of the rows, each once.
pub contains-owners_of :
    (g a : ℕ) (os : List OwnerRow) → contains g (owners_of a os) ≡ is_owner a g os
unfolding contains owners_of is_owner
contains-owners_of g a [] = refl
contains-owners_of g a (o ∷ os) = ground (arith, contains-owners_of g a os)
