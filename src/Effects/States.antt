-- ===== src/Effects/States.antt =====
-- The life of an effect's row: states only advance, a final state stays, and an effect has at most
-- one live row.
use actenon_permit.Base.{
  ℕ, ◌≡◌, ◌≤◌, refl, ap, ◌∙◌, arith, inl, inr, some, true, false, Bool-cases, Bool, not, List, [],
  ◌∷◌, ◌==◌, if◌then◌else◌,
}
use actenon_permit.Store.Tables.{EffectRow, EffectState}
use actenon_permit.Effects.{find_effect, update_effect, has_live, has_reservation, state_beq}

-- How far an effect has come.
abbrev pub rank : EffectState → ℕ
rank EffectState.reserved = 0
rank EffectState.dispatching = 1
rank EffectState.ambiguous = 2
rank EffectState.committed = 3
rank EffectState.not_executed = 3

abbrev pub is_live : EffectRow → Bool
is_live r = not (state_beq r.state EffectState.not_executed)

-- Reservation ids are unique, and so is the live row of an effect.
abbrev pub AreExclusive : List EffectRow → Type 0
AreExclusive [] = Unit
AreExclusive (r ∷ rows) =
    (has_reservation r.reservation_id rows ≡ false)
    × (is_live r ≡ true → has_live r.effect_id rows ≡ false)
    × AreExclusive rows

-- A row is still there under its ids, no earlier in its life, and as it was if it was final.
pub record HasAdvanced (row row' : EffectRow) : Type 0 where
  pub same_effect : row'.effect_id ≡ row.effect_id
  pub further : rank row.state ≤ rank row'.state
  pub settled : rank row.state ≡ 3 → row'.state ≡ row.state

pub HasAdvanced-refl : (row : EffectRow) → HasAdvanced row row
HasAdvanced-refl row = record { same_effect = refl; further = omega arith; settled = λ e. refl }

pub HasAdvanced-trans : {a b c : EffectRow} → HasAdvanced a b → HasAdvanced b c → HasAdvanced a c
HasAdvanced-trans {a} {b} {c} p q = record {
  same_effect = q.same_effect ∙ p.same_effect;
  further = omega (arith, p.further, q.further);
  settled = λ e. q.settled (ap rank (p.settled e) ∙ e) ∙ p.settled e;
}

unfoldable pub IsForward : List EffectRow → List EffectRow → Type 0
IsForward rows rows' =
    (rid : ℕ) (row : EffectRow)
    → find_effect rid rows ≡ some row
    → (row' : EffectRow) × (find_effect rid rows' ≡ some row') × HasAdvanced row row'

-- An update that keeps the ids of a row.
module _ (rid : ℕ) (f : EffectRow → EffectRow)
    (same_id : (r : EffectRow) → (f r).reservation_id ≡ r.reservation_id) where
  pub find-update_effect :
      (i : ℕ) (rows : List EffectRow) (row : EffectRow)
      → find_effect i rows ≡ some row
      → find_effect i (update_effect rid f rows) ≡ some (if i == rid then f row else row)
  unfolding find_effect update_effect
  find-update_effect i [] row h = cc
  find-update_effect i (r ∷ rows) row h = ground (arith, same_id r, find-update_effect i rows row)

  pub update_effect-IsForward :
      (rows : List EffectRow)
      → ((row : EffectRow) → find_effect rid rows ≡ some row → HasAdvanced row (f row))
      → IsForward rows (update_effect rid f rows)
  unfolding IsForward
  update_effect-IsForward rows advance i row found = elim (Bool-cases (i == rid)) [
    | inl here ↦
        (f row, find-update_effect i rows row found ∙ ground arith, ground (arith, advance row))
    | inr away ↦ (row, find-update_effect i rows row found ∙ ground arith, HasAdvanced-refl row)
  ]

  reservation-update_effect :
      (i : ℕ) (rows : List EffectRow)
      → has_reservation i (update_effect rid f rows) ≡ has_reservation i rows
  unfolding has_reservation update_effect
  reservation-update_effect i [] = refl
  reservation-update_effect i (r ∷ rows) =
      ground (arith, same_id r, reservation-update_effect i rows)

  update_effect_absent :
      (rows : List EffectRow) → has_reservation rid rows ≡ false → update_effect rid f rows ≡ rows
  unfolding has_reservation update_effect
  update_effect_absent [] h = refl
  update_effect_absent (r ∷ rows) h = ground (arith, update_effect_absent rows)

  module _ (same_effect : (r : EffectRow) → (f r).effect_id ≡ r.effect_id) where
    live-update_effect :
        (e : ℕ) (rows : List EffectRow)
        → AreExclusive rows
        → ((row : EffectRow) → find_effect rid rows ≡ some row → is_live row ≡ true)
        → has_live e rows ≡ false
        → has_live e (update_effect rid f rows) ≡ false
    unfolding has_live update_effect find_effect
    live-update_effect e [] x live h = refl
    live-update_effect e (r ∷ rows) x live h = elim (Bool-cases (r.reservation_id == rid)) [
      | inl here ↦ ground (arith, same_effect r, live r, update_effect_absent rows)
      | inr away ↦ ground (arith, live-update_effect e rows x.2 (λ row. ground (arith, live row)))
    ]

    pub update_effect-AreExclusive :
        (rows : List EffectRow)
        → AreExclusive rows
        → ((row : EffectRow) → find_effect rid rows ≡ some row → is_live row ≡ true)
        → AreExclusive (update_effect rid f rows)
    unfolding update_effect find_effect
    update_effect-AreExclusive [] x live = tt
    update_effect-AreExclusive (r ∷ rows) x live = elim (Bool-cases (r.reservation_id == rid)) [
      | inl here ↦ ground (arith, same_effect r, same_id r, live r, update_effect_absent rows)
      | inr away ↦ ground (
        arith,
        reservation-update_effect r.reservation_id rows,
        live-update_effect r.effect_id rows x.2 (λ row. ground (arith, live row)),
        update_effect-AreExclusive rows x.2 (λ row. ground (arith, live row)),
      )
    ]

absent_effect :
    (i : ℕ) (rows : List EffectRow) (row : EffectRow)
    → find_effect i rows ≡ some row
    → has_reservation i rows ≡ true
unfolding find_effect has_reservation
absent_effect i [] row h = cc
absent_effect i (r ∷ rows) row h = ground (arith, absent_effect i rows row)

pub cons-IsForward :
    (new : EffectRow) (rows : List EffectRow)
    → has_reservation new.reservation_id rows ≡ false
    → IsForward rows (new ∷ rows)
unfolding IsForward find_effect
cons-IsForward new rows fresh i row found = elim (Bool-cases (new.reservation_id == i)) [
  | inl here ↦ ground (arith, absent_effect i rows row)
  | inr away ↦ (row, rw away found, HasAdvanced-refl row)
]

live_of_found :
    (i e : ℕ) (rows : List EffectRow) (row : EffectRow)
    → find_effect i rows ≡ some row
    → row.effect_id ≡ e
    → is_live row ≡ true
    → has_live e rows ≡ true
unfolding find_effect has_live
live_of_found i e [] row h at_e live = cc
live_of_found i e (r ∷ rows) row h at_e live = ground (arith, live_of_found i e rows row)

-- Two live rows of one effect are one row.
pub one_owner :
    (rows : List EffectRow) (i j : ℕ) (row row' : EffectRow)
    → AreExclusive rows
    → find_effect i rows ≡ some row
    → find_effect j rows ≡ some row'
    → is_live row ≡ true
    → is_live row' ≡ true
    → row.effect_id ≡ row'.effect_id
    → i ≡ j
unfolding find_effect
one_owner [] i j row row' x fi fj li lj same = cc
one_owner (r ∷ rows) i j row row' x fi fj li lj same = ground (
  arith,
  live_of_found i row'.effect_id rows row,
  live_of_found j row.effect_id rows row',
  one_owner rows i j row row' x.2,
)
