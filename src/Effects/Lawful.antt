-- ===== src/Effects/Lawful.antt =====
-- Which settlements `settle_effect` of src/actenon_permit/effects.py records, and what an ambiguous
-- one leaves in place.
use actenon_permit.Base.{
  ℕ, ◌≡◌, ◌≢◌, refl, ap, sym, ◌∙◌, arith, inl, inr, ◌⊎◌, Option, some, Bool, true, false, not, ◌&&◌,
  Bool-cases,
}
use actenon_permit.Result.{
  Result, ok, >>=-eq-ok, raise_if-eq-ok, ok-injective, stale_review, needs_reconciliation,
  unclaimed_execution,
}
use actenon_permit.Store.Tables.{Db, EffectRow, EffectState}
use actenon_permit.Store.Accounting.{balance_of, held}
use actenon_permit.Effects.{Protocol, state_beq, find_effect, effect_event}
use actenon_permit.Effects.Settle.{
  Settlement, Settled, settle_effect, settle_budget, check_transition, is_final, remaining_of,
}
use actenon_permit.Effects.Transitions.{settle_effect_lem, IsRecorded}

is_not_executed :
    (s : EffectState) → state_beq s EffectState.not_executed ≡ true → s ≡ EffectState.not_executed
unfolding state_beq
is_not_executed EffectState.reserved h = cc
is_not_executed EffectState.dispatching h = cc
is_not_executed EffectState.committed h = cc
is_not_executed EffectState.not_executed h = refl
is_not_executed EffectState.ambiguous h = cc

is_ambiguous :
    (s : EffectState) → state_beq s EffectState.ambiguous ≡ true → s ≡ EffectState.ambiguous
unfolding state_beq
is_ambiguous EffectState.reserved h = cc
is_ambiguous EffectState.dispatching h = cc
is_ambiguous EffectState.committed h = cc
is_ambiguous EffectState.not_executed h = cc
is_ambiguous EffectState.ambiguous h = refl

-- The second and the third test.
check_transition_lem :
    (state : EffectState) (rid : ℕ) (s : Settlement) (db : Db)
    → check_transition state rid s db ≡ ok tt
    → ((state_beq state EffectState.ambiguous
          && not (state_beq s.outcome EffectState.ambiguous)
          && not s.reconciliation)
        ≡ false)
      × ((state_beq state EffectState.reserved
            && not (state_beq s.outcome EffectState.not_executed))
          ≡ false)
unfolding check_transition
check_transition_lem state rid s db h =
    let (_, r1) = raise_if-eq-ok _ stale_review _ h in
    let (reviewed, r2) = raise_if-eq-ok _ needs_reconciliation _ r1 in
    let (claimed, _) = raise_if-eq-ok _ unclaimed_execution _ r2 in (reviewed, claimed)

claimed_first :
    (state outcome : EffectState)
    → (state_beq state EffectState.reserved && not (state_beq outcome EffectState.not_executed))
      ≡ false
    → state ≡ EffectState.reserved
    → outcome ≡ EffectState.not_executed
claimed_first state outcome h start =
    is_not_executed outcome (unfold state_beq in ground (arith, (rw start at h)))

reviewed_first :
    (state outcome : EffectState) (reconciliation : Bool)
    → (state_beq state EffectState.ambiguous
        && not (state_beq outcome EffectState.ambiguous)
        && not reconciliation)
      ≡ false
    → state ≡ EffectState.ambiguous
    → outcome ≢ EffectState.ambiguous
    → reconciliation ≡ true
reviewed_first state outcome reconciliation h start clear =
    elim (Bool-cases (state_beq outcome EffectState.ambiguous)) [
      | inl still ↦ absurd (clear (is_ambiguous outcome still))
      | inr settled ↦ unfold state_beq in ground (arith, (rw (start, settled) at h))
    ]

ambiguous-paid :
    (cost : Option ℕ) (row : EffectRow) (g : ℕ) (db : Db) {n : ℕ} {paid : Db}
    → settle_budget EffectState.ambiguous cost row g db ≡ ok (n, paid)
    → paid ≡ db
unfolding settle_budget
ambiguous-paid cost row g db h =
    let (m, _, e) = >>=-eq-ok (remaining_of db g) _ h in
    ap (λ (p : ℕ × Db). p.1) (sym (ok-injective e))

-- The budget of an ambiguous effect.
retained_budget :
    (s : Settlement) (now : ℕ) (db db' : Db)
    → IsRecorded s now db db'
    → s.outcome ≡ EffectState.ambiguous
    → (g : ℕ) → (balance_of db' g ≡ balance_of db g) × (held db' g ≡ held db g)
unfolding balance_of held effect_event
retained_budget s now db db' w unclear g =
    let same = ambiguous-paid w.cost w.row s.grant_id db (rw unclear at w.budget) in
    (
      ap (λ (d : Db). balance_of d g) w.after ∙ ap (λ (d : Db). balance_of d g) same,
      ap (λ (d : Db). held d g) w.after ∙ ap (λ (d : Db). held d g) same,
    )

-- What a settlement of an effect may be, from its outcome and the row before it.
pub record IsLawful (s : Settlement) (row : EffectRow) (db db' : Db) : Type 0 where
  pub unsettled : is_final row.state ≡ false
  pub claimed_first : row.state ≡ EffectState.reserved → s.outcome ≡ EffectState.not_executed
  pub reviewed :
      row.state ≡ EffectState.ambiguous
      → s.outcome ≢ EffectState.ambiguous
      → s.reconciliation ≡ true
  pub retained :
      s.outcome ≡ EffectState.ambiguous
      → (g : ℕ) → (balance_of db' g ≡ balance_of db g) × (held db' g ≡ held db g)

-- A call of `settle_effect` leaves the tables, or settles a row that was not final; then a row that
-- was only reserved is settled as not executed, an ambiguous row is settled otherwise only as a
-- reconciliation, and an ambiguous outcome leaves the balance and the charges of every grant.
pub settle_effect-IsLawful :
    (protocol : Protocol) (s : Settlement) (now : ℕ) (db : Db) (o : Result Settled) (db' : Db)
    → settle_effect protocol s now db ≡ (o, db')
    → (db' ≡ db)
      ⊎ ((row : EffectRow) × (find_effect s.ref.reservation_id db.effects ≡ some row)
          × IsLawful s row db db')
settle_effect-IsLawful protocol s now db o db' h = elim (settle_effect_lem protocol s now db h) [
  | inl same ↦ inl same
  | inr (valid, w) ↦
      let (reviewed, claimed) =
        check_transition_lem w.row.state w.row.reservation_id s db w.allowed in
      inr (
        w.row,
        w.found,
        record {
          unsettled = w.unsettled;
          claimed_first = claimed_first w.row.state s.outcome claimed;
          reviewed = reviewed_first w.row.state s.outcome s.reconciliation reviewed;
          retained = retained_budget s now db db' w;
        },
      )
]
