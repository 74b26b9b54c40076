-- ===== src/Store/Accounting/Reserved.antt =====
-- `reserve`, whole: either nothing changes, or every owner is charged the amount.
use actenon_permit.Base.{
  ℕ, ◌≡◌, ◌≤◌, refl, Bool, true, false, ◌||◌, ◌&&◌, Option, none, List, [], ◌∷◌, is_some, ◌==◌,
  arith, Bool-cases, Option-cases, inl, inr, All, ltb, not, ==_iff,
}
use actenon_permit.Base.Int.{ℤ, pos, pos_part, ltb_ℤ}
use actenon_permit.Result.{ok, Result-cases}
use actenon_permit.Grant.{Grant, Signing, permits_effect, verify}
use actenon_permit.Store.Tables.{Db, owner_rate_count, overrun_of}
use actenon_permit.Store.Lineage.{budget_lineage}
use actenon_permit.Store.Reserve.{
  Refusal, Request, Snapshot, reserved, reserve_in_transaction, charge, check_owner, first_refusal,
  live_mode, is_state_error,
}

-- A reservation that went through: what it has read and written.
pub record IsReserved (key : Signing) (r : Request) (now : ℕ) (db : Db) (s : Snapshot) (db' : Db)
    : Type 0 where
  pub amount : ℕ
  pub owners : List Grant
  pub exact : r.amount ≡ pos amount
  pub lineage : budget_lineage key db live_mode now r.grant_id ≡ ok owners
  pub accepted :
      first_refusal
        (check_owner key db r.grant_id amount r.rate_max r.rate_per_seconds r.effect_id now)
        owners
      ≡ none
  pub charged : charge r.grant_id r.action_id amount now owners db ≡ (ok (reserved s), db')

-- Inside the transaction: a refusal or an error, or a reservation.
pub reserve_in_transaction_lem :
    (key : Signing) (r : Request) (now : ℕ) (db : Db) {s : Snapshot} {db' : Db}
    → reserve_in_transaction key r now db ≡ (ok (reserved s), db')
    → IsReserved key r now db s db'
unfolding reserve_in_transaction
reserve_in_transaction_lem key r now db {s} {db'} h = elim (Bool-cases (ltb_ℤ r.amount (pos 0))) [
  | inl negative ↦ cc (rw negative at h)
  | inr proper ↦ elim (Result-cases (budget_lineage key db live_mode now r.grant_id)) [
    | inr (e, failed) ↦ elim (Bool-cases (is_state_error e)) [
      | inl caught ↦ cc (rw (proper, failed, caught) at h)
      | inr raised ↦ cc (rw (proper, failed, raised) at h)
    ]
    | inl (owners, walked) ↦
        elim (Option-cases (
          first_refusal
            (check_owner key db r.grant_id (pos_part r.amount) r.rate_max r.rate_per_seconds
              r.effect_id now)
            owners)) [
              | inr (reason, no_way) ↦ cc (rw (proper, walked, no_way) at h)
              | inl fine ↦ record {
                amount = pos_part r.amount;
                owners = owners;
                exact = ground arith;
                lineage = walked;
                accepted = fine;
                charged = rw (proper, walked, fine) at h;
              }
            ]
  ]
]

pub first_refusal-none :
    (check : Grant → Option Refusal) (os : List Grant)
    → first_refusal check os ≡ none
    → All (λ o. check o ≡ none) os
unfolding first_refusal
first_refusal-none check [] h = tt
first_refusal-none check (o ∷ os) h = elim (Option-cases (check o)) [
  | inl fine ↦ (fine, first_refusal-none check os (rw (fine, first_refusal) at h))
  | inr (reason, no_way) ↦ cc (rw (no_way, first_refusal) at h)
]

-- An owner that is not refused: approved, signed where it is finite, free of debt, with the amount
-- in its balance and below its rates.
pub record IsAccepted (key : Signing) (db : Db) (leaf amount : ℕ) (rate_max rate_per_seconds : ℤ)
    (effect_id : Option ℕ) (now : ℕ) (o : Grant) : Type 0 where
  pub approved : permits_effect o effect_id ≡ true
  pub signed : (is_some o.approved_effect_ids && not (verify key o)) ≡ false
  pub debt_free : overrun_of db o.id ≡ 0
  pub covered : amount ≤ o.budget.remaining
  pub rate_left :
      ltb_ℤ (pos 0) o.rate.max ≡ true
      → ltb_ℤ (pos (owner_rate_count db o.id now o.rate.per_seconds)) o.rate.max ≡ true
  pub leaf_rate_left :
      o.id ≡ leaf
      → ltb_ℤ (pos 0) rate_max ≡ true
      → ltb_ℤ (pos (owner_rate_count db o.id now rate_per_seconds)) rate_max ≡ true

abbrev rated : Signing → Db → ℕ → ℤ → ℤ → ℕ → Grant → Bool
rated key db leaf rate_max rate_per_seconds now owner =
    (ltb_ℤ (pos 0) owner.rate.max
      && not (ltb_ℤ (pos (owner_rate_count db owner.id now owner.rate.per_seconds)) owner.rate.max))
    || (owner.id == leaf
        && ltb_ℤ (pos 0) rate_max
        && not (ltb_ℤ (pos (owner_rate_count db owner.id now rate_per_seconds)) rate_max))

unrated :
    (a b c d e : Bool)
    → ((a && not b) || (c && d && not e)) ≡ false
    → (a ≡ true → b ≡ true) × (c ≡ true → d ≡ true → e ≡ true)
unrated true true true true true h = (λ x. refl, λ x y. refl)
unrated a b c d e h = (λ x. ground arith, λ x y. ground arith)

pub check_owner-IsAccepted :
    (key : Signing) (db : Db) (leaf amount : ℕ) (rate_max rate_per_seconds : ℤ)
    (effect_id : Option ℕ) (now : ℕ) (o : Grant)
    → check_owner key db leaf amount rate_max rate_per_seconds effect_id now o ≡ none
    → IsAccepted key db leaf amount rate_max rate_per_seconds effect_id now o
unfolding check_owner
check_owner-IsAccepted key db leaf amount rate_max rate_per_seconds effect_id now o h =
    elim (Bool-cases (permits_effect o effect_id)) [
      | inr barred ↦ cc (rw barred at h)
      | inl approved ↦ elim (Bool-cases (is_some o.approved_effect_ids && not (verify key o))) [
        | inl unsigned ↦ cc (rw (approved, unsigned) at h)
        | inr signed ↦ elim (Bool-cases (ltb 0 (overrun_of db o.id))) [
          | inl debt ↦ cc (rw (approved, signed, debt) at h)
          | inr free ↦ elim (Bool-cases (ltb o.budget.remaining amount)) [
            | inl short ↦ cc (rw (approved, signed, free, short) at h)
            | inr covered ↦ elim (Bool-cases (rated key db leaf rate_max rate_per_seconds now o)) [
              | inl over ↦ cc (rw (approved, signed, free, covered, over) at h)
              | inr under ↦
                  let (own, leafs) = unrated _ _ _ _ _ under in
                  record {
                    approved = approved;
                    signed = signed;
                    debt_free = ground arith;
                    covered = ground arith;
                    rate_left = own;
                    leaf_rate_left = λ at_leaf. leafs ((==_iff o.id leaf).1 at_leaf);
                  }
            ]
          ]
        ]
      ]
    ]
