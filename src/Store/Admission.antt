-- ===== src/Store/Admission.antt =====
-- `put_grant` of src/actenon_permit/state.py: a grant is entered once. Importing it again attaches a
-- missing signature at most.
use mathlib.Core.Path.{subst}
use actenon_permit.Base.{
  ℕ, ◌≡◌, ◌≢◌, ◌≤◌, refl, sym, ◌∙◌, arith, inl, inr, ◌⊎◌, Bool, true, false, not, ◌&&◌, ◌||◌,
  Option, none, some, List, [], ◌∷◌, ◌==◌, if◌then◌else◌, ltb, Bool-cases, Option-cases,
}
use actenon_permit.Base.Int.{eqb_ℤ}
use actenon_permit.Base.Equality.{text_beq}
use actenon_permit.Result.{
  Result, ok, err, ◌>>◌, raise_if, authority_changed, remaining_above_limit, Result-cases,
  >>=-eq-ok, raise_if-eq-ok, ok-injective,
}
use actenon_permit.Grant.{Grant, Authority, authority_payload, Signing, verify}
use actenon_permit.Store.Tables.{Db, GrantRow, update_grant}
use actenon_permit.Store.Reserve.{check_units}

unfoldable pub list_beq {ℓ} : {A : Type ℓ} → (A → A → Bool) → List A → List A → Bool
list_beq beq [] [] = true
list_beq beq (x ∷ xs) (y ∷ ys) = beq x y && list_beq beq xs ys
list_beq beq xs ys = false

unfoldable pub same_option {ℓ} : {A : Type ℓ} → (A → A → Bool) → Option A → Option A → Bool
same_option beq none none = true
same_option beq (some a) (some b) = beq a b
same_option beq o p = false

-- `canonical_json(stored._signing_payload()) == canonical_json(frozen._signing_payload())`
unfoldable pub authority_beq : Authority → Authority → Bool
unfolding list_beq same_option text_beq
authority_beq a b =
    a.id == b.id
    && text_beq a.agent_id b.agent_id
    && a.issued_at == b.issued_at
    && a.expires_at == b.expires_at
    && list_beq text_beq a.scopes.allow b.scopes.allow
    && list_beq text_beq a.scopes.deny b.scopes.deny
    && text_beq a.currency b.currency
    && a.limit == b.limit
    && eqb_ℤ a.rate.max b.rate.max
    && eqb_ℤ a.rate.per_seconds b.rate.per_seconds
    && list_beq text_beq a.approval_rules b.approval_rules
    && same_option ◌==◌ a.parent_grant_id b.parent_grant_id
    && eqb_ℤ a.delegation_depth b.delegation_depth
    && same_option (list_beq ◌==◌) a.approved_effect_ids b.approved_effect_ids

-- `INSERT INTO grants`
unfoldable pub insert_grant : Grant → Db → Db
insert_grant g db = record db {
  grants = λ j.
      if j == g.id
      then some (record { body = g; status = g.status; remaining_units = g.budget.remaining })
      else db.grants j;
}

unfoldable pub attach_signature : ℕ → GrantRow → GrantRow
attach_signature signature row = record row { body = record (row.body) { signature = signature } }

-- The import of a grant that is stored already.
unfoldable pub import_again : Signing → Grant → GrantRow → Db → Result Db
import_again key frozen row db = do
  raise_if (not (authority_beq (authority_payload row.body) (authority_payload frozen)))
      authority_changed
  if row.body.signature == frozen.signature
      then ok db
      else raise_if (not (row.body.signature == 0) || not (verify key frozen)) authority_changed
        >> ok (update_grant frozen.id (attach_signature frozen.signature) db)

-- The first import.
unfoldable pub import_first : Grant → Db → Result Db
unfolding check_units insert_grant
import_first frozen db = do
  check_units frozen.budget.remaining
  check_units frozen.budget.limit
  raise_if (ltb frozen.budget.limit frozen.budget.remaining) remaining_above_limit
  ok (insert_grant frozen db)

unfoldable pub admit : Signing → Grant → Db → Result Db
admit key frozen db = elim (db.grants frozen.id) [
  | none ↦ import_first frozen db
  | some row ↦ import_again key frozen row db
]

unfoldable pub put_grant : Signing → Grant → Db → Result (Unit {0}) × Db
put_grant key frozen db = elim (admit key frozen db) [ ok db' ↦ (ok tt, db') | err e ↦ (err e, db) ]

-- A row after an import: as it was, or with a signature that it did not have and that verifies.
pub data IsReimported (key : Signing) (frozen : Grant) (row : GrantRow) : GrantRow → Type 0 where
  kept : IsReimported key frozen row row
  signed :
      row.body.signature ≡ 0
      → verify key frozen ≡ true
      → authority_beq (authority_payload row.body) (authority_payload frozen) ≡ true
      → IsReimported key frozen row (attach_signature frozen.signature row)

-- What an import of a grant may do to the grants.
pub record IsAdmitted (key : Signing) (frozen : Grant) (db db' : Db) : Type 0 where
  pub rest : db' ≡ record db { grants = db'.grants }
  pub elsewhere : (j : ℕ) → j ≢ frozen.id → db'.grants j ≡ db.grants j
  pub stored :
      (row : GrantRow)
      → db.grants frozen.id ≡ some row
      → (row' : GrantRow) × (db'.grants frozen.id ≡ some row') × IsReimported key frozen row row'
  pub entered :
      db.grants frozen.id ≡ none
      → (db'.grants frozen.id ≡ none)
        ⊎ ((frozen.budget.remaining ≤ frozen.budget.limit)
            × (db'.grants frozen.id
                ≡ some (record {
                  body = frozen;
                  status = frozen.status;
                  remaining_units = frozen.budget.remaining;
                })))

some_row-injective : {r r' : GrantRow} → some r ≡ some r' → r ≡ r'
some_row-injective h = cc

unchanged : (key : Signing) (frozen : Grant) (db : Db) → IsAdmitted key frozen db db
unchanged key frozen db = record {
  rest = refl;
  elsewhere = λ j other. refl;
  stored = λ row found. (row, found, kept);
  entered = λ missing. inl missing;
}

insert_grant-IsAdmitted :
    (key : Signing) (frozen : Grant) (db : Db)
    → db.grants frozen.id ≡ none
    → frozen.budget.remaining ≤ frozen.budget.limit
    → IsAdmitted key frozen db (insert_grant frozen db)
unfolding insert_grant
insert_grant-IsAdmitted key frozen db missing within = record {
  rest = refl;
  elsewhere = λ j different. ground arith;
  stored = λ row found. ground arith;
  entered = λ _. inr (within, ground arith);
}

attach_signature-IsAdmitted :
    (key : Signing) (frozen : Grant) (row : GrantRow) (db : Db)
    → db.grants frozen.id ≡ some row
    → row.body.signature ≡ 0
    → verify key frozen ≡ true
    → authority_beq (authority_payload row.body) (authority_payload frozen) ≡ true
    → IsAdmitted key frozen db (update_grant frozen.id (attach_signature frozen.signature) db)
unfolding update_grant
attach_signature-IsAdmitted key frozen row db there unsigned valid same = record {
  rest = refl;
  elsewhere = λ j different. ground arith;
  stored = λ old found.
      let is_row : row ≡ old = some_row-injective (sym there ∙ found) in
      subst
        (λ (r : GrantRow).
          (row' : GrantRow) × ((update_grant frozen.id (attach_signature frozen.signature)
                db).grants
              frozen.id
            ≡ some row')
          × IsReimported key frozen r row')
        is_row
        (
          attach_signature frozen.signature row,
          (rw there (ground arith)),
          signed unsigned valid same,
        );
  entered = λ missing. ground arith;
}

import_first-IsAdmitted :
    (key : Signing) (frozen : Grant) (db : Db) {db' : Db}
    → db.grants frozen.id ≡ none
    → import_first frozen db ≡ ok db'
    → IsAdmitted key frozen db db'
unfolding import_first
import_first-IsAdmitted key frozen db {db'} missing h =
    let (_, _, r1) = >>=-eq-ok (check_units frozen.budget.remaining) _ h in
    let (_, _, r2) = >>=-eq-ok (check_units frozen.budget.limit) _ r1 in
    let (within, r3) = raise_if-eq-ok _ remaining_above_limit _ r2 in
    subst (IsAdmitted key frozen db) (ok-injective r3)
      (insert_grant-IsAdmitted key frozen db missing (ground arith))

import_again-IsAdmitted :
    (key : Signing) (frozen : Grant) (row : GrantRow) (db : Db) {db' : Db}
    → db.grants frozen.id ≡ some row
    → import_again key frozen row db ≡ ok db'
    → IsAdmitted key frozen db db'
unfolding import_again
import_again-IsAdmitted key frozen row db {db'} there h =
    let (same, r1) =
      raise_if-eq-ok (not (authority_beq (authority_payload row.body) (authority_payload frozen)))
        authority_changed
        (if row.body.signature == frozen.signature
          then ok db
          else raise_if (not (row.body.signature == 0) || not (verify key frozen)) authority_changed
            >> ok (update_grant frozen.id (attach_signature frozen.signature) db))
        h in
    elim (Bool-cases (row.body.signature == frozen.signature)) [
      | inl equal ↦
          subst (IsAdmitted key frozen db) (ok-injective (rw equal at r1)) (unchanged key frozen db)
      | inr differs ↦
          let (unsigned, r2) =
            raise_if-eq-ok (not (row.body.signature == 0) || not (verify key frozen))
              authority_changed _ (rw differs at r1) in
          subst (IsAdmitted key frozen db) (ok-injective r2) (
            attach_signature-IsAdmitted key frozen row db there (ground arith) (ground arith)
              (ground arith))
    ]

admit-IsAdmitted :
    (key : Signing) (frozen : Grant) (db db' : Db)
    → admit key frozen db ≡ ok db'
    → IsAdmitted key frozen db db'
unfolding admit
admit-IsAdmitted key frozen db db' h = elim (Option-cases (db.grants frozen.id)) [
  | inl missing ↦ import_first-IsAdmitted key frozen db missing (rw (missing, admit) at h)
  | inr (row, there) ↦ import_again-IsAdmitted key frozen row db there (rw (there, admit) at h)
]

-- `put_grant` changes nothing but the grant of that id. If it is stored, its row stays as it is, with
-- its status and its balance, or is given a signature: it had none, the given grant verifies, and
-- their signed fields agree. If it is not stored, it is entered as given, with a balance within its
-- limit, or not at all.
pub put_grant-IsAdmitted :
    (key : Signing) (frozen : Grant) (db : Db)
    → IsAdmitted key frozen db (put_grant key frozen db).1
unfolding put_grant
put_grant-IsAdmitted key frozen db = elim (Result-cases (admit key frozen db)) [
  | inl (db', done) ↦ rw (done, put_grant) (admit-IsAdmitted key frozen db db' done)
  | inr (e, failed) ↦ rw (failed, put_grant) (unchanged key frozen db)
]
