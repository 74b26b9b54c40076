-- ===== src/Store/Accounting/Settling.antt =====
-- A settlement adjusts the balance of every charged owner once: debts are paid before authority is
-- restored, and what a balance cannot pay becomes debt.
use actenon_permit.Store.Accounting.Rows.{contains-owners_of}
use mathlib.Core.Path.{subst}
use actenon_permit.Base.{
  ℕ, ◌+◌, ◌≡◌, sym, ap, ◌∙◌, refl, true, false, Option, none, List, [], ◌∷◌, is_some, ◌==◌, arith,
  if◌then◌else◌, Option-cases, inl, inr, ◌⊎◌,
}
use actenon_permit.Base.Int.{ℤ, pos, pos_part, neg_part, +ℤ_parts, -ℤ_parts, ◌+ℤ◌, ◌-ℤ◌, negsuc}
use actenon_permit.Base.Equality.{contains, nat_eq}
use actenon_permit.Result.{
  ok, >>=-eq-ok, raise_if-eq-ok, ok-injective, out_of_range, ownership_missing,
}
use actenon_permit.Grant.{Grant}
use actenon_permit.Store.Tables.{Db, GrantRow, OwnerRow, owners_of, overrun_of, put_overrun}
use actenon_permit.Store.Reserve.{write_owner_balance}
use actenon_permit.Store.Settle.{
  settled_balance, settle_rows, owner_rows, settle_budget_owners, some_balance,
}
use actenon_permit.Store.Accounting.{balance_of, AreDistinct, balance_of_found}
use actenon_permit.Store.Accounting.Chain.{IsKeyed}
use actenon_permit.Store.Accounting.Reserving.{IsWritten, write_owner_balance_lem}

-- New balance and debt of one owner.
pub record IsAdjusted (g rem : ℕ) (adj : ℤ) (db : Db) (value : ℕ) (db' : Db) : Type 0 where
  pub noted : db' ≡ put_overrun g (overrun_of db' g) db
  pub paid : value + overrun_of db g + neg_part adj ≡ rem + overrun_of db' g + pos_part adj
  pub solvent : (value ≡ 0) ⊎ (overrun_of db' g ≡ 0)

one_part : (z : ℤ) → (pos_part z ≡ 0) ⊎ (neg_part z ≡ 0)
one_part (pos n) = inr refl
one_part (negsuc n) = inl refl

overrun-put_overrun :
    (g j debt : ℕ) (db : Db)
    → overrun_of (put_overrun g debt db) j ≡ (if j == g then debt else overrun_of db j)
unfolding overrun_of put_overrun
overrun-put_overrun g j debt db = ground arith

overrun-put_overrun_self : (g debt : ℕ) (db : Db) → overrun_of (put_overrun g debt db) g ≡ debt
overrun-put_overrun_self g debt db = overrun-put_overrun g g debt db ∙ ground arith

pub settled_balance_lem :
    (g rem : ℕ) (adj : ℤ) (db : Db) {value : ℕ} {db' : Db}
    → settled_balance g rem adj db ≡ ok (value, db')
    → IsAdjusted g rem adj db value db'
unfolding settled_balance
settled_balance_lem g rem adj db {value} {db'} h =
    let balance = pos rem -ℤ pos (overrun_of db g) +ℤ adj in
    let (small, e) = raise_if-eq-ok _ out_of_range _ h in
    let pair = ok-injective e in
    let is_value : pos_part balance ≡ value = ap (λ (p : ℕ × Db). p.0) pair in
    let is_db : put_overrun g (neg_part balance) db ≡ db' = ap (λ (p : ℕ × Db). p.1) pair in
    let debt : overrun_of db' g ≡ neg_part balance =
      ap (λ (d : Db). overrun_of d g) (sym is_db)
      ∙ overrun-put_overrun_self g (neg_part balance) db in
    record {
      noted = sym is_db ∙ ap (λ (n : ℕ). put_overrun g n db) (sym debt);
      paid = omega (
        arith,
        debt,
        is_value,
        +ℤ_parts (pos rem -ℤ pos (overrun_of db g)) adj,
        -ℤ_parts (pos rem) (pos (overrun_of db g)),
      );
      solvent = elim (one_part balance) [
        | inl empty ↦ inl (sym is_value ∙ empty)
        | inr clear ↦ inr (debt ∙ clear)
      ];
    }

abbrev pub AreUnique : List ℕ → Type 0
AreUnique [] = Unit
AreUnique (g ∷ gs) = (contains g gs ≡ false) × AreUnique gs

-- The rows stand in the store as they were fetched, under distinct ids.
abbrev pub AreRows : Db → List ℕ → List GrantRow → Type 0
AreRows db [] [] = Unit
AreRows db [] (row ∷ rows) = ⊥
AreRows db (g ∷ gs) [] = ⊥
AreRows db (g ∷ gs) (row ∷ rows) =
    (row.body.id ≡ g)
    × (is_some (db.grants g) ≡ true)
    × (balance_of db g ≡ row.remaining_units)
    × (contains g gs ≡ false)
    × AreRows db gs rows

pub owner_rows-AreRows :
    (db : Db) (gs : List ℕ) (rows : List GrantRow)
    → IsKeyed db
    → AreUnique gs
    → owner_rows db gs ≡ ok rows
    → AreRows db gs rows
unfolding owner_rows
owner_rows-AreRows db [] [] k u h = tt
owner_rows-AreRows db [] (row ∷ rows) k u h = cc
owner_rows-AreRows db (g ∷ gs) rows k u h = elim (Option-cases (db.grants g)) [
  | inl missing ↦ cc (rw (missing, owner_rows) at h)
  | inr (row, there) ↦
      let (rest, fetched, e) = >>=-eq-ok (owner_rows db gs) _ (rw (there, owner_rows) at h) in
      subst (AreRows db (g ∷ gs)) (ok-injective e) (
        k g row there,
        ap is_some there,
        balance_of_found db g row there,
        u.0,
        owner_rows-AreRows db gs rest k u.1 fetched,
      )
]

-- What a settlement has done, for every grant `j`.
pub record IsSettled (adj : ℤ) (gs : List ℕ) (db db' : Db) : Type 0 where
  pub events : db'.rate_events ≡ db.rate_events
  pub owners : db'.owners ≡ db.owners
  pub effects : db'.effects ≡ db.effects
  pub present : (j : ℕ) → is_some (db'.grants j) ≡ is_some (db.grants j)
  pub books :
      (j : ℕ)
      → balance_of db' j + overrun_of db j + (if contains j gs then neg_part adj else 0)
        ≡ balance_of db j + overrun_of db' j + (if contains j gs then pos_part adj else 0)
  pub untouched :
      (j : ℕ)
      → contains j gs ≡ false
      → (balance_of db' j ≡ balance_of db j) × (overrun_of db' j ≡ overrun_of db j)
  pub keyed : IsKeyed db → IsKeyed db'

AreRows-written :
    (g : Grant) (n debt : ℕ) (db db' : Db) (gs : List ℕ) (rows : List GrantRow)
    → IsWritten g n (put_overrun g.id debt db) db'
    → contains g.id gs ≡ false
    → AreRows db gs rows
    → AreRows db' gs rows
unfolding put_overrun balance_of contains
AreRows-written g n debt db db' [] [] w new a = tt
AreRows-written g n debt db db' [] (row ∷ rows) w new a = a
AreRows-written g n debt db db' (x ∷ gs) [] w new a = a
AreRows-written g n debt db db' (x ∷ gs) (row ∷ rows) w new a =
    ground (arith, w.present x, w.balances x, AreRows-written g n debt db db' gs rows w)

overrun_cong :
    (db db' : Db) (j : ℕ) → db.overruns ≡ db'.overruns → overrun_of db j ≡ overrun_of db' j
unfolding overrun_of
overrun_cong db db' j e = rw e

pub settle_rows_lem :
    (grant_id : ℕ) (adj : ℤ) (gs : List ℕ) (rows : List GrantRow) (found : Option ℕ) (db : Db)
    {found' : Option ℕ} {db' : Db}
    → AreRows db gs rows
    → settle_rows grant_id adj rows found db ≡ ok (found', db')
    → IsSettled adj gs db db'
unfolding settle_rows contains balance_of put_overrun
settle_rows_lem grant_id adj [] [] found db {found'} {db'} a h =
    let same : db ≡ db' = ap (λ (p : Option ℕ × Db). p.1) (ok-injective h) in
    subst (IsSettled adj [] db) same (record {
      events = refl;
      owners = refl;
      effects = refl;
      present = λ j. refl;
      books = λ j. omega arith;
      untouched = λ j other. (refl, refl);
      keyed = λ k. k;
    })
settle_rows_lem grant_id adj [] (row ∷ rows) found db a h = absurd a
settle_rows_lem grant_id adj (g ∷ gs) [] found db a h = absurd a
settle_rows_lem grant_id adj (g ∷ gs) (row ∷ rows) found db {found'} {db'} a h =
    let ((value, noted), first, rest) =
      >>=-eq-ok (settled_balance row.body.id row.remaining_units adj db) _ h in
    let (written, second, rest') =
      >>=-eq-ok (write_owner_balance row.body value true noted) _ rest in
    let s = settled_balance_lem row.body.id row.remaining_units adj db first in
    let w =
      subst (λ d. IsWritten row.body value d written) s.noted
        (write_owner_balance_lem row.body value true noted written second) in
    let debt = overrun_of noted row.body.id in
    let new : contains row.body.id gs ≡ false = rw a.0 a.3 in
    let ih =
      settle_rows_lem grant_id adj gs rows _ written
        (AreRows-written row.body value debt db written gs rows w new a.4) rest' in
    let debts : (j : ℕ)
        → overrun_of written j ≡ (if j == row.body.id then debt else overrun_of db j) =
      λ j.
        overrun_cong written (put_overrun row.body.id debt db) j w.debts
        ∙ overrun-put_overrun row.body.id j debt db in
    record {
      events = ih.events ∙ w.events;
      owners = ih.owners ∙ w.owners;
      effects = ih.effects ∙ w.effects;
      present = λ j. ih.present j ∙ w.present j;
      books = λ j. ground (arith, ih.books j, w.balances j, debts j, s.paid);
      untouched = λ j other. ground (arith, ih.untouched j, w.balances j, debts j);
      keyed = λ k. ih.keyed (w.keyed k);
    }

pub owners_of-AreUnique : (a : ℕ) (os : List OwnerRow) → AreDistinct os → AreUnique (owners_of a os)
unfolding owners_of
owners_of-AreUnique a [] d = tt
owners_of-AreUnique a (o ∷ os) d =
    ground (arith, contains-owners_of o.grant_id a os, owners_of-AreUnique a os d.1)

pub settle_budget_owners_lem :
    (grant_id a : ℕ) (adj : ℤ) (db : Db) {n : ℕ} {db' : Db}
    → IsKeyed db
    → AreDistinct db.owners
    → settle_budget_owners grant_id a adj db ≡ ok (n, db')
    → IsSettled adj (owners_of a db.owners) db db'
unfolding settle_budget_owners
settle_budget_owners_lem grant_id a adj db {n} {db'} k d h =
    let (rows, fetched, rest) = >>=-eq-ok (owner_rows db (owners_of a db.owners)) _ h in
    let (some_rows, rest') = raise_if-eq-ok _ ownership_missing _ rest in
    let (settled, run, rest'') = >>=-eq-ok (settle_rows grant_id adj rows none db) _ rest' in
    let (remaining, known, e) = >>=-eq-ok (some_balance settled.0) _ rest'' in
    let same : settled.1 ≡ db' = ap (λ (p : ℕ × Db). p.1) (ok-injective e) in
    let a_rows =
      owner_rows-AreRows db (owners_of a db.owners) rows k (owners_of-AreUnique a db.owners d)
        fetched in
    subst (IsSettled adj (owners_of a db.owners) db) same
      (settle_rows_lem grant_id adj (owners_of a db.owners) rows none db a_rows run)
