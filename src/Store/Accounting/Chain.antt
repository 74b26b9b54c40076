-- ===== src/Store/Accounting/Chain.antt =====
-- What the walk through the ancestors has read: existing rows, each once.
use actenon_permit.Base.{
  ℕ, zero, suc, ◌≡◌, sym, ◌≤◌, refl, Bool, true, false, ◌||◌, Option, none, some, List, [], ◌∷◌,
  is_some, ◌==◌, arith, Bool-cases, inl, inr, All, length, ap, ◌∙◌, ltb, ◌&&◌, any, not,
}
use actenon_permit.Base.Equality.{nat_eq, contains}
use actenon_permit.Result.{
  Result, ok, >>=-eq-ok, signature_invalid, widens_parent, raise_if-eq-ok, ok-injective,
}
use actenon_permit.Grant.{Grant, get_or, Signing, verify}
use actenon_permit.Store.Tables.{Db, GrantRow}
use actenon_permit.Store.Lineage.{
  Mode, walk, visit, load, check_live, budget_lineage, max_lineage, some_link_widens, check_root,
}
use actenon_permit.Store.Accounting.{balance_of, balance_of_found}

-- whether a grant of the list has this id
abbrev pub has_id : ℕ → List Grant → Bool
has_id g [] = false
has_id g (o ∷ os) = o.id == g || has_id g os

-- The grant stands in the store with the balance that it was read with.
abbrev pub IsLoaded : Db → Grant → Type 0
IsLoaded db o = (is_some (db.grants o.id) ≡ true) × (balance_of db o.id ≡ o.budget.remaining)

-- No id occurs twice, nor among the ids seen before.
abbrev pub AreFresh : List ℕ → List Grant → Type 0
AreFresh seen [] = Unit
AreFresh seen (o ∷ os) = (contains o.id seen ≡ false) × AreFresh (o.id ∷ seen) os

abbrev pub HaveDistinctIds : List Grant → Type 0
HaveDistinctIds [] = Unit
HaveDistinctIds (o ∷ os) = (has_id o.id os ≡ false) × HaveDistinctIds os

has_id_of_AreFresh :
    (g : ℕ) (seen : List ℕ) (os : List Grant)
    → contains g seen ≡ true
    → AreFresh seen os
    → has_id g os ≡ false
unfolding contains
has_id_of_AreFresh g seen [] m f = refl
has_id_of_AreFresh g seen (o ∷ os) m f = ground (arith, has_id_of_AreFresh g (o.id ∷ seen) os)

pub AreFresh-HaveDistinctIds :
    (seen : List ℕ) (os : List Grant) → AreFresh seen os → HaveDistinctIds os
unfolding contains
AreFresh-HaveDistinctIds seen [] f = tt
AreFresh-HaveDistinctIds seen (o ∷ os) f =
    ground (
      arith,
      has_id_of_AreFresh o.id (o.id ∷ seen) os,
      AreFresh-HaveDistinctIds (o.id ∷ seen) os f.1,
    )

abbrev pub IsKeyed : Db → Type 0
IsKeyed db = (k : ℕ) (row : GrantRow) → db.grants k ≡ some row → row.body.id ≡ k

visit_lem :
    (mode : Mode) (now : ℕ) (walk_on : Grant → Result (List Grant)) (found : Option GrantRow)
    {o : Grant} {os : List Grant}
    → visit mode now walk_on found ≡ ok (o ∷ os)
    → ((row : GrantRow) × (found ≡ some row) × (o ≡ load row))
      × (check_live mode now o ≡ ok tt)
      × (walk_on o ≡ ok os)
unfolding visit
visit_lem mode now walk_on none h = cc
visit_lem mode now walk_on (some row) {o} {os} h =
    let (_, checked, rest) = >>=-eq-ok (check_live mode now (load row)) _ h in
    let (above, walked, e) = >>=-eq-ok (walk_on (load row)) _ rest in
    let same : load row ≡ o = ground arith in
    let same_rest : above ≡ os = ground arith in
    ((row, refl, sym same), rw (← same) checked, rw (← same, ← same_rest) walked)

-- One round that found its grant: what was read, and the walk from its parent.
pub walk_round :
    (db : Db) (mode : Mode) (now rounds : ℕ) (seen : List ℕ) (next_id : ℕ) {o : Grant}
    {os : List Grant}
    → walk db mode now (suc rounds) seen next_id ≡ ok (o ∷ os)
    → (contains next_id seen ≡ false)
      × ((row : GrantRow) × (db.grants next_id ≡ some row) × (o ≡ load row))
      × (check_live mode now o ≡ ok tt)
      × (walk db mode now rounds (next_id ∷ seen) (get_or o.parent_grant_id 0) ≡ ok os)
unfolding walk
walk_round db mode now rounds seen next_id {o} {os} h = elim (Bool-cases (next_id == 0)) [
  | inl stop ↦ cc (rw stop at h)
  | inr go ↦ elim (Bool-cases (contains next_id seen)) [
    | inl cyclic ↦ cc (rw (go, cyclic) at h)
    | inr new ↦
        let (read, checked, walked) =
          visit_lem mode now
            (λ (g : Grant). walk db mode now rounds (next_id ∷ seen) (get_or g.parent_grant_id 0))
            (db.grants next_id) (rw (go, new) at h) in
        (new, read, checked, walked)
  ]
]

-- The owners were read from the store, each once and at most as many as there were rounds.
pub walk_sound :
    (db : Db) (mode : Mode) (now rounds : ℕ) (seen : List ℕ) (next_id : ℕ) (os : List Grant)
    → IsKeyed db
    → walk db mode now rounds seen next_id ≡ ok os
    → All (IsLoaded db) os × AreFresh seen os × (length os ≤ rounds)
unfolding balance_of load
walk_sound db mode now rounds seen next_id [] k h = (tt, tt, omega arith)
walk_sound db mode now zero seen next_id (o ∷ os) k h = unfold walk in ground arith
walk_sound db mode now (suc rounds) seen next_id (o ∷ os) k h =
    let (new, (row, found, read), checked, walked) = walk_round db mode now rounds seen next_id h in
    let at_id : o.id ≡ next_id = ap (λ (g : Grant). g.id) read ∙ k next_id row found in
    let (loaded, fresh, short) =
      walk_sound db mode now rounds (next_id ∷ seen) (get_or o.parent_grant_id 0) os k walked in
    let exact : row.remaining_units ≡ o.budget.remaining =
      sym (ap (λ (g : Grant). g.budget.remaining) read) in
    (
      ((rw (at_id, found), rw at_id (balance_of_found db next_id row found ∙ exact)), loaded),
      (rw at_id new, rw at_id fresh),
      omega arith,
    )

-- What a lineage that was accepted has passed.
pub budget_lineage_lem :
    (key : Signing) (db : Db) (mode : Mode) (now grant_id : ℕ) (owners : List Grant)
    → budget_lineage key db mode now grant_id ≡ ok owners
    → (walk db mode now max_lineage [] grant_id ≡ ok owners)
      × ((ltb 1 (length owners) && any (λ g. not (verify key g)) owners) ≡ false)
      × ((ltb 1 (length owners) && some_link_widens owners) ≡ false)
      × (check_root owners ≡ ok tt)
unfolding budget_lineage
budget_lineage_lem key db mode now grant_id owners h =
    let (os, walked, rest) = >>=-eq-ok (walk db mode now max_lineage [] grant_id) _ h in
    let (signed, rest') = raise_if-eq-ok _ signature_invalid _ rest in
    let (narrow, rest'') = raise_if-eq-ok _ widens_parent _ rest' in
    let (_, rooted, e) = >>=-eq-ok (check_root os) _ rest'' in
    let same : os ≡ owners = ok-injective e in
    (rw (← same) walked, rw (← same) signed, rw (← same) narrow, rw (← same) rooted)
