-- ===== src/Revocation/Ancestry.antt =====
-- When the checker of src/actenon_permit/revocation.py vouches for a proof.
use actenon_permit.Base.{
  ℕ, zero, suc, ◌≡◌, ◌≢◌, ◌<◌, ◌≤◌, ◌↔◌, true, false, none, some, Option, List, [], ◌∷◌, refl,
  arith, sym, ◌∙◌, ◌==◌, ==_iff, Option-cases, Bool-cases, inl, inr, ap, All,
}
use mathlib.Core.Path.{subst}
use actenon_permit.Base.Equality.{contains, nat_eq}
use actenon_permit.Grant.{Grant, Status, revoked, status_beq}
use actenon_permit.Store.Tables.{Db, update_grant}
use actenon_permit.Store.Settle.{set_status}
use actenon_permit.Store.Queries.{get_grant}
use actenon_permit.Revocation.{
  AuthorityReference, answered, StoreRevocationChecker, is_withdrawn, check_ancestry,
  check_revocation, check_id, same_issuer,
}

-- The grant and all its ancestors, `n` of them, are in the store and none is withdrawn.
pub data IsStanding (db : Db) (now : ℕ) : ℕ → Option ℕ → Type 0 where
  root : IsStanding db now 0 none
  below :
      {n id : ℕ} (g : Grant)
      → get_grant id db ≡ some g
      → is_withdrawn now g ≡ false
      → IsStanding db now n g.parent_grant_id
      → IsStanding db now (suc n) (some id)

-- What the loop found in a grant that it walked past.
pub passed_grant :
    (db : Db) (now rounds : ℕ) (seen : List ℕ) (id : ℕ)
    → check_ancestry db now (suc rounds) seen (some id) ≡ answered true
    → (g : Grant) × (get_grant id db ≡ some g)
      × (is_withdrawn now g ≡ false)
      × (check_ancestry db now rounds (id ∷ seen) g.parent_grant_id ≡ answered true)
unfolding check_ancestry
passed_grant db now rounds seen id h = elim (Option-cases (get_grant id db)) [
  | inl absent ↦ ground (arith, rw absent at h)
  | inr (g, found) ↦ elim (Bool-cases (contains id seen)) [
    | inl cycle ↦ ground arith
    | inr fresh ↦ elim (Bool-cases (is_withdrawn now g)) [
      | inl gone ↦ ground (arith, rw (fresh, found, gone) at h)
      | inr stands ↦ (g, found, stands, rw (fresh, found, stands) at h)
    ]
  ]
]

check_ancestry-IsStanding :
    (db : Db) (now rounds : ℕ) (seen : List ℕ) (o : Option ℕ)
    → check_ancestry db now rounds seen o ≡ answered true
    → (n : ℕ) × (n ≤ rounds) × IsStanding db now n o
unfolding check_ancestry
check_ancestry-IsStanding db now rounds seen none h = (0, omega arith, root)
check_ancestry-IsStanding db now zero seen (some id) h = cc
check_ancestry-IsStanding db now (suc rounds) seen (some id) h =
    let (g, found, stands, above) = passed_grant db now rounds seen id h in
    let (n, small, rest) =
      check_ancestry-IsStanding db now rounds (id ∷ seen) g.parent_grant_id above in
    (suc n, omega (arith, small), below g found stands rest)

standing_root : {db : Db} {now n : ℕ} → IsStanding db now n none → n ≡ 0
standing_root root = refl

standing_link :
    {db : Db} {now n id : ℕ}
    → IsStanding db now n (some id)
    → (m : ℕ) × (g : Grant) × (n ≡ suc m)
      × (get_grant id db ≡ some g)
      × (is_withdrawn now g ≡ false)
      × IsStanding db now m g.parent_grant_id
standing_link (below {n = m} g found stands rest) = (m, g, refl, found, stands, rest)

-- A chain of parents has one length.
same_length :
    {db : Db} {now : ℕ} (n m : ℕ) (o : Option ℕ)
    → IsStanding db now n o
    → IsStanding db now m o
    → n ≡ m
same_length n m none p q = standing_root p ∙ sym (standing_root q)
same_length {db} {now} zero m (some id) p q =
    let (k, _, length_eq, _, _, _) = standing_link p in omega (arith, length_eq)
same_length {db} {now} (suc n) m (some id) p q =
    let (k, g, length_eq, found, _, rest) = standing_link p in
    let (k', g', length_eq', found', _, rest') = standing_link q in
    let same : g' ≡ g = (let both : some g' ≡ some g = sym found' ∙ found in cc) in
    let rest_eq : n ≡ k' =
      same_length n k' g.parent_grant_id
        (subst (λ (x : ℕ). IsStanding db now x g.parent_grant_id) (omega (arith, length_eq)) rest)
        (subst (λ (x : Grant). IsStanding db now k' x.parent_grant_id) same rest') in
    omega (arith, rest_eq, length_eq')

-- The grants seen so far stand at the foot of longer chains.
Longer : Db → ℕ → ℕ → List ℕ → Type 0
Longer db now n seen = All (λ id. (m : ℕ) × (n < m) × IsStanding db now m (some id)) seen

Longer-weaken :
    (db : Db) (now n k : ℕ) (seen : List ℕ) → k ≤ n → Longer db now n seen → Longer db now k seen
unfolding Longer
Longer-weaken db now n k [] small h = tt
Longer-weaken db now n k (x ∷ xs) small ((m, above, stands), rest) =
    ((m, omega (arith, small, above), stands), Longer-weaken db now n k xs small rest)

not_seen :
    {db : Db} {now : ℕ} (n id : ℕ) (seen : List ℕ)
    → IsStanding db now n (some id)
    → Longer db now n seen
    → contains id seen ≡ false
unfolding Longer contains
not_seen n id [] stands h = refl
not_seen {db} {now} n id (x ∷ xs) stands ((m, above, other_stands), rest) =
    elim (Bool-cases (id == x)) [
      | inr differs ↦ rw (differs, not_seen n id xs stands rest)
      | inl same ↦
          let lengths = same_length n m (some id) stands (
            subst (λ (y : ℕ). IsStanding db now m (some y)) (sym ((==_iff id x).0 same))
              other_stands) in
          ground (arith, lengths, above)
    ]

IsStanding-check_ancestry :
    (db : Db) (now n rounds : ℕ) (seen : List ℕ) (o : Option ℕ)
    → IsStanding db now n o
    → n ≤ rounds
    → Longer db now n seen
    → check_ancestry db now rounds seen o ≡ answered true
unfolding check_ancestry Longer
IsStanding-check_ancestry db now n rounds seen none p small h = refl
IsStanding-check_ancestry db now n zero seen (some id) p small h =
    let (k, _, length_eq, _, _, _) = standing_link p in ground (arith, length_eq, small)
IsStanding-check_ancestry db now n (suc rounds) seen (some id) p small h =
    let (k, g, length_eq, found, stands, rest) = standing_link p in
    let weaker = Longer-weaken db now n k seen (omega (arith, length_eq)) h in
    rw (not_seen n id seen p h, found, stands)
      (IsStanding-check_ancestry db now k rounds (id ∷ seen) g.parent_grant_id rest
        (omega (arith, length_eq, small)) ((n, omega (arith, length_eq), p), weaker))

-- The walk of the revocation checker vouches for a grant exactly when the grant and its ancestors, up
-- to a root and at most `max_depth` of them, are all stored and none is revoked, expired or out of
-- time.
pub check_ancestry_iff :
    (db : Db) (now max_depth : ℕ) (o : Option ℕ)
    → (check_ancestry db now max_depth [] o ≡ answered true)
      ↔ ((n : ℕ) × (n ≤ max_depth) × IsStanding db now n o)
unfolding Longer
check_ancestry_iff db now max_depth o = (
  check_ancestry-IsStanding db now max_depth [] o,
  λ (n, small, p). IsStanding-check_ancestry db now n max_depth [] o p small tt,
)

-- One of the two is the other or an ancestor of it, along the grants that are stored.
pub data IsAncestor (db : Db) (old : ℕ) : ℕ → Type 0 where
  itself : IsAncestor db old old
  further :
      {id parent : ℕ} (g : Grant)
      → get_grant id db ≡ some g
      → g.parent_grant_id ≡ some parent
      → IsAncestor db old parent
      → IsAncestor db old id

-- A change of status leaves the links of the chain.
get_grant-set_status :
    (j id : ℕ) (status : Status) (db : Db) (g : Grant)
    → get_grant j db ≡ some g
    → (g' : Grant) × (get_grant j (set_status id status db) ≡ some g')
      × (g'.parent_grant_id ≡ g.parent_grant_id)
unfolding get_grant set_status update_grant
get_grant-set_status j id status db g found = elim (Option-cases (db.grants j)) [
  | inl absent ↦ ground (arith, rw (absent, get_grant) at found)
  | inr (row, there) ↦
      let same : row.body ≡ g =
        (let both : some row.body ≡ some g = rw (there, get_grant) at found in cc) in
      let parents = ap (λ (x : Grant). x.parent_grant_id) same in
      elim (Bool-cases (j == id)) [
        | inl hit ↦ (
          record (row.body) { status = status },
          rw (hit, there, get_grant, set_status, update_grant) refl,
          parents,
        )
        | inr miss ↦ (row.body, rw (miss, there, get_grant, set_status, update_grant) refl, parents)
      ]
]

revoked_status :
    (id : ℕ) (db : Db) (g : Grant)
    → get_grant id (set_status id revoked db) ≡ some g
    → g.status ≡ revoked
unfolding get_grant set_status update_grant
revoked_status id db g found =
    let here : (id == id) ≡ true = (==_iff id id).1 refl in
    elim (Option-cases (db.grants id)) [
      | inl absent ↦
          (let no_row = rw (here, absent, get_grant, set_status, update_grant) at found in
            ground (arith, no_row))
      | inr (row, there) ↦
          let both = rw (here, there, get_grant, set_status, update_grant) at found in
          let same : record (row.body) { status = revoked } ≡ g = cc in
          sym (ap (λ (x : Grant). x.status) same)
    ]

not_standing :
    (db : Db) (now id : ℕ) (n : ℕ) (leaf : ℕ)
    → IsAncestor db id leaf
    → ¬ IsStanding (set_status id revoked db) now n (some leaf)
unfolding is_withdrawn status_beq
not_standing db now id n leaf itself p =
    let (k, g, _, found, stands, _) = standing_link p in
    let status = revoked_status id db g found in ground (arith, rw status at stands)
not_standing db now id n leaf (further {parent = parent} g found up old) p =
    let (k, g', _, found', _, rest) = standing_link p in
    let (g'', there, links) = get_grant-set_status leaf id revoked db g found in
    let same : g' ≡ g'' = (let both : some g' ≡ some g'' = sym found' ∙ there in cc) in
    let above = ap (λ (x : Grant). x.parent_grant_id) same ∙ links ∙ up in
    not_standing db now id k parent old
      (subst (λ (x : Option ℕ). IsStanding (set_status id revoked db) now k x) above rest)

refused_id :
    (checker : StoreRevocationChecker) (db : Db) (now id leaf : ℕ)
    → IsAncestor db id leaf
    → check_id checker (set_status id revoked db) now (some leaf) ≢ answered true
unfolding check_id
refused_id checker db now id leaf old vouched = elim (Bool-cases (leaf == 0)) [
  | inl empty ↦ ground (arith, rw empty at vouched)
  | inr named ↦
      let (n, _, stands) =
        check_ancestry-IsStanding _ now checker.max_depth [] (some leaf) (rw named at vouched) in
      not_standing db now id n leaf old stands
]

-- Once a grant is set to revoked, the checker vouches for no proof of that grant or of one that
-- descends from it.
pub check_revocation-revoked :
    (checker : StoreRevocationChecker) (db : Db) (now id leaf : ℕ) (authority : AuthorityReference)
    → authority.grant_id ≡ some leaf
    → IsAncestor db id leaf
    → check_revocation checker (set_status id revoked db) now (some authority) ≢ answered true
unfolding check_revocation
check_revocation-revoked checker db now id leaf authority names old vouched =
    elim (Bool-cases (same_issuer authority.issuer checker.issuer)) [
      | inl ours ↦ refused_id checker db now id leaf old (rw (ours, names) at vouched)
      | inr foreign ↦ ground (arith, rw foreign at vouched)
    ]
