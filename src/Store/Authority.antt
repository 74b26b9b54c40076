-- ===== src/Store/Authority.antt =====
-- What a lineage that `_budget_lineage` of delegated_budget.py accepts is worth: the owners are
-- stored, distinct, usable and signed, and no owner exceeds one further up.
use actenon_permit.Base.{
  ℕ, zero, suc, ◌≡◌, ◌≤◌, arith, inl, inr, All, List, [], ◌∷◌, length, any, not, ltb, ◌||◌,
  Bool-cases, true, false, Bool,
}
use actenon_permit.Result.{ok}
use actenon_permit.Grant.{Grant, Signing, verify, get_or}
use actenon_permit.Store.Tables.{Db}
use actenon_permit.Store.Lineage.{
  Mode, walk, budget_lineage, check_live, max_lineage, widens, some_link_widens, check_root,
}
use actenon_permit.Store.Accounting.Chain.{
  IsKeyed, IsLoaded, HaveDistinctIds, AreFresh-HaveDistinctIds, walk_round, walk_sound,
  budget_lineage_lem,
}

-- Limit and expiry of `g` are within those of `above`.
pub record IsWithin (g above : Grant) : Type 0 where
  pub limit : g.budget.limit ≤ above.budget.limit
  pub expiry : g.expires_at ≤ above.expires_at

-- Every grant is within each one further up.
abbrev pub AreNested : List Grant → Type 0
AreNested [] = Unit
AreNested (g ∷ above) = All (IsWithin g) above × AreNested above

pub record IsLineage (key : Signing) (db : Db) (mode : Mode) (now : ℕ) (owners : List Grant)
    : Type 0 where
  pub loaded : All (IsLoaded db) owners
  pub distinct : HaveDistinctIds owners
  pub bounded : length owners ≤ max_lineage
  pub usable : All (λ o. check_live mode now o ≡ ok tt) owners
  pub signed : ltb 1 (length owners) ≡ true → All (λ o. verify key o ≡ true) owners
  pub nested : AreNested owners
  pub rooted : check_root owners ≡ ok tt

walk-usable :
    (db : Db) (mode : Mode) (now rounds : ℕ) (seen : List ℕ) (next_id : ℕ) (os : List Grant)
    → walk db mode now rounds seen next_id ≡ ok os
    → All (λ o. check_live mode now o ≡ ok tt) os
walk-usable db mode now rounds seen next_id [] h = tt
walk-usable db mode now zero seen next_id (o ∷ os) h = unfold walk in ground arith
walk-usable db mode now (suc rounds) seen next_id (o ∷ os) h =
    let (_, _, usable, walked) = walk_round db mode now rounds seen next_id h in
    (usable, walk-usable db mode now rounds (next_id ∷ seen) (get_or o.parent_grant_id 0) os walked)

all_verified :
    (key : Signing) (os : List Grant)
    → any (λ g. not (verify key g)) os ≡ false
    → All (λ o. verify key o ≡ true) os
all_verified key [] h = tt
all_verified key (o ∷ os) h = ground (arith, all_verified key os)

widens-IsWithin : (child parent : Grant) → widens child parent ≡ false → IsWithin child parent
unfolding widens
widens-IsWithin child parent h = record { limit = ground arith; expiry = ground arith }

IsWithin-trans :
    (a b : Grant) (os : List Grant) → IsWithin a b → All (IsWithin b) os → All (IsWithin a) os
IsWithin-trans a b [] w all = tt
IsWithin-trans a b (o ∷ os) w all = (
  record {
    limit = omega (arith, w.limit, all.0.limit);
    expiry = omega (arith, w.expiry, all.0.expiry);
  },
  IsWithin-trans a b os w all.1,
)

or-false : (a b : Bool) → (a || b) ≡ false → (a ≡ false) × (b ≡ false)
or-false a b h = ground arith

links-AreNested : (os : List Grant) → some_link_widens os ≡ false → AreNested os
unfolding some_link_widens
links-AreNested [] h = tt
links-AreNested (a ∷ []) h = (tt, tt)
links-AreNested (a ∷ b ∷ os) h =
    let (link, rest) = or-false _ _ h in
    let above = links-AreNested (b ∷ os) rest in
    let within = widens-IsWithin a b link in ((within, IsWithin-trans a b os within above.0), above)

short-AreNested : (os : List Grant) → ltb 1 (length os) ≡ false → AreNested os
short-AreNested [] h = tt
short-AreNested (a ∷ []) h = (tt, tt)
short-AreNested (a ∷ b ∷ os) h = ground arith

-- In tables whose grants stand under their ids, a lineage that `_budget_lineage` accepts has at most
-- 64 owners, all stored with the balance that was read, with distinct ids, each passing the test of
-- its status and expiry; each verifies if there are several; limit and expiry of each are within those
-- of every owner further up; and the last one has depth 0.
pub budget_lineage-IsLineage :
    (key : Signing) (db : Db) (mode : Mode) (now grant_id : ℕ) (owners : List Grant)
    → IsKeyed db
    → budget_lineage key db mode now grant_id ≡ ok owners
    → IsLineage key db mode now owners
budget_lineage-IsLineage key db mode now grant_id owners k h =
    let (walked, signed, narrow, rooted) = budget_lineage_lem key db mode now grant_id owners h in
    let (loaded, fresh, short) = walk_sound db mode now max_lineage [] grant_id owners k walked in
    record {
      loaded = loaded;
      distinct = AreFresh-HaveDistinctIds [] owners fresh;
      bounded = short;
      usable = walk-usable db mode now max_lineage [] grant_id owners walked;
      signed = λ long. all_verified key owners (rw long at signed);
      nested = elim (Bool-cases (ltb 1 (length owners))) [
        | inl long ↦ links-AreNested owners (rw long at narrow)
        | inr single ↦ short-AreNested owners single
      ];
      rooted = rooted;
    }
