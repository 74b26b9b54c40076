-- ===== src/Revocation.antt =====
-- src/actenon_permit/revocation.py: what a protected edge asks the store before it executes a proof.
-- `now` is the clock; the extensions of a proof are what they hold under "authority", if that is a
-- dictionary. The empty string is the identifier 0.
pub mod Ancestry
use actenon_permit.Base.{
  ℕ, zero, suc, Bool, true, false, not, ◌||◌, Option, none, some, List, [], ◌∷◌, leb, ◌==◌,
  if◌then◌else◌,
}
use actenon_permit.Base.Equality.{Text, text_eq, text_beq, nat_eq, contains}
use actenon_permit.Grant.{Grant, revoked, expired, status_beq}
use actenon_permit.Store.Tables.{Db}
use actenon_permit.Store.Queries.{get_grant}

-- `RevocationLookupError`, by its message
pub data LookupError : Type 0 where
  no_reference other_issuer no_grant_id cyclic_or_deep : LookupError
  unknown_grant : ℕ → LookupError

pub data Answer : Type 0 where
  raised : LookupError → Answer
  answered : Bool → Answer

-- `extensions["authority"]`; a member that is absent or no string is `none`.
pub record AuthorityReference : Type 0 where
  pub issuer : Option Text
  pub grant_id : Option ℕ

pub record StoreRevocationChecker : Type 0 where
  pub issuer : Text
  pub max_depth : ℕ

-- `grant.status in (REVOKED, EXPIRED) or grant.expires_at <= now`
unfoldable pub is_withdrawn : ℕ → Grant → Bool
unfolding status_beq
is_withdrawn now g =
    status_beq g.status revoked || status_beq g.status expired || leb g.expires_at now

-- The loop. `rounds` is max_depth - len(seen).
unfoldable pub check_ancestry : Db → ℕ → ℕ → List ℕ → Option ℕ → Answer
unfolding contains get_grant is_withdrawn
check_ancestry db now rounds seen none = answered true
check_ancestry db now zero seen (some current) = raised cyclic_or_deep
check_ancestry db now (suc rounds) seen (some current) =
    let above = λ (g : Grant). check_ancestry db now rounds (current ∷ seen) g.parent_grant_id in
    if contains current seen then raised cyclic_or_deep else elim (get_grant current db) [
      | none ↦ raised (unknown_grant current)
      | some g ↦ if is_withdrawn now g then answered false else above g
    ]

unfoldable pub same_issuer : Option Text → Text → Bool
unfolding text_beq
same_issuer none expected = false
same_issuer (some issuer) expected = text_beq issuer expected

unfoldable pub check_id : StoreRevocationChecker → Db → ℕ → Option ℕ → Answer
unfolding check_ancestry
check_id checker db now none = raised no_grant_id
check_id checker db now (some id) =
    if id == 0 then raised no_grant_id else check_ancestry db now checker.max_depth [] (some id)

-- `__call__`
unfoldable pub check_revocation :
    StoreRevocationChecker → Db → ℕ → Option AuthorityReference → Answer
unfolding check_id same_issuer
check_revocation checker db now none = raised no_reference
check_revocation checker db now (some authority) =
    if not (same_issuer authority.issuer checker.issuer)
    then raised other_issuer
    else check_id checker db now authority.grant_id
