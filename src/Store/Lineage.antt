-- ===== src/Store/Lineage.antt =====
-- `_budget_lineage` of delegated_budget.py: the grant and its ancestors, whose budgets an action is
-- charged to.
use actenon_permit.Base.{
  ℕ, zero, suc, Bool, false, not, ◌&&◌, ◌||◌, none, some, List, [], ◌∷◌, length, any, ltb, leb,
  ◌==◌, if◌then◌else◌, Option,
}
use actenon_permit.Base.Int.{pos, ltb_ℤ, eqb_ℤ, ◌+ℤ◌}
use actenon_permit.Base.Equality.{text_eq, text_beq, nat_eq, contains, subset}
use actenon_permit.Result.{
  Result, ok, err, ◌>>=◌, ◌>>◌, raise_if, lineage_cyclic, ancestor_missing, owner_inactive,
  owner_expired, signature_invalid, widens_parent, no_root, index_error,
}
use actenon_permit.Grant.{
  Grant, active, exhausted, Signing, verify, status_beq, is_empty, effects_widen, get_or,
}
use actenon_permit.Store.Tables.{Db, GrantRow}

-- The test on a link of the chain: the child widens its parent in some respect.
unfoldable pub widens : Grant → Grant → Bool
widens child parent =
    not (text_beq child.budget.currency parent.budget.currency)
    || ltb parent.budget.limit child.budget.limit
    || ltb parent.expires_at child.expires_at
    || not (eqb_ℤ child.delegation_depth (parent.delegation_depth +ℤ pos 1))
    || not (subset child.scopes.allow parent.scopes.allow)
    || (is_empty child.scopes.allow && not (is_empty parent.scopes.allow))
    || not (subset parent.scopes.deny child.scopes.deny)
    || not (subset parent.approval_rules child.approval_rules)
    || (ltb_ℤ (pos 0) parent.rate.max
        && (eqb_ℤ child.rate.max (pos 0) || ltb_ℤ parent.rate.max child.rate.max))
    || ltb_ℤ child.rate.per_seconds parent.rate.per_seconds
    || effects_widen child.approved_effect_ids parent.approved_effect_ids

-- `for child, parent in zip(owners, owners[1:])`
unfoldable pub some_link_widens : List Grant → Bool
unfolding widens
some_link_widens [] = false
some_link_widens (child ∷ []) = false
some_link_widens (child ∷ parent ∷ rest) = widens child parent || some_link_widens (parent ∷ rest)

-- `Grant.model_validate_json(row[0])` with `budget.remaining` from the exact column
unfoldable pub load : GrantRow → Grant
load row =
    let budget = row.body.budget in
    record (row.body) { budget = record budget { remaining = row.remaining_units } }

-- How the chain is walked: `live` asks for usable owners, `dispatch` admits exhausted ones.
pub record Mode : Type 0 where
  pub live : Bool
  pub dispatch : Bool

-- The tests of the loop under `if live`.
unfoldable pub check_live : Mode → ℕ → Grant → Result (Unit {0})
unfolding status_beq
check_live mode now g = do
  raise_if
      (mode.live
        && not (status_beq g.status active || (mode.dispatch && status_beq g.status exhausted)))
      (owner_inactive g.id g.status)
  raise_if (mode.live && leb g.expires_at now) (owner_expired g.id)

-- One grant of the chain, given its row and what walks on from it.
unfoldable pub visit :
    Mode → ℕ → (Grant → Result (List Grant)) → Option GrantRow → Result (List Grant)
visit mode now walk_on none = err ancestor_missing
visit mode now walk_on (some row) = do
  check_live mode now (load row)
  above ← walk_on (load row)
  ok (load row ∷ above)

-- The loop. `rounds` is 64 - len(seen); 0 stands for a `next_id` of None or "".
unfoldable pub walk : Db → Mode → ℕ → ℕ → List ℕ → ℕ → Result (List Grant)
unfolding contains visit
walk db mode now zero seen next_id = if next_id == 0 then ok [] else err lineage_cyclic
walk db mode now (suc rounds) seen next_id =
    let walk_on =
      λ (g : Grant). walk db mode now rounds (next_id ∷ seen) (get_or g.parent_grant_id 0) in
    if next_id == 0
    then ok []
    else if contains next_id seen
    then err lineage_cyclic
    else visit mode now walk_on (db.grants next_id)

abbrev pub max_lineage : ℕ
max_lineage = 64

-- `owners[-1].delegation_depth != 0`
unfoldable pub check_root : List Grant → Result (Unit {0})
check_root [] = err index_error
check_root (g ∷ []) = raise_if (not (eqb_ℤ g.delegation_depth (pos 0))) no_root
check_root (g ∷ h ∷ rest) = check_root (h ∷ rest)

unfoldable pub budget_lineage : Signing → Db → Mode → ℕ → ℕ → Result (List Grant)
unfolding walk
budget_lineage key db mode now grant_id = do
  owners ← walk db mode now max_lineage [] grant_id
  raise_if (ltb 1 (length owners) && any (λ g. not (verify key g)) owners) signature_invalid
  raise_if (ltb 1 (length owners) && some_link_widens owners) widens_parent
  check_root owners
  ok owners
