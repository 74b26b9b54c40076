-- ===== src/Store/Delegation.antt =====
-- `Grant.attenuate` against the store's own test of a delegation: what it derives is narrower.
use mathlib.Core.Path.{subst}
use actenon_permit.Base.{
  ℕ, ◌≡◌, ◌≤◌, refl, ap, arith, some, true, false, if◌then◌else◌, not, ◌&&◌, ◌||◌, ltb, Bool, leb,
  [],
}
use actenon_permit.Base.Int.{ℤ, pos, ◌+ℤ◌, ltb_ℤ, eqb_ℤ}
use actenon_permit.Base.Equality.{Text, text_beq, text_beq_iff, subset, text_eq}
use actenon_permit.Result.{
  ok, >>=-eq-ok, raise_if-eq-ok, ok-injective, extends_expiry, widens_allow, empties_allow,
  raises_budget, negative_rate, raises_rate, shortens_window, widens_effects,
}
use actenon_permit.Grant.{
  Grant, Attenuation, Signing, attenuate, verify, sign, get_or, is_empty, effects_widen, or_else,
  check_effect_ids, active,
}
use actenon_permit.Grant.Sets.{subset-sorted_set_append, subset-extend_rules}
use actenon_permit.Grant.Signature.{verify-sign}
use actenon_permit.Store.Lineage.{widens}

text_beq_refl : (t : Text) → text_beq t t ≡ true
text_beq_refl t = (text_beq_iff t t).1 refl

eqb_ℤ-refl : (z : ℤ) → eqb_ℤ z z ≡ true
eqb_ℤ-refl z = ground arith

-- Two Boolean tests, none of which fires.
or_false : {a b : Bool} → a ≡ false → b ≡ false → (a || b) ≡ false
or_false {a} {b} p q = rw (p, q) refl

not_widened :
    (child parent : Grant)
    → text_beq child.budget.currency parent.budget.currency ≡ true
    → ltb parent.budget.limit child.budget.limit ≡ false
    → ltb parent.expires_at child.expires_at ≡ false
    → eqb_ℤ child.delegation_depth (parent.delegation_depth +ℤ pos 1) ≡ true
    → not (subset child.scopes.allow parent.scopes.allow) ≡ false
    → (is_empty child.scopes.allow && not (is_empty parent.scopes.allow)) ≡ false
    → subset parent.scopes.deny child.scopes.deny ≡ true
    → subset parent.approval_rules child.approval_rules ≡ true
    → (ltb_ℤ (pos 0) parent.rate.max
        && (eqb_ℤ child.rate.max (pos 0) || ltb_ℤ parent.rate.max child.rate.max))
      ≡ false
    → ltb_ℤ child.rate.per_seconds parent.rate.per_seconds ≡ false
    → effects_widen child.approved_effect_ids parent.approved_effect_ids ≡ false
    → widens child parent ≡ false
unfolding widens
not_widened child parent currency limit expiry depth allow nonempty deny rules rate window effects =
    or_false
      (or_false
        (or_false
          (or_false
            (or_false
              (or_false
                (or_false
                  (or_false (or_false (or_false (ap not currency) limit) expiry) (ap not depth))
                  allow)
                nonempty)
              (ap not deny))
            (ap not rules))
          rate)
        window)
      effects

no_raise :
    (remaining limit asked : ℕ)
    → remaining ≤ limit
    → ltb remaining asked ≡ false
    → ltb limit asked ≡ false
no_raise remaining limit asked sound kept = ground arith

smaller :
    (remaining asked : ℕ)
    → ltb remaining asked ≡ false
    → leb (if ltb remaining asked then remaining else asked) remaining ≡ true
smaller remaining asked kept = ground arith

-- If the balance of a grant is within its limit, a child that `attenuate` derives from it passes the
-- store's test of a delegation: it widens its parent in no respect.
pub attenuate-narrows :
    (key : Signing) (g : Grant) (a : Attenuation) (new_id now : ℕ) (child : Grant)
    → g.budget.remaining ≤ g.budget.limit
    → attenuate key g a new_id now ≡ ok child
    → widens child g ≡ false
unfolding attenuate sign
attenuate-narrows key g a new_id now child sound h =
    let (expiry, r1) = raise_if-eq-ok _ extends_expiry _ h in
    let (allow, r2) = raise_if-eq-ok _ widens_allow _ r1 in
    let (nonempty, r3) = raise_if-eq-ok _ empties_allow _ r2 in
    let (budget, r4) = raise_if-eq-ok _ raises_budget _ r3 in
    let (_, r5) = raise_if-eq-ok _ negative_rate _ r4 in
    let (rate, r6) = raise_if-eq-ok _ raises_rate _ r5 in
    let (window, r7) = raise_if-eq-ok _ shortens_window _ r6 in
    let (effects, r8) = raise_if-eq-ok _ widens_effects _ r7 in
    let (_, _, r9) =
      >>=-eq-ok (check_effect_ids (or_else a.approved_effect_ids g.approved_effect_ids)) _ r8 in
    subst (λ (c : Grant). widens c g ≡ false) (ok-injective r9)
      (not_widened _ g (text_beq_refl g.budget.currency)
        (no_raise g.budget.remaining g.budget.limit _ sound budget) expiry
        (eqb_ℤ-refl (g.delegation_depth +ℤ pos 1)) allow nonempty
        (subset-sorted_set_append g.scopes.deny (get_or a.scopes_deny []))
        (subset-extend_rules g.approval_rules a.extra_approval_rules) rate window effects)

-- The last steps of `attenuate`.
attenuate-is_signed :
    (key : Signing) (g : Grant) (a : Attenuation) (new_id now : ℕ) (child : Grant)
    → attenuate key g a new_id now ≡ ok child
    → verify key child ≡ true
unfolding attenuate
attenuate-is_signed key g a new_id now child h =
    let (_, r1) = raise_if-eq-ok _ extends_expiry _ h in
    let (_, r2) = raise_if-eq-ok _ widens_allow _ r1 in
    let (_, r3) = raise_if-eq-ok _ empties_allow _ r2 in
    let (_, r4) = raise_if-eq-ok _ raises_budget _ r3 in
    let (_, r5) = raise_if-eq-ok _ negative_rate _ r4 in
    let (_, r6) = raise_if-eq-ok _ raises_rate _ r5 in
    let (_, r7) = raise_if-eq-ok _ shortens_window _ r6 in
    let (_, r8) = raise_if-eq-ok _ widens_effects _ r7 in
    let (_, _, r9) =
      >>=-eq-ok (check_effect_ids (or_else a.approved_effect_ids g.approved_effect_ids)) _ r8 in
    subst (λ (c : Grant). verify key c ≡ true) (ok-injective r9) (verify-sign key _)

-- What `attenuate` derives verifies, names its parent, is active, and has at most the balance of its
-- parent.
pub attenuate-descends :
    (key : Signing) (g : Grant) (a : Attenuation) (new_id now : ℕ) (child : Grant)
    → attenuate key g a new_id now ≡ ok child
    → (verify key child ≡ true)
      × ((child.parent_grant_id ≡ some g.id)
          × (child.status ≡ active)
          × (leb child.budget.remaining g.budget.remaining ≡ true))
unfolding attenuate sign
attenuate-descends key g a new_id now child h = (
  attenuate-is_signed key g a new_id now child h,
  let (_, r1) = raise_if-eq-ok _ extends_expiry _ h in
      let (_, r2) = raise_if-eq-ok _ widens_allow _ r1 in
      let (_, r3) = raise_if-eq-ok _ empties_allow _ r2 in
      let (budget, r4) = raise_if-eq-ok _ raises_budget _ r3 in
      let (_, r5) = raise_if-eq-ok _ negative_rate _ r4 in
      let (_, r6) = raise_if-eq-ok _ raises_rate _ r5 in
      let (_, r7) = raise_if-eq-ok _ shortens_window _ r6 in
      let (_, r8) = raise_if-eq-ok _ widens_effects _ r7 in
      let (_, _, r9) =
        >>=-eq-ok (check_effect_ids (or_else a.approved_effect_ids g.approved_effect_ids)) _ r8 in
      subst
        (λ (c : Grant).
          (c.parent_grant_id ≡ some g.id)
          × (c.status ≡ active)
          × (leb c.budget.remaining g.budget.remaining ≡ true))
        (ok-injective r9) (refl, refl, smaller g.budget.remaining _ budget),
)
