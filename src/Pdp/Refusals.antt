-- ===== src/Pdp/Refusals.antt =====
-- The codes of refused reservations in src/actenon_permit/pdp.py, which are read off the words of the
-- reason.
use actenon_permit.Base.{
  ℕ, ◌≡◌, ◌≢◌, ◌↔◌, ◌⊎◌, inl, inr, refl, ap, arith, Bool, true, Bool-cases, [], ◌∷◌, ◌++◌, ◌||◌,
}
use actenon_permit.Base.Equality.{Text}
use actenon_permit.Result.{
  Error, lineage_cyclic, ancestor_missing, owner_inactive, owner_expired, signature_invalid,
  widens_parent, no_root,
}
use actenon_permit.Status.{Status, revoked}
use actenon_permit.Store.Reserve.{
  Refusal, negative_amount, no_lineage, effect_unapproved, finite_signature, unsettled_overrun,
  exceeds_budget, rate_limit,
}
use actenon_permit.Texts.{codes, lower, has_prefix, has_infix}
use actenon_permit.Pdp.Reasons.{
  engine_error_code, revoked_code, status_text, refusal_code, refusal_text, lineage_text, Printing,
}

has_prefix-++ : (part s t : Text) → has_prefix part s ≡ true → has_prefix part (s ++ t) ≡ true
unfolding has_prefix
has_prefix-++ [] s t h = refl
has_prefix-++ (p ∷ part) [] t h = cc
has_prefix-++ (p ∷ part) (c ∷ s) t h = ground (arith, has_prefix-++ part s t)

has_infix-++_left : (part s t : Text) → has_infix part s ≡ true → has_infix part (s ++ t) ≡ true
unfolding has_infix has_prefix
has_infix-++_left [] [] [] h = refl
has_infix-++_left [] [] (x ∷ t) h = refl
has_infix-++_left (p ∷ part) [] t h = cc
has_infix-++_left part (c ∷ s) t h = elim (Bool-cases (has_prefix part (c ∷ s))) [
  | inl here ↦ rw (has_prefix-++ part (c ∷ s) t here) refl
  | inr later ↦ (let more = has_infix-++_left part s t (rw later at h) in ground (arith, more))
]

lower-++ : (s t : Text) → lower (s ++ t) ≡ lower s ++ lower t
unfolding lower
lower-++ [] t = refl
lower-++ (c ∷ s) t = ground (arith, lower-++ s t)

has_infix-++_right : (part s t : Text) → has_infix part t ≡ true → has_infix part (s ++ t) ≡ true
unfolding has_infix
has_infix-++_right part [] t h = h
has_infix-++_right part (c ∷ s) t h = ground (arith, has_infix-++_right part s t h)

names_budget : Text → Bool
names_budget r = has_infix (codes "budget") r || has_infix (codes "exceed") r

names_budget-++ :
    (s t : Text) → names_budget (lower s) ≡ true → names_budget (lower (s ++ t)) ≡ true
unfolding names_budget
names_budget-++ s t h = elim (Bool-cases (has_infix (codes "budget") (lower s))) [
  | inl budget ↦
      rw (lower-++ s t, has_infix-++_left (codes "budget") (lower s) (lower t) budget) refl
  | inr other ↦
      let named : has_infix (codes "exceed") (lower s) ≡ true = (rw other at h) in
      let exceed = has_infix-++_left (codes "exceed") (lower s) (lower t) named in
      rw (lower-++ s t) (ground (arith, exceed))
]

-- A reason with one of the words of the budget is no error of the engine.
code_of_budget :
    (reason : Text) → names_budget (lower reason) ≡ true → refusal_code reason ≢ engine_error_code
unfolding refusal_code names_budget
code_of_budget reason h same = elim (Bool-cases (has_infix (codes "revoked") (lower reason))) [
  | inl withdrawn ↦ (let both = rw withdrawn at same in cc)
  | inr other ↦ elim (Bool-cases (has_infix (codes "rate limit") (lower reason))) [
    | inl rate ↦ (let both = rw (other, rate) at same in cc)
    | inr budget ↦ (let both = rw (other, budget, h) at same in cc)
  ]
]

-- The errors that `_budget_lineage` raises as a `StateError`
pub data IsOfLineage : Error → Type 0 where
  too_deep : IsOfLineage lineage_cyclic
  missing : IsOfLineage ancestor_missing
  inactive : (id : ℕ) (status : Status) → IsOfLineage (owner_inactive id status)
  out_of_time : (id : ℕ) → IsOfLineage (owner_expired id)
  unsigned : IsOfLineage signature_invalid
  wider : IsOfLineage widens_parent
  rootless : IsOfLineage no_root

lineage_code :
    (p : Printing) (e : Error)
    → IsOfLineage e
    → refusal_code (lineage_text p e) ≡ engine_error_code
    → e ≡ widens_parent
unfolding lineage_text names_budget lower has_infix has_prefix
lineage_code p e too_deep h = elim (code_of_budget _ refl h) [ ]
lineage_code p e missing h = elim (code_of_budget _ refl h) [ ]
lineage_code p e (inactive id status) h =
    let rest = p.id_text id ++ codes " status is " ++ status_text status in
    elim (code_of_budget (codes "budget owner " ++ rest)
      (names_budget-++ (codes "budget owner ") rest refl) h) [ ]
lineage_code p e (out_of_time id) h =
    let rest = p.id_text id ++ codes " is expired" in
    elim (code_of_budget (codes "budget owner " ++ rest)
      (names_budget-++ (codes "budget owner ") rest refl) h) [ ]
lineage_code p e unsigned h = elim (code_of_budget _ refl h) [ ]
lineage_code p e wider h = refl
lineage_code p e rootless h = elim (code_of_budget _ refl h) [ ]

has_infix-lower_right :
    (part s t : Text) → has_infix part (lower t) ≡ true → has_infix part (lower (s ++ t)) ≡ true
has_infix-lower_right part s t h = rw (lower-++ s t) (has_infix-++_right part (lower s) (lower t) h)

owner_revoked : Printing → ℕ → Text
owner_revoked p id = codes "budget owner " ++ p.id_text id ++ codes " status is " ++ codes "revoked"

revoked_infix :
    (p : Printing) (id : ℕ) → has_infix (codes "revoked") (lower (owner_revoked p id)) ≡ true
unfolding owner_revoked has_infix has_prefix lower
revoked_infix p id =
    has_infix-lower_right (codes "revoked")
      (codes "budget owner " ++ p.id_text id ++ codes " status is ") (codes "revoked") refl

revoked_code_lem :
    (p : Printing) (id : ℕ)
    → refusal_code (lineage_text p (owner_inactive id revoked)) ≡ revoked_code
unfolding refusal_code lineage_text status_text owner_revoked
revoked_code_lem p id = rw (revoked_infix p id) refl

-- A refusal for the lineage is for one of its errors.
unfoldable pub IsReported : Refusal → Type 0
IsReported negative_amount = Unit
IsReported (no_lineage e) = IsOfLineage e
IsReported effect_unapproved = Unit
IsReported finite_signature = Unit
IsReported unsettled_overrun = Unit
IsReported (exceeds_budget owner) = Unit
IsReported rate_limit = Unit

-- The refusals with the code of an engine error.
pub IsUncoded : Refusal → Type 0
IsUncoded r = (r ≡ effect_unapproved) ⊎ ((r ≡ finite_signature) ⊎ (r ≡ no_lineage widens_parent))

uncoded :
    (p : Printing) (r : Refusal)
    → IsReported r
    → refusal_code (refusal_text p r) ≡ engine_error_code
    → IsUncoded r
unfolding IsReported IsUncoded refusal_text names_budget lower has_infix has_prefix refusal_code
uncoded p negative_amount known h =
    elim (code_of_budget (refusal_text p negative_amount) refl h) [ ]
uncoded p (no_lineage e) known h = inr (inr (ap no_lineage (lineage_code p e known h)))
uncoded p effect_unapproved known h = inl refl
uncoded p finite_signature known h = inr (inl refl)
uncoded p unsettled_overrun known h =
    elim (code_of_budget (refusal_text p unsettled_overrun) refl h) [ ]
uncoded p (exceeds_budget owner) known h =
    let rest =
      owner.budget.currency ++ codes " " ++ p.amount_text owner.budget.limit ++ codes " budget" in
    elim (code_of_budget (codes "would exceed " ++ rest)
      (names_budget-++ (codes "would exceed ") rest refl) h) [ ]
uncoded p rate_limit known h = cc

is_engine_error :
    (p : Printing) (r : Refusal) → IsUncoded r → refusal_code (refusal_text p r) ≡ engine_error_code
unfolding IsUncoded refusal_text lineage_text refusal_code lower has_infix has_prefix
is_engine_error p r (inl same) = rw same refl
is_engine_error p r (inr (inl same)) = rw same refl
is_engine_error p r (inr (inr same)) = rw same refl

-- However identifiers and amounts are written, a reservation that is refused as an owner of the budget is
-- revoked has the code for revoked; and one that is refused for any reason of the store, where a reason of
-- the lineage is one of the errors of `_budget_lineage`, has the code of an engine error exactly when the
-- effect is not approved, its authority has no valid signature, or a grant widens its parent.
pub refusal_code-IsUncoded :
    (p : Printing) (id : ℕ) (r : Refusal)
    → IsReported r
    → (refusal_code (refusal_text p (no_lineage (owner_inactive id revoked))) ≡ revoked_code)
      × ((refusal_code (refusal_text p r) ≡ engine_error_code) ↔ IsUncoded r)
unfolding refusal_text
refusal_code-IsUncoded p id r known =
    (revoked_code_lem p id, (uncoded p r known, is_engine_error p r))
