-- ===== src/Result.antt =====
-- The exceptions that the authority store raises, as values. Each `raise StateError(...)` of the
-- code has a constructor of its own; `is_state_error` tells them from exceptions of other classes.
use actenon_permit.Status.{Status}
use actenon_permit.Base.{ℕ, ◌≡◌, refl, Bool, true, false, ◌⊎◌, inl, inr}

pub data Error : Type 0 where
  -- budget.py
  not_a_number not_finite_number float_too_coarse too_precise out_of_range : Error
  -- a ValueError of `int`
  too_many_digits : Error
  -- delegated_budget.py
  lineage_cyclic ancestor_missing : Error
  owner_inactive : ℕ → Status → Error
  owner_expired : ℕ → Error
  signature_invalid widens_parent no_root ownership_missing ownership_mismatch : Error
  -- model.py
  extends_expiry widens_allow empties_allow raises_budget negative_rate : Error
  raises_rate shortens_window widens_effects bad_effect_ids : Error
  -- state.py
  authority_changed remaining_above_limit grant_not_found : Error
  reservation_missing reservation_foreign amount_mismatch : Error
  committed_otherwise committed_release effect_backed : Error
  -- effects.py
  bad_action_hash effect_mismatch effect_grant_missing principal_mismatch : Error
  effect_grant_expired effect_not_approved lineage_changed owner_in_debt claim_lost : Error
  bad_observer bad_sequence negative_cost bad_review review_expired cost_without_execution : Error
  cost_of_ambiguous settled_otherwise stale_review needs_reconciliation : Error
  unclaimed_execution not_reconcilable : Error
  -- pdp.py: a threshold that is no decimal
  bad_threshold : Error
  -- broker.py: a call without a prior ALLOW
  prior_allow_missing : Error
  -- intent.py
  intent_not_found transition_refused bad_mode mode_arguments : Error
  metadata_too_large metadata_forbidden_key metadata_secret : Error
  -- execution_modes.py: an answer that is no JSON object
  not_an_object : Error
  -- exceptions of other classes: `owners[-1]` of no owner, a broken primary key
  index_error integrity_error invalid_outcome : Error

-- What a call ends with: a value or an exception.
pub data Result {ℓ} (A : Type ℓ) : Type ℓ where
  err : Error → Result A
  ok : A → Result A

pub Result-cases {ℓ} :
    {A : Type ℓ} (r : Result A) → ((a : A) × (r ≡ ok a)) ⊎ ((e : Error) × (r ≡ err e))
Result-cases (err e) = inr (e, refl)
Result-cases (ok a) = inl (a, refl)

pub ok-injective {ℓ} : {A : Type ℓ} {a b : A} → ok a ≡ ok b → a ≡ b
ok-injective h = cc

-- `if c: raise e`
abbrev pub raise_if : Bool → Error → Result (Unit {0})
raise_if false e = ok tt
raise_if true e = err e

-- One call after another; an exception ends the chain.
infixl 5 ◌>>=◌
abbrev pub ◌>>=◌ {ℓ κ} : {A : Type ℓ} {B : Type κ} → Result A → (A → Result B) → Result B
err raised >>= next = err raised
ok value >>= next = next value

infixl 5 ◌>>◌
abbrev pub ◌>>◌ {ℓ} : {B : Type ℓ} → Result (Unit {0}) → Result B → Result B
check >> rest = check >>= λ _. rest

-- A test that did not raise.
pub raise_if-eq-ok {ℓ} :
    {A : Type ℓ} (b : Bool) (e : Error) (m : Result A) {a : A}
    → (raise_if b e >> m) ≡ ok a
    → (b ≡ false) × (m ≡ ok a)
raise_if-eq-ok false e m h = (refl, h)
raise_if-eq-ok true e m h = cc

-- Inversion of a chain that came through.
pub >>=-eq-ok {ℓ κ} :
    {A : Type ℓ} {B : Type κ} (first : Result A) (next : A → Result B) {end : B}
    → (first >>= next) ≡ ok end
    → (value : A) × (first ≡ ok value) × (next value ≡ ok end)
>>=-eq-ok (err raised) next h = cc
>>=-eq-ok (ok value) next h = (value, refl, h)
