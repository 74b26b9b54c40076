-- ===== src/Grant.antt =====
-- src/actenon_permit/model.py: the grant, its signature and its attenuation. Identifiers are only
-- compared and tested for being empty, so they are numbers with 0 for the empty string; names,
-- currencies, scope patterns and approval rules are texts. An amount is its count of budget units
-- (10^-9), as `budget.from_units` writes it: the validators of `Budget` let no negative one in.
-- Times are microseconds.
pub mod Sets
pub mod Signature
pub use actenon_permit.Status.{Status, active, revoked, expired, exhausted}
unfoldable pub use actenon_permit.Status.{status_beq}
use actenon_permit.Base.{
  ℕ, zero, suc, ◌+◌, ◌≡◌, ◌≢◌, Bool, true, false, not, ◌&&◌, ◌||◌, Option, none, some, List, [],
  ◌∷◌, ◌++◌, length, any, ltb, ◌==◌, if◌then◌else◌,
}
use actenon_permit.Base.Int.{ℤ, pos, negsuc, ltb_ℤ, eqb_ℤ, ◌+ℤ◌}
use actenon_permit.Base.Equality.{Text, Eq, text_eq, text_beq, nat_eq, contains, subset}
use actenon_permit.Result.{
  Result, ok, err, ◌>>=◌, ◌>>◌, raise_if, extends_expiry, widens_allow, empties_allow,
  raises_budget, negative_rate, raises_rate, shortens_window, widens_effects, bad_effect_ids,
}

pub record Scopes : Type 0 where
  pub allow : List Text
  pub deny : List Text

pub record Budget : Type 0 where
  pub currency : Text
  pub limit : ℕ
  pub remaining : ℕ

pub record Rate : Type 0 where
  pub max : ℤ
  pub per_seconds : ℤ

pub record Grant : Type 0 where
  pub id : ℕ
  pub agent_id : Text
  pub issued_at : ℕ
  pub expires_at : ℕ
  pub scopes : Scopes
  pub budget : Budget
  pub rate : Rate
  pub approval_rules : List Text
  pub status : Status
  pub signature : ℕ
  pub parent_grant_id : Option ℕ
  pub delegation_depth : ℤ
  pub approved_effect_ids : Option (List ℕ)

-- The fields of a grant that its signature covers.
pub record Authority : Type 0 where
  pub id : ℕ
  pub agent_id : Text
  pub issued_at : ℕ
  pub expires_at : ℕ
  pub scopes : Scopes
  pub currency : Text
  pub limit : ℕ
  pub rate : Rate
  pub approval_rules : List Text
  pub parent_grant_id : Option ℕ
  pub delegation_depth : ℤ
  pub approved_effect_ids : Option (List ℕ)

unfoldable pub authority_payload : Grant → Authority
authority_payload g = record {
  id = g.id;
  agent_id = g.agent_id;
  issued_at = g.issued_at;
  expires_at = g.expires_at;
  scopes = g.scopes;
  currency = g.budget.currency;
  limit = g.budget.limit;
  rate = g.rate;
  approval_rules = g.approval_rules;
  parent_grant_id = g.parent_grant_id;
  delegation_depth = g.delegation_depth;
  approved_effect_ids = g.approved_effect_ids;
}

-- HMAC-SHA256 of the canonical JSON under the configured key: a digest that is never empty.
pub record Signing : Type 0 where
  pub mac : Authority → ℕ
  pub mac_nonempty : (a : Authority) → mac a ≢ 0

unfoldable pub sign : Signing → Grant → Grant
unfolding authority_payload
sign key g = record g { signature = key.mac (authority_payload g) }

unfoldable pub verify : Signing → Grant → Bool
unfolding authority_payload
verify key g = if g.signature == 0 then false else key.mac (authority_payload g) == g.signature

-- `permits_effect`; an effect id of `none` is in no list.
unfoldable pub permits_effect : Grant → Option ℕ → Bool
permits_effect g effect_id = elim g.approved_effect_ids [
  | none ↦ true
  | some ids ↦ elim effect_id [ none ↦ false | some e ↦ contains e ids ]
]

-- The order of Python's `sorted` on texts: by code points.
unfoldable pub text_ltb : Text → Text → Bool
text_ltb s [] = false
text_ltb [] (b ∷ t) = true
text_ltb (a ∷ s) (b ∷ t) = ltb a b || (a == b && text_ltb s t)

unfoldable pub insert_sorted : Text → List Text → List Text
unfolding text_beq text_ltb
insert_sorted x [] = x ∷ []
insert_sorted x (y ∷ ys) =
    let rest = y ∷ insert_sorted x ys in
    if text_beq x y then y ∷ ys else if text_ltb x y then x ∷ y ∷ ys else rest

-- `sorted(set(xs))`
unfoldable pub sorted_set : List Text → List Text
unfolding insert_sorted
sorted_set [] = []
sorted_set (x ∷ xs) = insert_sorted x (sorted_set xs)

-- `for r in extra: if r not in rules: rules.append(r)`
unfoldable pub extend_rules : List Text → List Text → List Text
unfolding contains
extend_rules rules [] = rules
extend_rules rules (r ∷ extra) =
    extend_rules (if contains r rules then rules else rules ++ r ∷ []) extra

abbrev pub is_empty {ℓ} : {A : Type ℓ} → List A → Bool
is_empty [] = true
is_empty (x ∷ xs) = false

abbrev pub get_or {ℓ} : {A : Type ℓ} → Option A → A → A
get_or none d = d
get_or (some a) d = a

abbrev pub or_else {ℓ} : {A : Type ℓ} → Option A → Option A → Option A
or_else none o = o
or_else (some a) o = some a

unfoldable pub has_repeat : List ℕ → Bool
unfolding contains
has_repeat [] = false
has_repeat (x ∷ xs) = contains x xs || has_repeat xs

-- The validator of `approved_effect_ids`; that an id is `effect_` and 64 hex digits is its type here.
unfoldable pub check_effect_ids : Option (List ℕ) → Result (Unit {0})
unfolding has_repeat
check_effect_ids none = ok tt
check_effect_ids (some ids) = raise_if (ltb 256 (length ids) || has_repeat ids) bad_effect_ids

-- The keyword arguments of `attenuate`; an absent one is `none`.
pub record Attenuation : Type 0 where
  pub agent_id : Text
  pub expires_at : Option ℕ
  pub scopes_allow : Option (List Text)
  pub scopes_deny : Option (List Text)
  pub budget_limit : Option ℕ
  pub rate_max : Option ℤ
  pub rate_per_seconds : Option ℤ
  pub extra_approval_rules : List Text
  pub approved_effect_ids : Option (List ℕ)

-- `set(child_effects).issubset(parent)` fails for a parent that is a finite list
unfoldable pub effects_widen : Option (List ℕ) → Option (List ℕ) → Bool
unfolding subset
effects_widen child none = false
effects_widen none (some parent) = true
effects_widen (some child) (some parent) = not (subset child parent)

-- `f"{self.agent_id}+child"`
abbrev child_suffix : Text
child_suffix = b'+' ∷ b'c' ∷ b'h' ∷ b'i' ∷ b'l' ∷ b'd' ∷ []

-- `attenuate`: `new_id` is the fresh uuid and `now` the clock.
unfoldable pub attenuate : Signing → Grant → Attenuation → ℕ → ℕ → Result Grant
attenuate key g a new_id now = do
  let new_expires = get_or a.expires_at g.expires_at
  raise_if (ltb g.expires_at new_expires) extends_expiry
  let new_allow = get_or a.scopes_allow g.scopes.allow
  raise_if (not (subset new_allow g.scopes.allow)) widens_allow
  raise_if (is_empty new_allow && not (is_empty g.scopes.allow)) empties_allow
  let new_deny = sorted_set (g.scopes.deny ++ get_or a.scopes_deny [])
  let new_limit = get_or a.budget_limit g.budget.remaining
  raise_if (ltb g.budget.remaining new_limit) raises_budget
  let new_remaining = if ltb g.budget.remaining new_limit then g.budget.remaining else new_limit
  let new_rate_max = get_or a.rate_max g.rate.max
  raise_if (ltb_ℤ new_rate_max (pos 0)) negative_rate
  raise_if
      (ltb_ℤ (pos 0) g.rate.max && (eqb_ℤ new_rate_max (pos 0) || ltb_ℤ g.rate.max new_rate_max))
      raises_rate
  let new_rate_per = get_or a.rate_per_seconds g.rate.per_seconds
  raise_if (ltb_ℤ new_rate_per g.rate.per_seconds) shortens_window
  let new_rules = extend_rules g.approval_rules a.extra_approval_rules
  let new_effects = or_else a.approved_effect_ids g.approved_effect_ids
  raise_if (effects_widen new_effects g.approved_effect_ids) widens_effects
  check_effect_ids new_effects
  ok (
      sign key (record {
        id = new_id;
        agent_id = if is_empty a.agent_id then g.agent_id ++ child_suffix else a.agent_id;
        issued_at = now;
        expires_at = new_expires;
        scopes = record { allow = new_allow; deny = new_deny };
        budget = record {
          currency = g.budget.currency;
          limit = new_limit;
          remaining = new_remaining;
        };
        rate = record { max = new_rate_max; per_seconds = new_rate_per };
        approval_rules = new_rules;
        status = active;
        signature = 0;
        parent_grant_id = some g.id;
        delegation_depth = g.delegation_depth +ℤ pos 1;
        approved_effect_ids = new_effects;
      }))
