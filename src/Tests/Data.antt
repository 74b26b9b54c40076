-- ===== src/Tests/Data.antt =====
-- The example store.
use actenon_permit.Base.{ℕ, suc, ◌*◌, ◌==◌, [], ◌∷◌, none, some, false, arith, if◌then◌else◌}
use actenon_permit.Base.Int.{pos}
use actenon_permit.Base.Equality.{Text}
use actenon_permit.Budget.{Value, integer}
use actenon_permit.Grant.{Grant, active, Signing, Attenuation}
use actenon_permit.Store.Tables.{Db, GrantRow, EffectState, is_owner}
use actenon_permit.Store.Reserve.{Request}
use actenon_permit.Store.Accounting.{IsWellFormed}
use actenon_permit.Effects.{Protocol, Reference, EffectRequest, is_outcome}
use actenon_permit.Effects.Settle.{Settlement}

-- A digest for the examples.
abbrev pub key : Signing
key = record { mac = λ a. suc a.id; mac_nonempty = λ a h. ground arith }

abbrev pub usd : Text
usd = b'U' ∷ b'S' ∷ b'D' ∷ []

abbrev pub agent : Text
agent = b'a' ∷ []

abbrev pub pay : Text
pay = b'p' ∷ []

abbrev pub unit : ℕ
unit = 1000000000

abbrev pub root : Grant
root = record {
  id = 1;
  agent_id = agent;
  issued_at = 0;
  expires_at = 1000;
  scopes = record { allow = pay ∷ []; deny = [] };
  budget = record { currency = usd; limit = 100 * unit; remaining = 100 * unit };
  rate = record { max = pos 0; per_seconds = pos 60 };
  approval_rules = [];
  status = active;
  signature = 2;
  parent_grant_id = none;
  delegation_depth = pos 0;
  approved_effect_ids = none;
}

abbrev pub child : Grant
child = record {
  id = 2;
  agent_id = agent;
  issued_at = 0;
  expires_at = 900;
  scopes = record { allow = pay ∷ []; deny = [] };
  budget = record { currency = usd; limit = 50 * unit; remaining = 50 * unit };
  rate = record { max = pos 3; per_seconds = pos 60 };
  approval_rules = [];
  status = active;
  signature = 3;
  parent_grant_id = some 1;
  delegation_depth = pos 1;
  approved_effect_ids = none;
}

abbrev row_of : Grant → GrantRow
row_of g = record { body = g; status = active; remaining_units = g.budget.remaining }

abbrev pub store : Db
store = record {
  grants = λ j. if j == 1 then some (row_of root) else if j == 2 then some (row_of child) else none;
  rate_events = [];
  owners = [];
  overruns = λ j. none;
  effects = [];
  effect_events = [];
}

abbrev pub five : Value
five = integer (pos 5)

abbrev pub sixty : Value
sixty = integer (pos 60)

abbrev pub request : Request
request = record {
  grant_id = 2;
  action_id = 7;
  amount = pos 0;
  rate_max = pos 0;
  rate_per_seconds = pos 60;
  effect_id = none;
}

-- An effect is its descriptor here, and any outcome goes with any report.
abbrev pub protocol : Protocol
protocol = record {
  effect_identity = λ d. d;
  valid_outcome = λ o occurred hash. is_outcome o;
  valid_is_outcome = λ o occurred hash h. h;
}

abbrev pub effect_request : EffectRequest
effect_request = record {
  grant_id = 2;
  action_id = 8;
  descriptor = 40;
  action_hash = some 12;
  principal = agent;
  amount = five;
  rate_max = pos 0;
  rate_per_seconds = pos 60;
  reservation_id = 30;
}

abbrev pub effect_ref : Reference
effect_ref = record { effect_id = 40; reservation_id = 30; owner_attempt_id = 8 }

abbrev pub unclear : Settlement
unclear = record {
  ref = effect_ref;
  grant_id = 2;
  principal = agent;
  action_hash = 12;
  outcome = EffectState.ambiguous;
  execution_occurred = none;
  evidence_hash = 77;
  observer = some 5;
  actual_cost = none;
  reconciliation = false;
  expected_event_sequence = none;
  review_expires_at = none;
}

abbrev pub narrowing : Attenuation
narrowing = record {
  agent_id = [];
  expires_at = some 800;
  scopes_allow = none;
  scopes_deny = some (usd ∷ []);
  budget_limit = some (20 * unit);
  rate_max = none;
  rate_per_seconds = none;
  extra_approval_rules = [];
  approved_effect_ids = none;
}

pub store-IsWellFormed : IsWellFormed store
store-IsWellFormed = record {
  keyed = λ k row found. ground arith;
  events_distinct = tt;
  owners_distinct = tt;
  owners_closed = λ a g owned. unfold is_owner in cc;
}
