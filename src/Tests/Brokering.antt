-- ===== src/Tests/Brokering.antt =====
-- A provider whose answer repeats the secret, an experimental one in production, and a resource that answers with a
-- receipt.
use actenon_permit.Base.Equality.{text_beq, subset, contains}
use actenon_permit.Store.Lineage.{
  check_live, walk, budget_lineage, load, visit, some_link_widens, check_root, widens,
}
use actenon_permit.Base.{ℕ, ◌≡◌, refl, ap, [], ◌∷◌, ◌==◌}
use actenon_permit.Base.Int.{◌-ℤ◌, ◌+ℤ◌}
use actenon_permit.Result.{Result, ok}
use actenon_permit.Budget.{
  units, joined, scale_down, digits_of, units_of_number, decimal_of_int, digits_onto,
  units_of_decimal, check_float, scale_up,
}
use actenon_permit.Store.Tables.{
  overrun_of, owners_of, find_event, put_overrun, update_grant, owner_rate_count, commit_event,
  is_owner,
}
use actenon_permit.Store.Reserve.{
  reserve, finish, reserve_in_transaction, charge, first_refusal, charge_owners, snapshot_of,
  is_state_error, check_owner, insert_owner, settled_status, insert_event, check_units,
  write_owner_balance,
}
use actenon_permit.Store.Settle.{
  commit, settle_rows, reservation, settle_budget_owners, commit_in_transaction, owner_rows,
  some_balance, settled_balance, atomically, has_effect,
}
use actenon_permit.Grant.{authority_payload, effects_widen, verify, status_beq, permits_effect}
use actenon_permit.Tests.Data.{key, five, request, store, child}
use actenon_permit.Base.{
  ℕ, suc, ◌≡◌, refl, ap, Bool, true, false, not, ◌&&◌, none, some, [], ◌∷◌, ◌==◌,
}
use actenon_permit.Base.Equality.{Text, text_beq, contains}
use actenon_permit.Result.{Result, ok}
use actenon_permit.Texts.{codes, lower, strip, has_prefix, has_infix, skip_spaces, drop_end_spaces}
use actenon_permit.Pdp.Reasons.{Decision, allow, nothing}
use actenon_permit.Pdp.Rules.{Action, cost_of, is_falsy, is_zero}
use actenon_permit.Pdp.Decide.{reconcile}
use actenon_permit.Broker.Redaction.{
  ProviderResponse, text, member, no_members, redacted, final_redact, scrub, scrub_members,
  scrub_items,
}
use actenon_permit.Broker.Clean.{AreCleanMembers}
use actenon_permit.Broker.Execute.{
  Adapter, Reply, responded, Call, resolved, Broker, Desk, adapter_supports_action, is_production,
  AdapterFailure, raised, execute_via_adapter, use_credential, after_call, settle_call, actual_cost,
  normalise_action,
}
use actenon_permit.Broker.Coordinate.{
  BrokeredResult, succeeded, failed, coordinate, no_status, success, reconciliation_of, get_member,
  conclude_call,
}
use actenon_permit.Broker.Honest.{
  IsHonest, coordinate-IsHonest, coordinate-keeps_secret, coordinate-experimental, is_rejection,
}
use actenon_permit.Broker.Resource.{
  Response, replied, Body, submit, on_body, on_success, ResourceResult, submit-receipt,
}
use actenon_permit.Broker.Resource as Resource
use actenon_permit.Tests.Data.{store, child, five}

abbrev secret : Text
secret = codes "ghp_1"

abbrev response : ProviderResponse
response = record {
  is_ok = true;
  action = codes "p";
  provider_action_id = none;
  provider_evidence = member (codes "note") (text (codes "used ghp_1")) no_members;
  cost = some five;
  raw = none;
}

-- The state outside is the number of calls.
abbrev adapter : Adapter ℕ
adapter = record {
  provider_id = codes "example";
  supported_actions = codes "p" ∷ [];
  experimental = true;
  experimental_opt_in = false;
  execute = λ call calls. (responded response, suc calls);
}

abbrev broker_in : Bool → Broker
broker_in production = record {
  production_mode = production;
  actenon_env = [];
  resolve = λ r. resolved (record { value = secret; development_only = false });
}

abbrev action : Action
action = record {
  action_id = 7;
  grant_id = 2;
  ts = 10;
  action_type = codes "p";
  target = 0;
  params = 4;
  amount = none;
  est_cost = some five;
}

abbrev decision : Decision
decision = record {
  outcome = allow;
  reason = [];
  rule_matched = none;
  state_delta = nothing;
  failure_code = none;
}

abbrev desk : Desk ℕ
desk = record { world = 0; db = store; live = [] }

abbrev paid : Desk ℕ
paid = record desk { db = (reserve key five request 10 store).1 }

abbrev end : Result BrokeredResult × Desk ℕ
end = coordinate (broker_in false) child action adapter decision (codes "ref") none paid

abbrev shown : BrokeredResult
shown = record {
  state = succeeded;
  provider_execution_observed = true;
  receipt_received = false;
  receipt_verified = false;
  provider_evidence = member (codes "note") (text redacted) no_members;
  reconciliation_status = no_status;
}

succeeds : end.0 ≡ ok shown
unfolding coordinate conclude_call execute_via_adapter use_credential after_call settle_call
    actual_cost success reconciliation_of get_member final_redact scrub scrub_members scrub_items
    has_infix has_prefix contains text_beq adapter_supports_action normalise_action is_production
    lower strip skip_spaces drop_end_spaces reconcile cost_of is_falsy is_zero atomically
    authority_payload budget_lineage charge charge_owners check_float check_live check_owner
    check_root check_units commit commit_event commit_in_transaction decimal_of_int digits_of
    digits_onto effects_widen find_event finish first_refusal has_effect insert_event insert_owner
    is_owner is_state_error joined load overrun_of owner_rate_count owner_rows owners_of
    permits_effect put_overrun reservation reserve reserve_in_transaction scale_down scale_up
    settle_budget_owners settle_rows settled_balance settled_status snapshot_of some_balance
    some_link_widens status_beq subset units units_of_decimal units_of_number update_grant verify
    visit walk widens write_owner_balance ◌+ℤ◌ ◌-ℤ◌
succeeds = refl

-- The provider has no other way to end than with its response.
rejects :
    (call : Call) (before after : ℕ) (failure : AdapterFailure)
    → adapter.execute call before ≡ (raised failure, after)
    → is_rejection failure ≡ true
    → after ≡ before
rejects call before after failure h rejection =
    (let ends : responded response ≡ raised failure = ap (λ (t : Reply × ℕ). t.0) h in cc)

ended :
    coordinate (broker_in false) child action adapter decision (codes "ref") none paid
    ≡ (ok shown, end.1)
ended = ap (λ (o : Result BrokeredResult). (o, end.1)) succeeds

coordinate-IsHonest_example :
    IsHonest (broker_in false) child action adapter (codes "ref") none paid shown end.1
coordinate-IsHonest_example =
    coordinate-IsHonest (broker_in false) child action adapter rejects decision (codes "ref") none
      paid shown end.1 ended

marker : has_infix secret redacted ≡ false
unfolding has_infix has_prefix
marker = refl

coordinate-keeps_secret_example : AreCleanMembers secret shown.provider_evidence
coordinate-keeps_secret_example =
    coordinate-keeps_secret (broker_in false) child action adapter rejects decision (codes "ref")
      none paid shown end.1 (record { value = secret; development_only = false }) ended refl refl
      marker

supported : adapter_supports_action (codes "p") (codes "p" ∷ []) ≡ true
unfolding adapter_supports_action contains text_beq normalise_action
supported = refl

in_production : (is_production (broker_in true) && true && not false) ≡ true
unfolding is_production
in_production = refl

coordinate-experimental_example :
    (r : BrokeredResult) × (coordinate
        (broker_in true)
        child
        action
        adapter
        decision
        (codes "ref")
        none
        desk
      ≡ (ok r, desk))
    × (r.state ≡ failed)
    × (r.provider_execution_observed ≡ true)
coordinate-experimental_example =
    coordinate-experimental (broker_in true) child action adapter decision (codes "ref") none desk
      refl supported in_production

abbrev body : Body
body = record { status = codes "Succeeded"; submission_reference = none; receipt = some 3 }

abbrev accepted : ResourceResult
accepted = record {
  state = Resource.succeeded;
  provider_execution_observed = true;
  receipt_received = true;
  submission_reference = none;
}

receives : submit (λ r. r == 3) (replied (some body)) ≡ ok accepted
unfolding submit on_body on_success lower text_beq
receives = refl

submit-receipt_example :
    (b : Body) × (receipt : ℕ) × (replied (some body) ≡ replied (some b))
    × (b.receipt ≡ some receipt)
    × ((receipt == 3) ≡ true)
submit-receipt_example = submit-receipt (λ r. r == 3) (replied (some body)) accepted receives refl
