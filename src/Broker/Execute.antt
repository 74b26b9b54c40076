-- ===== src/Broker/Execute.antt =====
-- `Broker.execute_via_adapter` of src/actenon_permit/broker.py. The provider and its adapter are a
-- parameter: a step on a state `W` of whatever lies outside. `live` has the values of the credentials that have been
-- resolved and not destroyed.
use actenon_permit.Base.{
  ℕ, Bool, true, false, not, ◌&&◌, ◌||◌, Option, none, some, List, [], ◌∷◌, ◌++◌, if◌then◌else◌,
}
use actenon_permit.Base.Int.{pos}
use actenon_permit.Base.Equality.{Text, text_eq, text_beq, contains}
use actenon_permit.Result.{Error, ok, err}
use actenon_permit.Budget.{Value, integer}
use actenon_permit.Grant.{Grant}
use actenon_permit.Store.Tables.{Db}
use actenon_permit.Texts.{codes, lower, strip}
use actenon_permit.Pdp.Rules.{Action, is_falsy}
use actenon_permit.Pdp.Reasons.{Decision, DecisionOutcome, allow, deny, require_approval}
use actenon_permit.Pdp.Decide.{reconcile}
use actenon_permit.Broker.Redaction.{ProviderResponse, final_redact, scrub_text}

-- The exceptions of an adapter, with their texts: the three of an unclear outcome are one, another `AdapterError`
-- has its own `retryable`, and an exception of any other class has the name of that class.
pub data AdapterFailure : Type 0 where
  unsupported_action invalid_parameters : Text → AdapterFailure
  unclear adapter_error : Text → Bool → AdapterFailure
  crashed : Text → AdapterFailure

pub data Reply : Type 0 where
  responded : ProviderResponse → Reply
  raised : AdapterFailure → Reply

-- The arguments of `adapter.execute`.
pub record Call : Type 0 where
  pub action : Text
  pub params : ℕ
  pub secret : Text
  pub idempotency_key : Option ℕ

pub record Adapter (W : Type 0) : Type 0 where
  pub provider_id : Text
  pub supported_actions : List Text
  pub experimental : Bool
  pub experimental_opt_in : Bool
  pub execute : Call → W → Reply × W

pub record Credential : Type 0 where
  pub value : Text
  pub development_only : Bool

-- What the registry resolves a reference to, or the text and `retryable` of its `CredentialResolutionError`.
pub data Resolution : Type 0 where
  resolved : Credential → Resolution
  unresolved : Text → Bool → Resolution

-- `ACTENON_ENV` is the text of the environment variable, empty where it is not set.
pub record Broker : Type 0 where
  pub production_mode : Bool
  pub actenon_env : Text
  pub resolve : Text → Resolution

pub record Desk (W : Type 0) : Type 0 where
  pub world : W
  pub db : Db
  pub live : List Text

-- `BrokerExecutionError`
pub record BrokerError : Type 0 where
  pub safe_message : Text
  pub retryable : Bool
  pub rule : Text

-- A response with its cost, a `BrokerExecutionError`, the `RuntimeError` without ALLOW, or what the commit raised.
pub data BrokerEnd : Type 0 where
  answered : ProviderResponse → Value → BrokerEnd
  refused : BrokerError → BrokerEnd
  without_allow : BrokerEnd
  commit_raised : Error → BrokerEnd

abbrev pub is_allow : DecisionOutcome → Bool
is_allow allow = true
is_allow deny = false
is_allow require_approval = false

-- `_ACTION_ALIASES` of adapters/github.py, without the names that stand for themselves
unfoldable pub normalise_action : Text → Text
normalise_action action =
    if text_beq action (codes "issue.create")
    then codes "github.issue.create"
    else if text_beq action (codes "issue.comment")
    then codes "github.issue.comment"
    else if text_beq action (codes "branch.create")
    then codes "github.branch.create"
    else if text_beq action (codes "pr.open")
    then codes "github.pr.open"
    else action

-- `_adapter_supports_action`
unfoldable pub adapter_supports_action : Text → List Text → Bool
adapter_supports_action action_type adapter_actions =
    contains action_type adapter_actions || contains (normalise_action action_type) adapter_actions

-- The broker's text for what an adapter raised.
unfoldable pub error_of : Text → Text → AdapterFailure → BrokerError
error_of provider_id secret (unsupported_action m) = record {
  safe_message = scrub_text m secret;
  retryable = false;
  rule = codes "broker:unsupported_action";
}
error_of provider_id secret (invalid_parameters m) = record {
  safe_message = scrub_text m secret;
  retryable = false;
  rule = codes "broker:invalid_parameters";
}
error_of provider_id secret (unclear m retryable) = record {
  safe_message = scrub_text m secret;
  retryable = retryable;
  rule = codes "adapter:" ++ provider_id ++ codes ":outcome_unknown";
}
error_of provider_id secret (adapter_error m retryable) = record {
  safe_message = scrub_text m secret;
  retryable = retryable;
  rule = codes "adapter:" ++ provider_id;
}
error_of provider_id secret (crashed class_name) = record {
  safe_message = codes "adapter '" ++ provider_id ++ codes "' raised " ++ class_name;
  retryable = false;
  rule = codes "broker:adapter_crash";
}

-- `_live_credentials.pop(...)` and `_destroy_credential`
abbrev pub destroy : List Text → List Text
destroy [] = []
destroy (value ∷ live) = live

-- `is_prod_env`
unfoldable pub is_production : Broker → Bool
is_production broker =
    broker.production_mode || text_beq (lower (strip broker.actenon_env)) (codes "production")

module _ {W : Type 0} (broker : Broker) (grant : Grant) (action : Action)
    (adapter : Adapter W) where
  -- `response.cost if response.cost is not None else (action.est_cost or 0)`
  unfoldable pub actual_cost : ProviderResponse → Value
  actual_cost response = elim response.cost [
    | some cost ↦ cost
    | none ↦ elim action.est_cost [
      | none ↦ integer (pos 0)
      | some v ↦ if is_falsy v then integer (pos 0) else v
    ]
  ]

  -- Steps 6 and 7, after a response.
  unfoldable pub settle_call : ProviderResponse → Desk W → BrokerEnd × Desk W
  settle_call response desk =
      let cost = actual_cost response in
      let end = reconcile grant action cost desk.db in
      (
        elim end.0 [ err e ↦ commit_raised e | ok remaining ↦ answered response cost ],
        record desk { db = end.1 },
      )

  -- What follows the call of the adapter, with the credential destroyed.
  unfoldable pub after_call : Text → Reply × W → Desk W → BrokerEnd × Desk W
  after_call secret (raised failure, world) desk =
      (refused (error_of adapter.provider_id secret failure), record desk { world = world })
  after_call secret (responded response, world) desk =
      settle_call (final_redact response secret) (record desk { world = world })

  -- Steps 4 to 7, with a credential.
  unfoldable pub use_credential : Text → Option ℕ → Credential → Desk W → BrokerEnd × Desk W
  use_credential credential_ref idempotency_key credential desk =
      let end =
        adapter.execute
          (record {
            action = action.action_type;
            params = action.params;
            secret = credential.value;
            idempotency_key = idempotency_key;
          })
          desk.world in
      if broker.production_mode && credential.development_only
      then (
        refused (record {
          safe_message =
              codes "credential ref '"
              ++ credential_ref
              ++ codes "' is marked development-only; refused in production mode";
          retryable = false;
          rule = codes "broker:dev_credential_in_production";
        }),
        desk,
      )
      else after_call credential.value end
          (record desk { live = destroy (credential.value ∷ desk.live) })

  -- The refusal of an experimental adapter.
  unfoldable pub experimental_error : BrokerError
  experimental_error = record {
    safe_message =
        codes "adapter '"
        ++ adapter.provider_id
        ++ codes "' is experimental and disabled by default in production mode; "
        ++ codes "pass experimental_opt_in=True to explicitly opt in";
    retryable = false;
    rule = codes "broker:experimental_adapter_disabled";
  }

  -- `execute_via_adapter`
  unfoldable pub execute_via_adapter : Decision → Text → Option ℕ → Desk W → BrokerEnd × Desk W
  execute_via_adapter decision credential_ref idempotency_key desk =
      if not (is_allow decision.outcome)
      then (without_allow, desk)
      else if not (adapter_supports_action action.action_type adapter.supported_actions)
      then (
        refused (record {
          safe_message =
              codes "adapter '"
              ++ adapter.provider_id
              ++ codes "' does not support action '"
              ++ action.action_type
              ++ codes "'";
          retryable = false;
          rule = codes "broker:action_not_supported";
        }),
        desk,
      )
      else if is_production broker && adapter.experimental && not adapter.experimental_opt_in
      then (refused experimental_error, desk)
      else elim (broker.resolve credential_ref) [
        | unresolved m retryable ↦ (
          refused (record {
            safe_message = m;
            retryable = retryable;
            rule = codes "broker:credential_resolution_failed";
          }),
          desk,
        )
        | resolved credential ↦ use_credential credential_ref idempotency_key credential desk
      ]
