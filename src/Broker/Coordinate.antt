-- ===== src/Broker/Coordinate.antt =====
-- `BrokeredExecutionCoordinator` of src/actenon_permit/execution_modes.py. Of a result, the constants that
-- name the broker, the attempt and the time are left out.
use actenon_permit.Base.{
  ℕ, Bool, true, false, not, ◌&&◌, ◌||◌, Option, none, some, List, [], ◌∷◌, ◌++◌, if◌then◌else◌,
}
use actenon_permit.Base.Equality.{Text, text_eq, text_beq, contains}
use actenon_permit.Result.{Result, ok, err, prior_allow_missing}
use actenon_permit.Grant.{Grant}
use actenon_permit.Store.Tables.{Db}
use actenon_permit.Store.Settle.{release}
use actenon_permit.Texts.{codes, has_prefix}
use actenon_permit.Pdp.Rules.{Action, is_falsy}
use actenon_permit.Pdp.Reasons.{Decision, DecisionOutcome, allow, deny, require_approval}
use actenon_permit.Broker.Redaction.{
  Json, Members, text, object, array, scalar, no_members, member, no_items,
}
use actenon_permit.Broker.Execute.{
  Adapter, Broker, Desk, BrokerError, BrokerEnd, answered, refused, without_allow, commit_raised,
  is_allow, execute_via_adapter,
}

-- `BrokeredExecutionState`
pub data BrokeredState : Type 0 where
  succeeded failed refused_state outcome_unknown : BrokeredState

-- A `BrokeredExecutionResult`. `kept_status` is the `reconcile_status` that an adapter reported.
pub data Reconciliation : Type 0 where
  no_status pending : Reconciliation
  kept_status : Json → Reconciliation

pub record BrokeredResult : Type 0 where
  pub state : BrokeredState
  pub provider_execution_observed : Bool
  pub receipt_received : Bool
  pub receipt_verified : Bool
  pub provider_evidence : Members
  pub reconciliation_status : Reconciliation

-- `str.endswith`
unfoldable pub has_suffix : Text → Text → Bool
has_suffix suffix [] = text_beq suffix []
has_suffix suffix (c ∷ s) = text_beq suffix (c ∷ s) || has_suffix suffix s

abbrev pub refused_rules : List Text
refused_rules =
    codes "broker:action_not_supported"
    ∷ codes "broker:invalid_parameters"
    ∷ codes "broker:unsupported_action"
    ∷ codes "broker:credential_resolution_failed"
    ∷ codes "broker:dev_credential_in_production"
    ∷ []

-- `_map_broker_error_to_state`
unfoldable pub map_broker_error_to_state : BrokerError → BrokeredState
map_broker_error_to_state e =
    if contains e.rule refused_rules
    then refused_state
    else if e.retryable || has_suffix (codes ":outcome_unknown") e.rule
    then outcome_unknown
    else if text_beq e.rule (codes "broker:adapter_crash")
    then outcome_unknown
    else failed

-- `_refused`, `_failed` and `_outcome_unknown`
unfoldable pub unsuccessful : BrokeredState → Text → Action → BrokeredResult
unsuccessful state reason action = record {
  state = state;
  provider_execution_observed = elim state [ failed ↦ true | _ ↦ false ];
  receipt_received = false;
  receipt_verified = false;
  provider_evidence =
      member (codes "reason") (text reason)
        (member (codes "action_type") (text action.action_type) no_members);
  reconciliation_status = elim state [ outcome_unknown ↦ pending | _ ↦ no_status ];
}

-- `evidence.get(key)`
unfoldable pub get_member : Text → Members → Option Json
get_member key no_members = none
get_member key (member k v ms) = if text_beq k key then some v else get_member key ms

-- Python's truth of a value
unfoldable pub is_truthy : Json → Bool
is_truthy (text []) = false
is_truthy (object no_members) = false
is_truthy (array no_items) = false
is_truthy (scalar truthy n) = truthy
is_truthy v = true

-- `str(v).startswith("ok")`: what is no text is written with another beginning.
unfoldable pub begins_ok : Json → Bool
begins_ok (text t) = has_prefix (codes "ok") t
begins_ok v = false

unfoldable pub reconciliation_of : Members → Reconciliation
reconciliation_of evidence = elim (get_member (codes "reconcile_status") evidence) [
  | none ↦ no_status
  | some status ↦
      if is_truthy status && not (begins_ok status) then kept_status status else no_status
]

unfoldable pub success : Members → BrokeredResult
success evidence = record {
  state = succeeded;
  provider_execution_observed = true;
  receipt_received = false;
  receipt_verified = false;
  provider_evidence = evidence;
  reconciliation_status = reconciliation_of evidence;
}

unfoldable pub outcome_text : DecisionOutcome → Text
outcome_text allow = codes "ALLOW"
outcome_text deny = codes "DENY"
outcome_text require_approval = codes "REQUIRE_APPROVAL"

module _ {W : Type 0} (broker : Broker) (grant : Grant) (action : Action)
    (adapter : Adapter W) where
  -- `_release_reservation`
  unfoldable pub release_reservation : Db → Db
  release_reservation db = elim action.est_cost [
    | none ↦ db
    | some cost ↦ if is_falsy cost then db else (release grant.id action.action_id cost db).1
  ]

  abbrev pub after_error : BrokeredState → Desk W → Desk W
  after_error refused_state desk = record desk { db = release_reservation desk.db }
  after_error state desk = desk

  -- What a `BrokerExecutionError` is made of.
  unfoldable pub on_error : BrokerError → Desk W → BrokeredResult × Desk W
  on_error e desk =
      let state = map_broker_error_to_state e in
      (unsuccessful state e.safe_message action, after_error state desk)

  unfoldable pub conclude_call : BrokerEnd × Desk W → Result BrokeredResult × Desk W
  conclude_call (answered response cost, desk) = (ok (success response.provider_evidence), desk)
  conclude_call (refused e, desk) = (ok (on_error e desk).0, (on_error e desk).1)
  conclude_call (without_allow, desk) = (err prior_allow_missing, desk)
  conclude_call (commit_raised e, desk) = (err e, desk)

  -- `coordinate`
  unfoldable pub coordinate : Decision → Text → Option ℕ → Desk W → Result BrokeredResult × Desk W
  coordinate decision credential_ref idempotency_key desk =
      if not (is_allow decision.outcome)
      then (
        ok (
            unsuccessful refused_state
              (codes "coordinator called without ALLOW (was "
                ++ outcome_text decision.outcome
                ++ codes ")")
              action),
        desk,
      )
      else conclude_call (
          execute_via_adapter broker grant action adapter decision credential_ref idempotency_key
            desk)
