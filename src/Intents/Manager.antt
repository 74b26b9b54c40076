-- ===== src/Intents/Manager.antt =====
-- `EphemeralIntentStore` and `IntentManager` of src/actenon_permit/intent.py. The store holds the objects
-- themselves, so what an operation returns as an intent is the entry of the store afterwards. `W` is the state of what
-- executes an intent: a coordinator, or a resource.
use actenon_permit.Base.{ℕ, Option, none, some, List, [], ◌∷◌, ◌++◌, ◌==◌, if◌then◌else◌}
use actenon_permit.Base.Equality.{Text, nat_eq, contains}
use actenon_permit.Result.{Error, Result, ok, err, intent_not_found, transition_refused}
use actenon_permit.Pdp.Reasons.{DecisionOutcome, allow, deny, require_approval}
use actenon_permit.Broker.Coordinate.{BrokeredState}
use actenon_permit.Broker.Coordinate as Brokered
use actenon_permit.Broker.Resource.{ResourceState}
use actenon_permit.Broker.Resource as Resource
use actenon_permit.Intents.Lifecycle.{
  IntentLifecycle, evaluating, requires_approval, authorised, denied, proof_issued, executing,
  submitted, succeeded, failed, refused, outcome_unknown, number, can_transition,
}
use actenon_permit.Intents.Metadata.{Metadata}

-- `requested_execution_mode`, a text that `create` checks.
pub data ExecutionMode : Type 0 where
  brokered resource_owned another_mode : ExecutionMode

-- `AuthorisedExecutionIntent`
pub record Intent : Type 0 where
  pub intent_id : ℕ
  pub action_type : Text
  pub action_params : ℕ
  pub target_type : Text
  pub target_id : ℕ
  pub requested_execution_mode : ExecutionMode
  pub requester_subject : ℕ
  pub requester_agent_id : ℕ
  pub requester_tenant_id : Option ℕ
  pub idempotency_key : Option ℕ
  pub created_at : ℕ
  pub expiry : Option ℕ
  pub metadata : Metadata
  pub lifecycle_state : IntentLifecycle
  pub linked_decision_id : Option ℕ
  pub linked_proof_id : Option ℕ
  pub linked_attempt_ids : List ℕ
  pub linked_receipt_id : Option ℕ
  pub linked_refusal_id : Option ℕ
  pub submission_reference : Option ℕ

pub record Manager (W : Type 0) : Type 0 where
  pub intents : ℕ → Option Intent
  pub world : W

-- An operation: what it returns or raises, and the state after it.
abbrev pub Operation : Type 0 → Type 0 → Type 0
Operation W A = Manager W → Result A × Manager W

module _ {W A B : Type 0} where
  abbrev pub continue : (A → Operation W B) → Result A × Manager W → Result B × Manager W
  continue next (err e, m) = (err e, m)
  continue next (ok a, m) = next a m

  infixl 5 ◌>>=◌
  abbrev pub ◌>>=◌ : Operation W A → (A → Operation W B) → Operation W B
  first >>= next = λ m. continue next (first m)

  infixl 5 ◌>>◌
  abbrev pub ◌>>◌ : Operation W A → Operation W B → Operation W B
  first >> rest = first >>= λ x. rest

module _ {W A : Type 0} where
  abbrev pub give : A → Operation W A
  give a = λ m. (ok a, m)

  abbrev pub fail : Error → Operation W A
  fail e = λ m. (err e, m)

  -- A call of what executes the intent, on the state of the world.
  abbrev pub outside : (W → Result A × W) → Operation W A
  outside run = λ m. ((run m.world).0, record m { world = (run m.world).1 })

-- `lifecycle_map` of `execute_brokered`
unfoldable pub of_brokered : BrokeredState → IntentLifecycle
of_brokered Brokered.succeeded = succeeded
of_brokered Brokered.failed = failed
of_brokered Brokered.refused_state = refused
of_brokered Brokered.outcome_unknown = outcome_unknown

-- `lifecycle_map` of `submit_to_resource`
unfoldable pub of_resource : ResourceState → IntentLifecycle
of_resource Resource.submitted = submitted
of_resource Resource.accepted = submitted
of_resource Resource.succeeded = succeeded
of_resource Resource.failed = failed
of_resource Resource.refused = refused
of_resource Resource.outcome_unknown = outcome_unknown

unfoldable pub add_attempt : ℕ → List ℕ → List ℕ
add_attempt attempt_id ids = if contains attempt_id ids then ids else ids ++ attempt_id ∷ []

-- The state and the attempt of a result, with the reference of a submission.
pub record Ended (S : Type 0) : Type 0 where
  pub state : S
  pub attempt_id : ℕ
  pub reference : Option ℕ

module _ {W : Type 0} where
  -- `put`
  unfoldable pub put : Intent → Manager W → Manager W
  put intent m = record m {
    intents = λ id. if id == intent.intent_id then some intent else m.intents id;
  }

  -- `get`, where an intent has to be there
  unfoldable pub found : ℕ → Operation W Intent
  found id m = elim (m.intents id) [
    | none ↦ (err intent_not_found, m)
    | some intent ↦ (ok intent, m)
  ]

  -- An intent that is there is changed.
  unfoldable pub edit : (Intent → Intent) → ℕ → Operation W (Unit {0})
  edit change id = found id >>= λ intent. λ m. (ok tt, put (change intent) m)

  unfoldable pub update_state : ℕ → IntentLifecycle → Operation W (Unit {0})
  update_state id new_state = found id >>= λ intent. λ m.
      if can_transition intent.lifecycle_state new_state
      then (ok tt, put (record intent { lifecycle_state = new_state }) m)
      else (err transition_refused, m)

  unfoldable pub transition : ℕ → IntentLifecycle → Operation W Intent
  transition id new_state = update_state id new_state >> found id

  unfoldable pub link_decision : ℕ → ℕ → Operation W (Unit {0})
  link_decision id decision_id =
      edit (λ intent. record intent { linked_decision_id = some decision_id }) id

  unfoldable pub link_proof : ℕ → ℕ → Operation W (Unit {0})
  link_proof id proof_id = edit (λ intent. record intent { linked_proof_id = some proof_id }) id

  unfoldable pub link_attempt : ℕ → ℕ → Operation W (Unit {0})
  link_attempt id attempt_id =
      edit
        (λ intent. record intent {
          linked_attempt_ids = add_attempt attempt_id intent.linked_attempt_ids;
        })
        id

  unfoldable pub link_receipt : ℕ → ℕ → Operation W (Unit {0})
  link_receipt id receipt_id =
      edit (λ intent. record intent { linked_receipt_id = some receipt_id }) id

  unfoldable pub link_refusal : ℕ → ℕ → Operation W (Unit {0})
  link_refusal id refusal_id =
      edit (λ intent. record intent { linked_refusal_id = some refusal_id }) id

  module _ (coordinate : Intent → ℕ → W → Result (Ended BrokeredState) × W) where
    -- From the authorisation on.
    unfoldable pub run_brokered : ℕ → ℕ → Operation W (Option BrokeredState)
    run_brokered proof_id id =
        link_proof id proof_id
        >> (transition id proof_issued
            >> (transition id executing >>= λ intent.
                outside (coordinate intent proof_id) >>= λ result.
                link_attempt id result.attempt_id
                >> (transition id (of_brokered result.state) >> give (some result.state))))

    unfoldable pub after_decision : DecisionOutcome → ℕ → ℕ → Operation W (Option BrokeredState)
    after_decision deny proof_id id = transition id denied >> give none
    after_decision require_approval proof_id id =
        transition id requires_approval >> (transition id authorised >> run_brokered proof_id id)
    after_decision allow proof_id id = transition id authorised >> run_brokered proof_id id

    -- `execute_brokered`; `proof_id` is the given one or a fresh one. A denied intent has no result.
    unfoldable pub execute_brokered : DecisionOutcome → ℕ → ℕ → Operation W (Option BrokeredState)
    execute_brokered outcome proof_id id =
        transition id evaluating >> after_decision outcome proof_id id

  -- The proof is linked if none is.
  unfoldable pub link_first_proof : ℕ → ℕ → Intent → Operation W (Unit {0})
  link_first_proof id proof_id intent = elim intent.linked_proof_id [
    | some linked ↦ give tt
    | none ↦ link_proof id proof_id
  ]

  unfoldable pub note_reference : ℕ → Option ℕ → Operation W (Unit {0})
  note_reference id none = give tt
  note_reference id (some reference) =
      edit (λ intent. record intent { submission_reference = some reference }) id

  -- A result that is not final leaves the intent submitted.
  unfoldable pub resolve : ℕ → ResourceState → Operation W (Option ResourceState)
  resolve id state =
      if number (of_resource state) == number submitted
      then give (some state)
      else transition id (of_resource state) >> give (some state)

  -- `submit_to_resource`
  unfoldable pub submit_to_resource :
      (Intent → W → Result (Ended ResourceState) × W) → ℕ → ℕ → Operation W (Option ResourceState)
  submit_to_resource submit proof_id id =
      transition id evaluating
      >> (transition id authorised >>= λ intent.
          link_first_proof id proof_id intent
          >> (transition id proof_issued
              >> (transition id submitted >>= λ sent. outside (submit sent) >>= λ result.
                  link_attempt id result.attempt_id
                  >> (note_reference id result.reference >> resolve id result.state))))
