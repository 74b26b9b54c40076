-- ===== src/Tests/Lives.antt =====
-- An intent that is executed, and one that is submitted to its resource.
use actenon_permit.Base.{
  ℕ, suc, List, all, ◌++◌, ◌⊎◌, inr, ◌≡◌, refl, none, some, [], ◌∷◌, ◌==◌, if◌then◌else◌, arith,
  true,
}
use actenon_permit.Result.{Result, ok}
use actenon_permit.Texts.{codes, lower, has_prefix}
use actenon_permit.Base.Equality.{contains, text_beq, nat_eq}
use actenon_permit.Pdp.Reasons.{allow}
use actenon_permit.Broker.Coordinate.{BrokeredState}
use actenon_permit.Broker.Coordinate as Brokered
use actenon_permit.Broker.Resource.{ResourceState}
use actenon_permit.Broker.Resource as Resource
use actenon_permit.Intents.Lifecycle.{
  IntentLifecycle, created, evaluating, authorised, proof_issued, executing, succeeded, failed,
  outcome_unknown, PathTo, starts, then_to, next_states, can_transition,
}
use actenon_permit.Intents.Reachable.{history, is_started, started-history, over-path}
use actenon_permit.Intents.Metadata.{
  Metadata, validate_metadata, check_entries, is_secret, is_forbidden,
}
use actenon_permit.Intents.Manager.{
  Intent, Manager, brokered, Ended, execute_brokered, submit_to_resource, after_decision,
  run_brokered, transition, update_state, found, put, edit, link_proof, link_attempt, add_attempt,
  of_brokered, of_resource, link_first_proof, note_reference, resolve,
}
use actenon_permit.Intents.Completing.{execute_brokered-completes}
use actenon_permit.Intents.Advancing.{
  IsKeyed, Advances, execute_brokered-Advances, submit_to_resource-Advances,
}

executed : PathTo created executing
unfolding can_transition next_states
executed =
    then_to executing
      (then_to proof_issued (then_to authorised (then_to evaluating starts refl) refl) refl) refl

started-history_example :
    (later earlier : List IntentLifecycle) × (history executed
      ≡ later ++ proof_issued ∷ authorised ∷ earlier)
    × (all is_started later ≡ true)
started-history_example = started-history executed refl

reconciled : PathTo outcome_unknown failed
unfolding can_transition next_states
reconciled = then_to failed (then_to outcome_unknown starts refl) refl

over-path_example :
    (failed ≡ outcome_unknown)
    ⊎ ((outcome_unknown ≡ outcome_unknown) × ((failed ≡ succeeded) ⊎ (failed ≡ failed)))
over-path_example = over-path reconciled (inr refl)

abbrev metadata : Metadata
metadata = record {
  entries = record { key = codes "ticket"; text_value = some (codes "T-1"); value = 0 } ∷ [];
  bytes = 17;
}

accepts : validate_metadata metadata ≡ ok tt
unfolding validate_metadata check_entries is_secret is_forbidden contains text_beq lower has_prefix
accepts = refl

abbrev intent : Intent
intent = record {
  intent_id = 1;
  action_type = codes "p";
  action_params = 0;
  target_type = codes "t";
  target_id = 0;
  requested_execution_mode = brokered;
  requester_subject = 0;
  requester_agent_id = 0;
  requester_tenant_id = none;
  idempotency_key = none;
  created_at = 0;
  expiry = none;
  metadata = metadata;
  lifecycle_state = created;
  linked_decision_id = none;
  linked_proof_id = none;
  linked_attempt_ids = [];
  linked_receipt_id = none;
  linked_refusal_id = none;
  submission_reference = none;
}

abbrev manager : Manager ℕ
manager = record { intents = λ id. if id == 1 then some intent else none; world = 0 }

keyed : IsKeyed manager
unfolding IsKeyed
keyed id i there = ground arith

-- An attempt that succeeds, and counts the calls.
abbrev run_once : Intent → ℕ → ℕ → Result (Ended BrokeredState) × ℕ
run_once i proof calls =
    (ok (record { state = Brokered.succeeded; attempt_id = 9; reference = none }), suc calls)

abbrev submit_once : Intent → ℕ → Result (Ended ResourceState) × ℕ
submit_once i calls =
    (ok (record { state = Resource.accepted; attempt_id = 9; reference = some 4 }), suc calls)

execution_ends : (execute_brokered run_once allow 5 1 manager).0 ≡ ok (some Brokered.succeeded)
unfolding execute_brokered after_decision run_brokered transition update_state found put edit
    link_proof link_attempt add_attempt of_brokered can_transition next_states contains
execution_ends = refl

execute_brokered-Advances_example : Advances manager (execute_brokered run_once allow 5 1 manager).1
execute_brokered-Advances_example = execute_brokered-Advances ℕ run_once allow 5 1 manager keyed

submission_ends : (submit_to_resource submit_once 5 1 manager).0 ≡ ok (some Resource.accepted)
unfolding submit_to_resource transition update_state found put edit link_first_proof link_proof
    link_attempt add_attempt note_reference resolve of_resource can_transition next_states contains
submission_ends = refl

submit_to_resource-Advances_example :
    Advances manager (submit_to_resource submit_once 5 1 manager).1
submit_to_resource-Advances_example = submit_to_resource-Advances ℕ submit_once 5 1 manager keyed

abbrev completion : Ended BrokeredState
completion = record { state = Brokered.succeeded; attempt_id = 9; reference = none }

execute_brokered-completes_example :
    (after : Intent) × ((execute_brokered run_once allow 5 1 manager).0
      ≡ ok (some Brokered.succeeded))
    × ((execute_brokered run_once allow 5 1 manager).1.intents 1 ≡ some after)
    × (after.lifecycle_state ≡ of_brokered Brokered.succeeded)
    × (after.linked_proof_id ≡ some 5)
    × (contains 9 after.linked_attempt_ids ≡ true)
    × ((execute_brokered run_once allow 5 1 manager).1.world ≡ 1)
execute_brokered-completes_example =
    execute_brokered-completes ℕ run_once 5 1 manager intent completion 1 refl refl refl refl
