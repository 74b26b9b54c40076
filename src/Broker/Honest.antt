-- ===== src/Broker/Honest.antt =====
-- What the coordinator of src/actenon_permit/execution_modes.py reports is what happened.
use mathlib.Core.Path.{subst}
use actenon_permit.Base.{
  ℕ, ◌≡◌, ◌≢◌, ◌⊎◌, refl, sym, ap, ◌∙◌, arith, inl, inr, Bool, true, false, not, ◌&&◌, Option,
  Bool-cases,
}
use actenon_permit.Base.Equality.{Text, contains, text_eq, text_beq}
use actenon_permit.Result.{Result, ok, Result-cases, ok-injective}
use actenon_permit.Grant.{Grant}
use actenon_permit.Store.Tables.{Db}
use actenon_permit.Pdp.Rules.{Action}
use actenon_permit.Pdp.Reasons.{Decision}
use actenon_permit.Pdp.Decide.{reconcile}
use actenon_permit.Texts.{has_infix, codes}
use actenon_permit.Broker.Redaction.{ProviderResponse, final_redact, redacted}
use actenon_permit.Broker.Clean.{AreCleanMembers, final_redact-AreClean}
use actenon_permit.Broker.Execute.{
  Adapter, AdapterFailure, unsupported_action, invalid_parameters, unclear, adapter_error, crashed,
  Reply, responded, raised, Call, Credential, Resolution, resolved, unresolved, Broker, Desk,
  BrokerError, BrokerEnd, refused, without_allow, is_allow, error_of, adapter_supports_action,
  is_production, actual_cost, settle_call, after_call, use_credential, execute_via_adapter,
  experimental_error,
}
use actenon_permit.Broker.Coordinate.{
  BrokeredState, succeeded, failed, refused_state, outcome_unknown, BrokeredResult, refused_rules,
  map_broker_error_to_state, unsuccessful, success, release_reservation, on_error, after_error,
  conclude_call, coordinate, has_suffix,
}

abbrev pub call_of : Action → Credential → Option ℕ → Call
call_of action credential idempotency_key = record {
  action = action.action_type;
  params = action.params;
  secret = credential.value;
  idempotency_key = idempotency_key;
}

Resolution-cases :
    (r : Resolution)
    → ((c : Credential) × (r ≡ resolved c))
      ⊎ ((m : Text) × (again : Bool) × (r ≡ unresolved m again))
Resolution-cases (resolved c) = inl (c, refl)
Resolution-cases (unresolved m again) = inr (m, again, refl)

map_never_succeeds : (e : BrokerError) → map_broker_error_to_state e ≢ succeeded
unfolding map_broker_error_to_state
map_never_succeeds e h = ground (arith, h)

-- The two exceptions of an adapter that refuse the request.
abbrev pub is_rejection : AdapterFailure → Bool
is_rejection (unsupported_action m) = true
is_rejection (invalid_parameters m) = true
is_rejection f = false

crash_unknown :
    (provider_id secret class_name : Text)
    → map_broker_error_to_state (error_of provider_id secret (crashed class_name)) ≡ outcome_unknown
unfolding map_broker_error_to_state error_of contains text_beq has_suffix
crash_unknown id secret c = refl

refused-is_rejection :
    (provider_id secret : Text) (failure : AdapterFailure)
    → map_broker_error_to_state (error_of provider_id secret failure) ≡ refused_state
    → is_rejection failure ≡ true
unfolding map_broker_error_to_state error_of contains text_beq
refused-is_rejection id secret (unsupported_action m) h = refl
refused-is_rejection id secret (invalid_parameters m) h = refl
refused-is_rejection id secret (unclear m again) h = ground (arith, h)
refused-is_rejection id secret (adapter_error m again) h = ground (arith, h)
refused-is_rejection id secret (crashed c) h =
    let both : outcome_unknown ≡ refused_state = sym (crash_unknown id secret c) ∙ h in cc

module _ {W : Type 0} where
  first_end :
      {r r' : BrokeredResult} {d d' : Desk W}
      → (let t : Result BrokeredResult × Desk W = (ok r, d) in t ≡ (ok r', d'))
      → r ≡ r'
  first_end h = ok-injective (ap (λ (x : Result BrokeredResult × Desk W). x.0) h)

  second_end :
      {r r' : BrokeredResult} {d d' : Desk W}
      → (let t : Result BrokeredResult × Desk W = (ok r, d) in t ≡ (ok r', d'))
      → d ≡ d'
  second_end h = ap (λ (x : Result BrokeredResult × Desk W). x.1) h

module _ {W : Type 0} (broker : Broker) (grant : Grant) (action : Action)
    (adapter : Adapter W) where
  -- How `execute_via_adapter` ends: before the adapter is called, with what it raised, or with its response.
  pub data Executed (credential_ref : Text) (idempotency_key : Option ℕ) (desk : Desk W)
      : BrokerEnd × Desk W → Type 0 where
    not_allowed : Executed credential_ref idempotency_key desk (without_allow, desk)
    stopped :
        (e : BrokerError)
        → contains e.rule refused_rules ≡ true
        → Executed credential_ref idempotency_key desk (refused e, desk)
    experimental :
        (e : BrokerError)
        → e.rule ≡ codes "broker:experimental_adapter_disabled"
        → e.retryable ≡ false
        → Executed credential_ref idempotency_key desk (refused e, desk)
    failing :
        (credential : Credential) (failure : AdapterFailure) (world : W)
        → broker.resolve credential_ref ≡ resolved credential
        → adapter.execute (call_of action credential idempotency_key) desk.world
          ≡ (raised failure, world)
        → Executed credential_ref idempotency_key desk (
          refused (error_of adapter.provider_id credential.value failure),
          record desk { world = world },
        )
    responding :
        (credential : Credential) (response : ProviderResponse) (world : W)
        → broker.resolve credential_ref ≡ resolved credential
        → adapter.execute (call_of action credential idempotency_key) desk.world
          ≡ (responded response, world)
        → Executed credential_ref idempotency_key desk (
            settle_call broker grant action adapter
              (final_redact response credential.value)
              (record desk { world = world }))

  after_call-Executed :
      (credential_ref : Text) (idempotency_key : Option ℕ) (credential : Credential) (desk : Desk W)
      (reply : Reply × W)
      → broker.resolve credential_ref ≡ resolved credential
      → adapter.execute (call_of action credential idempotency_key) desk.world ≡ reply
      → Executed credential_ref idempotency_key desk
          (after_call broker grant action adapter credential.value reply desk)
  unfolding after_call
  after_call-Executed ref k credential desk (raised failure, world) found called =
      failing credential failure world found called
  after_call-Executed ref k credential desk (responded response, world) found called =
      responding credential response world found called

  pub execute_via_adapter-Executed :
      (decision : Decision) (credential_ref : Text) (idempotency_key : Option ℕ) (desk : Desk W)
      → Executed credential_ref idempotency_key desk (
          execute_via_adapter broker grant action adapter decision credential_ref idempotency_key
            desk)
  unfolding execute_via_adapter use_credential contains text_beq experimental_error
  execute_via_adapter-Executed decision ref k desk = elim (Bool-cases (is_allow decision.outcome)) [
    | inr no_allow ↦ rw (no_allow, execute_via_adapter) not_allowed
    | inl allowed ↦
        elim (Bool-cases (adapter_supports_action action.action_type adapter.supported_actions)) [
          | inr foreign ↦ rw (allowed, foreign, execute_via_adapter) (stopped _ refl)
          | inl known ↦
              elim (Bool-cases
                (is_production broker && adapter.experimental && not adapter.experimental_opt_in)) [
                  | inl disabled ↦
                      rw (allowed, known, disabled, execute_via_adapter) (experimental _ refl refl)
                  | inr enabled ↦
                      rw (allowed, known, enabled, execute_via_adapter)
                        (elim (Resolution-cases (broker.resolve ref)) [
                          | inr (m, again, failed_to) ↦ rw failed_to (stopped _ refl)
                          | inl (credential, found) ↦
                              rw found
                                (elim (Bool-cases
                                  (broker.production_mode && credential.development_only)) [
                                    | inl development ↦
                                        rw (development, use_credential) (stopped _ refl)
                                    | inr fit ↦
                                        rw (fit, use_credential)
                                          (after_call-Executed ref k credential desk _ found refl)
                                  ])
                        ])
                ]
        ]
  ]

  -- What a result says of the provider, the store and the credentials.
  pub record IsHonest (credential_ref : Text) (idempotency_key : Option ℕ) (desk : Desk W)
      (r : BrokeredResult) (desk' : Desk W) : Type 0 where
    pub destroyed : desk'.live ≡ desk.live
    pub refusal :
        r.state ≡ refused_state
        → (desk'.world ≡ desk.world)
          × ((desk'.db ≡ desk.db)
              ⊎ (desk'.db ≡ release_reservation broker grant action adapter desk.db))
    pub failure : r.state ≡ failed → desk'.db ≡ desk.db
    pub unknown : r.state ≡ outcome_unknown → desk'.db ≡ desk.db
    pub success :
        r.state ≡ succeeded
        → (credential : Credential) × (response : ProviderResponse) × (broker.resolve credential_ref
            ≡ resolved credential)
          × (adapter.execute (call_of action credential idempotency_key) desk.world
              ≡ (responded response, desk'.world))
          × (r.provider_evidence ≡ (final_redact response credential.value).provider_evidence)
          × (remaining : ℕ) × (reconcile grant action
                (actual_cost broker grant action adapter (final_redact response credential.value))
                desk.db
              ≡ (ok remaining, desk'.db))

  reported-IsHonest :
      (credential_ref : Text) (idempotency_key : Option ℕ) (desk middle : Desk W)
      (state : BrokeredState) (reason : Text) (r : BrokeredResult) (desk' : Desk W)
      → middle.live ≡ desk.live
      → middle.db ≡ desk.db
      → (state ≡ refused_state → middle.world ≡ desk.world)
      → state ≢ succeeded
      → unsuccessful state reason action ≡ r
      → after_error broker grant action adapter state middle ≡ desk'
      → IsHonest credential_ref idempotency_key desk r desk'
  unfolding unsuccessful release_reservation
  reported-IsHonest ref k desk middle refused_state reason r desk' live db world other is_r
        is_desk =
      let state : refused_state ≡ r.state = ap (λ (x : BrokeredResult). x.state) is_r in
      record {
        destroyed = sym (ap (λ (d : Desk W). d.live) is_desk) ∙ live;
        refusal = λ is_refused. (
          sym (ap (λ (d : Desk W). d.world) is_desk) ∙ world refl,
          inr (
              sym (ap (λ (d : Desk W). d.db) is_desk)
              ∙ ap (release_reservation broker grant action adapter) db),
        );
        failure = λ is_failed. cc;
        unknown = λ is_unknown. cc;
        success = λ is_succeeded. cc;
      }
  reported-IsHonest ref k desk middle failed reason r desk' live db world other is_r is_desk =
      let state : failed ≡ r.state = ap (λ (x : BrokeredResult). x.state) is_r in
      record {
        destroyed = sym (ap (λ (d : Desk W). d.live) is_desk) ∙ live;
        refusal = λ is_refused. cc;
        failure = λ is_failed. sym (ap (λ (d : Desk W). d.db) is_desk) ∙ db;
        unknown = λ is_unknown. cc;
        success = λ is_succeeded. cc;
      }
  reported-IsHonest ref k desk middle outcome_unknown reason r desk' live db world other is_r
        is_desk =
      let state : outcome_unknown ≡ r.state = ap (λ (x : BrokeredResult). x.state) is_r in
      record {
        destroyed = sym (ap (λ (d : Desk W). d.live) is_desk) ∙ live;
        refusal = λ is_refused. cc;
        failure = λ is_failed. cc;
        unknown = λ is_unknown. sym (ap (λ (d : Desk W). d.db) is_desk) ∙ db;
        success = λ is_succeeded. cc;
      }
  reported-IsHonest ref k desk middle succeeded reason r desk' live db world other is_r is_desk =
      absurd (other refl)

  -- An adapter that does not support an action or its parameters says so before it calls the provider.
  module _
      (polite : (call : Call) (world world' : W) (failure : AdapterFailure)
        → adapter.execute call world ≡ (raised failure, world')
        → is_rejection failure ≡ true
        → world' ≡ world) where
    conclude_call-IsHonest :
        (credential_ref : Text) (idempotency_key : Option ℕ) (desk : Desk W)
        (t : BrokerEnd × Desk W) (r : BrokeredResult) (desk' : Desk W)
        → Executed credential_ref idempotency_key desk t
        → conclude_call broker grant action adapter t ≡ (ok r, desk')
        → IsHonest credential_ref idempotency_key desk r desk'
    unfolding conclude_call on_error settle_call success
    conclude_call-IsHonest ref k desk t r desk' not_allowed h =
        (let ends = ap (λ (x : Result BrokeredResult × Desk W). x.0) h in cc)
    conclude_call-IsHonest ref k desk t r desk' (stopped e known) h =
        reported-IsHonest ref k desk desk (map_broker_error_to_state e) e.safe_message r desk' refl
          refl (λ x. refl) (map_never_succeeds e) (first_end h) (second_end h)
    conclude_call-IsHonest ref k desk t r desk' (experimental e rule once) h =
        reported-IsHonest ref k desk desk (map_broker_error_to_state e) e.safe_message r desk' refl
          refl (λ x. refl) (map_never_succeeds e) (first_end h) (second_end h)
    conclude_call-IsHonest ref k desk t r desk' (failing credential failure world found called) h =
        let e = error_of adapter.provider_id credential.value failure in
        reported-IsHonest ref k desk (record desk { world = world }) (map_broker_error_to_state e)
          e.safe_message r desk' refl refl
          (λ refusal.
            polite _ desk.world world failure called
              (refused-is_rejection adapter.provider_id credential.value failure refusal))
          (map_never_succeeds e) (first_end h) (second_end h)
    conclude_call-IsHonest ref k desk t r desk' (responding credential response world found called)
          h =
        let answer = final_redact response credential.value in
        let end = reconcile grant action (actual_cost broker grant action adapter answer) desk.db in
        let committed = λ (n : ℕ) (good : end.0 ≡ ok n).
          ap (λ (o : Result ℕ). (let t : Result ℕ × Db = (o, end.1) in t)) good in
        elim (Result-cases
          (reconcile grant action (actual_cost broker grant action adapter answer) desk.db).0) [
            | inr (e, bad) ↦
                (let ends =
                    ap (λ (x : Result BrokeredResult × Desk W). x.0)
                      (rw (bad, settle_call, conclude_call) at h) in
                  cc)
            | inl (remaining, good) ↦
                let both = rw (good, settle_call, conclude_call) at h in
                let result = first_end both in
                let state : succeeded ≡ r.state = ap (λ (x : BrokeredResult). x.state) result in
                let same = sym (second_end both) in
                record {
                  destroyed = ap (λ (d : Desk W). d.live) same;
                  refusal = λ is_refused. cc;
                  failure = λ is_failed. cc;
                  unknown = λ is_unknown. cc;
                  success = λ is_succeeded. (
                    credential,
                    response,
                    found,
                    called ∙ ap (λ (d : Desk W). (responded response, d.world)) (sym same),
                    sym (ap (λ (x : BrokeredResult). x.provider_evidence) result),
                    remaining,
                    committed remaining good ∙ ap (λ (d : Desk W). (ok remaining, d.db)) (sym same),
                  );
                }
          ]

    -- If the adapter rejects an action or its parameters before it calls the provider, then whenever
    -- `coordinate` returns a result: a refused one leaves the world, and the tables but for the released
    -- reservation; a failed or unknown one leaves the tables; a succeeded one has the redacted evidence of
    -- a response to this very call, and `reconcile` of its cost raised nothing and left these tables; and no
    -- resolved credential is left.
    pub coordinate-IsHonest :
        (decision : Decision) (credential_ref : Text) (idempotency_key : Option ℕ) (desk : Desk W)
        (r : BrokeredResult) (desk' : Desk W)
        → coordinate broker grant action adapter decision credential_ref idempotency_key desk
          ≡ (ok r, desk')
        → IsHonest credential_ref idempotency_key desk r desk'
    unfolding coordinate unsuccessful
    coordinate-IsHonest decision ref k desk r desk' h =
        elim (Bool-cases (is_allow decision.outcome)) [
          | inr no_allow ↦
              let both = rw (no_allow, coordinate) at h in
              let state : refused_state ≡ r.state =
                ap (λ (x : BrokeredResult). x.state) (first_end both) in
              let same = sym (second_end both) in
              record {
                destroyed = ap (λ (d : Desk W). d.live) same;
                refusal = λ is_refused.
                    (ap (λ (d : Desk W). d.world) same, inl (ap (λ (d : Desk W). d.db) same));
                failure = λ is_failed. ap (λ (d : Desk W). d.db) same;
                unknown = λ is_unknown. ap (λ (d : Desk W). d.db) same;
                success = λ is_succeeded. cc;
              }
          | inl allowed ↦
              conclude_call-IsHonest ref k desk _ r desk'
                (execute_via_adapter-Executed decision ref k desk) (rw (allowed, coordinate) at h)
        ]

    -- If the adapter rejects requests before it calls the provider, and the secret is no part of the marker
    -- that replaces it, then no text value in the evidence of a succeeded result has the secret in it.
    pub coordinate-keeps_secret :
        (decision : Decision) (credential_ref : Text) (idempotency_key : Option ℕ) (desk : Desk W)
        (r : BrokeredResult) (desk' : Desk W) (credential : Credential)
        → coordinate broker grant action adapter decision credential_ref idempotency_key desk
          ≡ (ok r, desk')
        → r.state ≡ succeeded
        → broker.resolve credential_ref ≡ resolved credential
        → has_infix credential.value redacted ≡ false
        → AreCleanMembers credential.value r.provider_evidence
    coordinate-keeps_secret decision ref k desk r desk' credential h won found differs =
        let honest = coordinate-IsHonest decision ref k desk r desk' h in
        let (used, response, found', _, evidence, _, _) = honest.success won in
        let both : resolved used ≡ resolved credential = sym found' ∙ found in
        let same : used ≡ credential = cc in
        subst (AreCleanMembers credential.value)
          (sym (
            evidence
            ∙ ap (λ (c : Credential). (final_redact response c.value).provider_evidence) same))
          (final_redact-AreClean response credential.value differs)

  experimental_failed :
      (e : BrokerError)
      → e.rule ≡ codes "broker:experimental_adapter_disabled"
      → e.retryable ≡ false
      → map_broker_error_to_state e ≡ failed
  unfolding map_broker_error_to_state contains text_beq has_suffix
  experimental_failed e rule once = rw (rule, once) refl

  disabled_state :
      map_broker_error_to_state (experimental_error broker grant action adapter) ≡ failed
  unfolding experimental_error
  disabled_state = experimental_failed (experimental_error broker grant action adapter) refl refl

  -- After ALLOW, for an adapter that supports the action but is experimental, not opted in and in
  -- production, `coordinate` reports that the call failed and that the provider was observed, though the
  -- world is as it was, and keeps the reservation.
  pub coordinate-experimental :
      (decision : Decision) (credential_ref : Text) (idempotency_key : Option ℕ) (desk : Desk W)
      → is_allow decision.outcome ≡ true
      → adapter_supports_action action.action_type adapter.supported_actions ≡ true
      → (is_production broker && adapter.experimental && not adapter.experimental_opt_in) ≡ true
      → (r : BrokeredResult) × (coordinate broker grant action adapter decision credential_ref
            idempotency_key desk
          ≡ (ok r, desk))
        × (r.state ≡ failed)
        × (r.provider_execution_observed ≡ true)
  unfolding coordinate execute_via_adapter conclude_call on_error unsuccessful
  coordinate-experimental decision ref k desk allowed known disabled =
      let e = experimental_error broker grant action adapter in
      let state = disabled_state in
      (
        unsuccessful failed e.safe_message action,
        rw (allowed, known, disabled, state) refl,
        refl,
        refl,
      )
