-- ===== src/Intents/Advancing.antt =====
-- The operations of src/actenon_permit/intent.py move every intent along the table of transitions.
use mathlib.Core.Path.{subst}
use actenon_permit.Base.{
  ℕ, ◌≡◌, refl, sym, ap, ◌∙◌, inl, inr, Option, none, some, ◌==◌, ==_iff, Bool-cases, Option-cases,
}
use actenon_permit.Result.{Result, ok, err}
use actenon_permit.Pdp.Reasons.{DecisionOutcome, allow, deny, require_approval}
use actenon_permit.Broker.Coordinate.{BrokeredState}
use actenon_permit.Broker.Resource.{ResourceState}
use actenon_permit.Intents.Lifecycle.{
  IntentLifecycle, number, can_transition, PathTo, starts, then_to, submitted,
}
use actenon_permit.Intents.Manager.{
  Intent, Manager, Operation, continue, ◌>>=◌, ◌>>◌, give, outside, put, found, edit, update_state,
  transition, link_proof, link_attempt, of_resource, Ended, run_brokered, after_decision,
  execute_brokered, link_first_proof, note_reference, resolve, submit_to_resource,
}

PathTo-trans : {a b c : IntentLifecycle} → PathTo a b → PathTo b c → PathTo a c
PathTo-trans p starts = p
PathTo-trans p (then_to end q allowed) = then_to end (PathTo-trans p q) allowed

module _ {W : Type 0} where
  -- Every intent stands under its id.
  unfoldable pub IsKeyed : Manager W → Type 0
  IsKeyed m = (id : ℕ) (intent : Intent) → m.intents id ≡ some intent → intent.intent_id ≡ id

  -- Every intent is still there, in a state that is reached from its state before.
  pub record Advances (m m' : Manager W) : Type 0 where
    pub keyed : IsKeyed m'
    pub moved :
        (id : ℕ) (intent : Intent)
        → m.intents id ≡ some intent
        → (after : Intent) × (m'.intents id ≡ some after)
          × PathTo intent.lifecycle_state after.lifecycle_state

  Advances-refl : (m : Manager W) → IsKeyed m → Advances m m
  Advances-refl m keyed = record {
    keyed = keyed;
    moved = λ id intent there. (intent, there, starts);
  }

  Advances-trans : {a b c : Manager W} → Advances a b → Advances b c → Advances a c
  Advances-trans p q = record {
    keyed = q.keyed;
    moved = λ id intent there.
        let (mid, there', first) = p.moved id intent there in
        let (last, there'', second) = q.moved id mid there' in
        (last, there'', PathTo-trans first second);
  }

-- An operation moves intents along the table, whatever it ends with.
IsSteady : (W A : Type 0) → Operation W A → Type 0
IsSteady W A op = (m : Manager W) → IsKeyed m → Advances m (op m).1

module _ (W : Type 0) where
  continue-Advances :
      {A B : Type 0} (m : Manager W) (next : A → Operation W B) (t : Result A × Manager W)
      → ((a : A) → IsSteady W _ (next a))
      → Advances m t.1
      → Advances m (continue next t).1
  unfolding IsSteady
  continue-Advances m next (err e, m') q far = far
  continue-Advances m next (ok a, m') q far = Advances-trans far (q a m' far.keyed)

  >>=-IsSteady :
      {A B : Type 0} (first : Operation W A) (next : A → Operation W B)
      → IsSteady W _ first
      → ((a : A) → IsSteady W _ (next a))
      → IsSteady W _ (first >>= next)
  unfolding IsSteady
  >>=-IsSteady first next p q m keyed = continue-Advances m next (first m) q (p m keyed)

  -- An intent is replaced by one of the same id, further on its way.
  put-Advances :
      (m : Manager W) (id : ℕ) (intent after : Intent)
      → IsKeyed m
      → m.intents id ≡ some intent
      → after.intent_id ≡ intent.intent_id
      → PathTo intent.lifecycle_state after.lifecycle_state
      → Advances m (put after m)
  unfolding put IsKeyed
  put-Advances m id intent after keyed there same path =
      let is_id : after.intent_id ≡ id = same ∙ keyed id intent there in
      record {
        keyed = λ j i there'. elim (Bool-cases (j == after.intent_id)) [
          | inl hit ↦
              let both : some after ≡ some i = rw hit at there' in
              let same_intent : after ≡ i = cc in
              sym (ap (λ (x : Intent). x.intent_id) same_intent)
              ∙ sym ((==_iff j after.intent_id).0 hit)
          | inr miss ↦ keyed j i (rw miss at there')
        ];
        moved = λ j i there'. elim (Bool-cases (j == after.intent_id)) [
          | inl hit ↦
              let is_j : j ≡ id = (==_iff j after.intent_id).0 hit ∙ is_id in
              let both : some i ≡ some intent = sym there' ∙ ap m.intents is_j ∙ there in
              let same_intent : i ≡ intent = cc in
              (
                after,
                rw hit refl,
                subst (λ (x : Intent). PathTo x.lifecycle_state after.lifecycle_state)
                    (sym same_intent) path,
              )
          | inr miss ↦ (i, rw miss there', starts)
        ];
      }

  found-IsSteady : (id : ℕ) → IsSteady W _ (found id)
  unfolding found IsSteady
  found-IsSteady id m keyed = elim (Option-cases (m.intents id)) [
    | inl absent ↦ rw (absent, found) (Advances-refl m keyed)
    | inr (intent, there) ↦ rw (there, found) (Advances-refl m keyed)
  ]

  give-IsSteady : {A : Type 0} (a : A) → IsSteady W _ (give a)
  unfolding IsSteady
  give-IsSteady a m keyed = Advances-refl m keyed

  outside-IsSteady : {A : Type 0} (run : W → Result A × W) → IsSteady W _ (outside run)
  unfolding IsKeyed IsSteady
  outside-IsSteady run m keyed = record {
    keyed = keyed;
    moved = λ id intent there. (intent, there, starts);
  }

  edit-IsSteady :
      (change : Intent → Intent) (id : ℕ)
      → ((i : Intent) → (change i).intent_id ≡ i.intent_id)
      → ((i : Intent) → (change i).lifecycle_state ≡ i.lifecycle_state)
      → IsSteady W _ (edit change id)
  unfolding edit found IsSteady
  edit-IsSteady change id same_id same_state m keyed = elim (Option-cases (m.intents id)) [
    | inl absent ↦ rw (absent, found) (Advances-refl m keyed)
    | inr (intent, there) ↦
        rw (there, found)
          (put-Advances m id intent (change intent) keyed there (same_id intent)
            (subst (PathTo intent.lifecycle_state) (sym (same_state intent)) starts))
  ]

  update_state-IsSteady :
      (id : ℕ) (new_state : IntentLifecycle) → IsSteady W _ (update_state id new_state)
  unfolding update_state found IsSteady
  update_state-IsSteady id new_state m keyed = elim (Option-cases (m.intents id)) [
    | inl absent ↦ rw (absent, found) (Advances-refl m keyed)
    | inr (intent, there) ↦ elim (Bool-cases (can_transition intent.lifecycle_state new_state)) [
      | inl allowed ↦
          rw (there, allowed, found)
            (put-Advances m id intent (record intent { lifecycle_state = new_state }) keyed there
              refl (then_to new_state starts allowed))
      | inr refused ↦ rw (there, refused, found) (Advances-refl m keyed)
    ]
  ]

  transition-IsSteady :
      (id : ℕ) (new_state : IntentLifecycle) → IsSteady W _ (transition id new_state)
  unfolding transition
  transition-IsSteady id new_state =
      >>=-IsSteady (update_state id new_state) (λ x. found id) (update_state-IsSteady id new_state)
        (λ x. found-IsSteady id)

  -- One operation after another, where the first one's value is not used.
  >>-IsSteady :
      {A B : Type 0} (first : Operation W A) (rest : Operation W B)
      → IsSteady W _ first
      → IsSteady W _ rest
      → IsSteady W _ (first >> rest)
  >>-IsSteady first rest p q = >>=-IsSteady first (λ x. rest) p (λ x. q)

  link_proof-IsSteady : (id proof_id : ℕ) → IsSteady W _ (link_proof id proof_id)
  unfolding link_proof
  link_proof-IsSteady id proof_id = edit-IsSteady _ id (λ i. refl) (λ i. refl)

  link_attempt-IsSteady : (id attempt_id : ℕ) → IsSteady W _ (link_attempt id attempt_id)
  unfolding link_attempt
  link_attempt-IsSteady id attempt_id = edit-IsSteady _ id (λ i. refl) (λ i. refl)

  module _ (coordinate : Intent → ℕ → W → Result (Ended BrokeredState) × W) where
    run_brokered-IsSteady : (proof_id id : ℕ) → IsSteady W _ (run_brokered coordinate proof_id id)
    unfolding run_brokered
    run_brokered-IsSteady proof_id id = >>-IsSteady _ _ (link_proof-IsSteady id proof_id) (
        >>-IsSteady _ _ (transition-IsSteady id _) (
          >>=-IsSteady _ _ (transition-IsSteady id _) (λ intent.
            >>=-IsSteady _ _ (outside-IsSteady (coordinate intent proof_id)) (λ (result : Ended _).
              >>-IsSteady _ _ (link_attempt-IsSteady id result.attempt_id)
                (>>-IsSteady _ _ (transition-IsSteady id _) (give-IsSteady (some result.state)))))))

    after_decision-IsSteady :
        (outcome : DecisionOutcome) (proof_id id : ℕ)
        → IsSteady W _ (after_decision coordinate outcome proof_id id)
    unfolding after_decision
    after_decision-IsSteady deny proof_id id =
        >>-IsSteady _ _ (transition-IsSteady id _) (give-IsSteady none)
    after_decision-IsSteady require_approval proof_id id =
        >>-IsSteady _ _ (transition-IsSteady id _)
          (>>-IsSteady _ _ (transition-IsSteady id _) (run_brokered-IsSteady proof_id id))
    after_decision-IsSteady allow proof_id id =
        >>-IsSteady _ _ (transition-IsSteady id _) (run_brokered-IsSteady proof_id id)

    execute_brokered-IsSteady :
        (outcome : DecisionOutcome) (proof_id id : ℕ)
        → IsSteady W _ (execute_brokered coordinate outcome proof_id id)
    unfolding execute_brokered
    execute_brokered-IsSteady outcome proof_id id =
        >>-IsSteady _ _ (transition-IsSteady id _) (after_decision-IsSteady outcome proof_id id)

    -- In a store that keeps intents under their ids, after a call of `execute_brokered`, also one that
    -- raises, every intent is still there, in a state that the table of transitions reaches from its state
    -- before; whatever the coordinator does.
    pub execute_brokered-Advances :
        (outcome : DecisionOutcome) (proof_id id : ℕ) (m : Manager W)
        → IsKeyed m
        → Advances m (execute_brokered coordinate outcome proof_id id m).1
    unfolding IsSteady
    execute_brokered-Advances outcome proof_id id m keyed =
        execute_brokered-IsSteady outcome proof_id id m keyed

  link_first_proof-IsSteady :
      (id proof_id : ℕ) (intent : Intent) → IsSteady W _ (link_first_proof id proof_id intent)
  unfolding link_first_proof
  link_first_proof-IsSteady id proof_id intent = elim (Option-cases intent.linked_proof_id) [
    | inl absent ↦ rw (absent, link_first_proof) (link_proof-IsSteady id proof_id)
    | inr (linked, there) ↦ rw (there, link_first_proof) (give-IsSteady tt)
  ]

  note_reference-IsSteady : (id : ℕ) (o : Option ℕ) → IsSteady W _ (note_reference id o)
  unfolding note_reference
  note_reference-IsSteady id none = give-IsSteady tt
  note_reference-IsSteady id (some reference) = edit-IsSteady _ id (λ i. refl) (λ i. refl)

  resolve-IsSteady : (id : ℕ) (state : ResourceState) → IsSteady W _ (resolve id state)
  unfolding resolve
  resolve-IsSteady id state = elim (Bool-cases (number (of_resource state) == number submitted)) [
    | inl same ↦ rw (same, resolve) (give-IsSteady (some state))
    | inr other ↦
        rw (other, resolve)
          (>>-IsSteady _ _ (transition-IsSteady id (of_resource state))
            (give-IsSteady (some state)))
  ]

  submit_to_resource-IsSteady :
      (submit : Intent → W → Result (Ended ResourceState) × W) (proof_id id : ℕ)
      → IsSteady W _ (submit_to_resource submit proof_id id)
  unfolding submit_to_resource
  submit_to_resource-IsSteady submit proof_id id = >>-IsSteady _ _ (transition-IsSteady id _) (
      >>=-IsSteady _ _ (transition-IsSteady id _) (λ intent.
        >>-IsSteady _ _ (link_first_proof-IsSteady id proof_id intent) (
          >>-IsSteady _ _ (transition-IsSteady id _) (
            >>=-IsSteady _ _ (transition-IsSteady id _) (λ sent.
              >>=-IsSteady _ _ (outside-IsSteady (submit sent)) (λ (result : Ended _).
                >>-IsSteady _ _ (link_attempt-IsSteady id result.attempt_id) (
                  >>-IsSteady _ _ (note_reference-IsSteady id result.reference)
                    (resolve-IsSteady id result.state))))))))

  -- In a store that keeps intents under their ids, after a call of `submit_to_resource`, also one that
  -- raises, every intent is still there, in a state that the table of transitions reaches from its state
  -- before; whatever the resource answers.
  pub submit_to_resource-Advances :
      (submit : Intent → W → Result (Ended ResourceState) × W) (proof_id id : ℕ) (m : Manager W)
      → IsKeyed m
      → Advances m (submit_to_resource submit proof_id id m).1
  unfolding IsSteady
  submit_to_resource-Advances submit proof_id id m keyed =
      submit_to_resource-IsSteady submit proof_id id m keyed
