-- ===== src/Intents/Completing.antt =====
-- `execute_brokered` of src/actenon_permit/intent.py comes to an end of the lifecycle.
use actenon_permit.Base.{
  ℕ, ◌≡◌, refl, sym, ap, ◌∙◌, true, Option, some, ==_iff, List, [], ◌∷◌, ◌++◌, arith, Bool-cases,
  inl, inr,
}
use actenon_permit.Base.Equality.{contains, nat_eq}
use actenon_permit.Result.{Result, ok}
use actenon_permit.Pdp.Reasons.{allow}
use actenon_permit.Broker.Coordinate.{BrokeredState}
use actenon_permit.Broker.Coordinate as Brokered
use actenon_permit.Intents.Lifecycle.{
  IntentLifecycle, created, evaluating, authorised, proof_issued, executing, can_transition,
  next_states,
}
use actenon_permit.Intents.Manager.{
  Intent, Manager, put, found, edit, update_state, transition, link_proof, link_attempt,
  add_attempt, of_brokered, Ended, run_brokered, after_decision, execute_brokered,
}

contains-append : (x : ℕ) (xs : List ℕ) → contains x (xs ++ x ∷ []) ≡ true
unfolding contains
contains-append x [] = rw ((==_iff x x).1 refl) refl
contains-append x (y ∷ ys) = ground (arith, contains-append x ys)

contains-add_attempt : (x : ℕ) (xs : List ℕ) → contains x (add_attempt x xs) ≡ true
unfolding add_attempt
contains-add_attempt x xs = elim (Bool-cases (contains x xs)) [
  | inl there ↦ rw (there, add_attempt) there
  | inr absent ↦ rw (absent, add_attempt) (contains-append x xs)
]

module _ (W : Type 0) where
  -- The store has this intent under this id, which is its own.
  record Has (m : Manager W) (id : ℕ) (i : Intent) : Type 0 where
    stored : m.intents id ≡ some i
    named : i.intent_id ≡ id

  put-Has : (m : Manager W) (id : ℕ) (i : Intent) → i.intent_id ≡ id → Has (put i m) id i
  unfolding put
  put-Has m id i named = record {
    stored = rw ((==_iff id i.intent_id).1 (sym named), put) refl;
    named = named;
  }

  found_of : (m : Manager W) (id : ℕ) (i : Intent) → Has m id i → found id m ≡ (ok i, m)
  unfolding found
  found_of m id i h = rw (h.stored, found) refl

  edit_of :
      (change : Intent → Intent) (m : Manager W) (id : ℕ) (i : Intent)
      → Has m id i
      → edit change id m ≡ (ok tt, put (change i) m)
  unfolding edit
  edit_of change m id i h = rw (found_of m id i h) refl

  -- An allowed transition is made.
  transition_of :
      (m : Manager W) (id : ℕ) (i : Intent) (s : IntentLifecycle)
      → Has m id i
      → can_transition i.lifecycle_state s ≡ true
      → transition id s m
        ≡ (ok (record i { lifecycle_state = s }), put (record i { lifecycle_state = s }) m)
  unfolding transition update_state
  transition_of m id i s h allowed =
      rw
        (
          found_of m id i h,
          allowed,
          found_of (put (record i { lifecycle_state = s }) m) id (record i { lifecycle_state = s })
              (put-Has m id (record i { lifecycle_state = s }) h.named),
        )
        refl

  ends_allowed : (state : BrokeredState) → can_transition executing (of_brokered state) ≡ true
  unfolding can_transition next_states of_brokered
  ends_allowed Brokered.succeeded = refl
  ends_allowed Brokered.failed = refl
  ends_allowed Brokered.refused_state = refl
  ends_allowed Brokered.outcome_unknown = refl

  module _ (coordinate : Intent → ℕ → W → Result (Ended BrokeredState) × W) (proof_id id : ℕ)
      (m : Manager W) (i : Intent) (e : Ended BrokeredState) (w : W) where
    -- The intent with its proof, and as it is when the coordinator is called.
    abbrev proven : Intent
    proven = record i { linked_proof_id = some proof_id }

    abbrev started : Intent
    started = record proven { lifecycle_state = executing }

    abbrev tried : Intent
    tried = record started { linked_attempt_ids = add_attempt e.attempt_id i.linked_attempt_ids }

    abbrev finished : Intent
    finished = record tried { lifecycle_state = of_brokered e.state }

    -- The store at each of the steps.
    abbrev before_call : Manager W
    before_call =
        put started (put (record proven { lifecycle_state = proof_issued }) (put proven m))

    abbrev after_call : Manager W
    after_call = put tried (record before_call { world = w })

    run_brokered_of :
        Has m id i
        → i.lifecycle_state ≡ authorised
        → coordinate started proof_id m.world ≡ (ok e, w)
        → run_brokered coordinate proof_id id m ≡ (ok (some e.state), put finished after_call)
    unfolding run_brokered link_proof link_attempt can_transition next_states put
    run_brokered_of h is_authorised answers =
        let linked =
          edit_of (λ (x : Intent). record x { linked_proof_id = some proof_id }) m id i h in
        let issuing = put-Has m id proven h.named in
        let allowed : can_transition i.lifecycle_state proof_issued ≡ true =
          ap (λ (x : IntentLifecycle). can_transition x proof_issued) is_authorised in
        let issued = transition_of (put proven m) id proven proof_issued issuing allowed in
        let m2 = put (record proven { lifecycle_state = proof_issued }) (put proven m) in
        let starting =
          put-Has (put proven m) id (record proven { lifecycle_state = proof_issued }) h.named in
        let begun =
          transition_of m2 id (record proven { lifecycle_state = proof_issued }) executing starting
            refl in
        let called = put-Has m2 id started h.named in
        let calling : Has (record before_call { world = w }) id started = record {
          stored = called.stored;
          named = h.named;
        } in
        let noted =
          edit_of
            (λ (x : Intent). record x {
              linked_attempt_ids = add_attempt e.attempt_id x.linked_attempt_ids;
            })
            (record before_call { world = w }) id started calling in
        let ending = put-Has (record before_call { world = w }) id tried h.named in
        let ended =
          transition_of after_call id tried (of_brokered e.state) ending (ends_allowed e.state) in
        rw (linked, issued, begun, answers, noted, ended) refl

  -- If an intent that is created stands under its id and the coordinator returns a result for it, then
  -- `execute_brokered` with an ALLOW decision returns, and leaves the intent in the state of that result,
  -- with the proof and the attempt linked, and the world as the coordinator left it.
  pub execute_brokered-completes :
      (coordinate : Intent → ℕ → W → Result (Ended BrokeredState) × W) (proof_id id : ℕ)
      (m : Manager W) (i : Intent) (e : Ended BrokeredState) (w : W)
      → m.intents id ≡ some i
      → i.intent_id ≡ id
      → i.lifecycle_state ≡ created
      → coordinate (started coordinate proof_id id m i e w) proof_id m.world ≡ (ok e, w)
      → (after : Intent) × ((execute_brokered coordinate allow proof_id id m).0 ≡ ok (some e.state))
        × ((execute_brokered coordinate allow proof_id id m).1.intents id ≡ some after)
        × (after.lifecycle_state ≡ of_brokered e.state)
        × (after.linked_proof_id ≡ some proof_id)
        × (contains e.attempt_id after.linked_attempt_ids ≡ true)
        × ((execute_brokered coordinate allow proof_id id m).1.world ≡ w)
  unfolding execute_brokered after_decision can_transition next_states put
  execute_brokered-completes coordinate proof_id id m i e w stored named is_created answers =
      let h : Has m id i = record { stored = stored; named = named } in
      let i1 : Intent = record i { lifecycle_state = evaluating } in
      let i2 : Intent = record i { lifecycle_state = authorised } in
      let allowed : can_transition i.lifecycle_state evaluating ≡ true =
        ap (λ (x : IntentLifecycle). can_transition x evaluating) is_created in
      let evaluated = transition_of m id i evaluating h allowed in
      let authorising = put-Has m id i1 named in
      let granted = transition_of (put i1 m) id i1 authorised authorising refl in
      let m2 = put i2 (put i1 m) in
      let ran =
        run_brokered_of coordinate proof_id id m2 i2 e w (put-Has (put i1 m) id i2 named) refl
          answers in
      let last = finished coordinate proof_id id m2 i2 e w in
      let before = after_call coordinate proof_id id m2 i2 e w in
      let whole : execute_brokered coordinate allow proof_id id m
          ≡ (ok (some e.state), put last before) =
        rw (evaluated, granted, ran) refl in
      (
        last,
        ap (λ (t : Result (Option BrokeredState) × Manager W). t.0) whole,
        ap (λ (t : Result (Option BrokeredState) × Manager W). t.1.intents id) whole
            ∙ (put-Has before id last named).stored,
        refl,
        refl,
        contains-add_attempt e.attempt_id i.linked_attempt_ids,
        ap (λ (t : Result (Option BrokeredState) × Manager W). t.1.world) whole,
      )
