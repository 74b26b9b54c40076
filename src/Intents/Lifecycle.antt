-- ===== src/Intents/Lifecycle.antt =====
-- The lifecycle of an intent, of src/actenon_permit/intent.py.
use actenon_permit.Base.{ℕ, Bool, true, List, [], ◌∷◌, any, ◌==◌, ◌≡◌}

pub data IntentLifecycle : Type 0 where
  created evaluating requires_approval authorised denied proof_issued executing : IntentLifecycle
  submitted succeeded failed refused outcome_unknown cancelled expired : IntentLifecycle

-- The members of the enumeration, numbered.
abbrev pub number : IntentLifecycle → ℕ
number created = 0
number evaluating = 1
number requires_approval = 2
number authorised = 3
number denied = 4
number proof_issued = 5
number executing = 6
number submitted = 7
number succeeded = 8
number failed = 9
number refused = 10
number outcome_unknown = 11
number cancelled = 12
number expired = 13

-- `INTENT_TRANSITIONS`
unfoldable pub next_states : IntentLifecycle → List IntentLifecycle
next_states created = evaluating ∷ cancelled ∷ expired ∷ []
next_states evaluating = requires_approval ∷ authorised ∷ denied ∷ expired ∷ []
next_states requires_approval = authorised ∷ denied ∷ cancelled ∷ expired ∷ []
next_states authorised = proof_issued ∷ expired ∷ cancelled ∷ []
next_states proof_issued = executing ∷ submitted ∷ expired ∷ cancelled ∷ []
next_states executing = succeeded ∷ failed ∷ refused ∷ outcome_unknown ∷ expired ∷ []
next_states submitted = succeeded ∷ failed ∷ refused ∷ outcome_unknown ∷ expired ∷ []
next_states succeeded = []
next_states failed = []
next_states refused = []
next_states outcome_unknown = succeeded ∷ failed ∷ outcome_unknown ∷ []
next_states denied = []
next_states cancelled = []
next_states expired = []

-- `can_transition`
unfoldable pub can_transition : IntentLifecycle → IntentLifecycle → Bool
can_transition current next_state = any (λ s. number s == number next_state) (next_states current)

-- A sequence of allowed transitions.
pub data PathTo (start : IntentLifecycle) : IntentLifecycle → Type 0 where
  starts : PathTo start start
  then_to :
      {middle : IntentLifecycle} (end : IntentLifecycle)
      → PathTo start middle
      → can_transition middle end ≡ true
      → PathTo start end
