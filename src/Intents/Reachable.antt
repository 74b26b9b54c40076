-- ===== src/Intents/Reachable.antt =====
-- What the table of transitions of src/actenon_permit/intent.py implies of the life of an intent.
use actenon_permit.Base.{
  ◌⊎◌, ◌≡◌, inl, inr, refl, arith, Bool, true, false, not, ◌&&◌, ◌||◌, List, [], ◌∷◌, all, ◌==◌,
  Bool-cases, ap, sym, ◌++◌, ◌∙◌,
}
use mathlib.Core.Path.{subst}
use actenon_permit.Intents.Lifecycle.{
  IntentLifecycle, created, evaluating, requires_approval, authorised, denied, proof_issued,
  executing, submitted, succeeded, failed, refused, outcome_unknown, cancelled, expired, number,
  next_states, can_transition, PathTo, starts, then_to,
}

abbrev states : List IntentLifecycle
states =
    created ∷ evaluating ∷ requires_approval ∷ authorised ∷ denied ∷ proof_issued ∷ executing
    ∷ submitted ∷ succeeded ∷ failed ∷ refused ∷ outcome_unknown ∷ cancelled ∷ expired ∷ []

-- A test that holds of every state that is listed holds of every state.
everywhere :
    (test : IntentLifecycle → Bool) (s : IntentLifecycle) → all test states ≡ true → test s ≡ true
everywhere test created h = ground arith
everywhere test evaluating h = ground arith
everywhere test requires_approval h = ground arith
everywhere test authorised h = ground arith
everywhere test denied h = ground arith
everywhere test proof_issued h = ground arith
everywhere test executing h = ground arith
everywhere test submitted h = ground arith
everywhere test succeeded h = ground arith
everywhere test failed h = ground arith
everywhere test refused h = ground arith
everywhere test outcome_unknown h = ground arith
everywhere test cancelled h = ground arith
everywhere test expired h = ground arith

-- The execution has been started, or is over.
abbrev pub is_started : IntentLifecycle → Bool
is_started executing = true
is_started submitted = true
is_started succeeded = true
is_started failed = true
is_started refused = true
is_started outcome_unknown = true
is_started s = false

implies : Bool → Bool → Bool
implies a b = not a || b

into_started :
    (m e : IntentLifecycle)
    → implies (can_transition m e && is_started e) (is_started m || number m == 5) ≡ true
unfolding implies can_transition next_states
into_started m e =
    everywhere (λ e. implies (can_transition m e && is_started e) (is_started m || number m == 5)) e
      (everywhere
        (λ m.
          all (λ e. implies (can_transition m e && is_started e) (is_started m || number m == 5))
            states)
        m refl)

into_proof : (m : IntentLifecycle) → implies (can_transition m proof_issued) (number m == 3) ≡ true
unfolding implies can_transition next_states
into_proof m = everywhere (λ m. implies (can_transition m proof_issued) (number m == 3)) m refl

is_proof_issued : (s : IntentLifecycle) → (number s == 5) ≡ true → s ≡ proof_issued
is_proof_issued created h = cc
is_proof_issued evaluating h = cc
is_proof_issued requires_approval h = cc
is_proof_issued authorised h = cc
is_proof_issued denied h = cc
is_proof_issued proof_issued h = refl
is_proof_issued executing h = cc
is_proof_issued submitted h = cc
is_proof_issued succeeded h = cc
is_proof_issued failed h = cc
is_proof_issued refused h = cc
is_proof_issued outcome_unknown h = cc
is_proof_issued cancelled h = cc
is_proof_issued expired h = cc

is_authorised : (s : IntentLifecycle) → (number s == 3) ≡ true → s ≡ authorised
is_authorised created h = cc
is_authorised evaluating h = cc
is_authorised requires_approval h = cc
is_authorised authorised h = refl
is_authorised denied h = cc
is_authorised proof_issued h = cc
is_authorised executing h = cc
is_authorised submitted h = cc
is_authorised succeeded h = cc
is_authorised failed h = cc
is_authorised refused h = cc
is_authorised outcome_unknown h = cc
is_authorised cancelled h = cc
is_authorised expired h = cc

-- The states of a path, the last one first.
pub history : {s e : IntentLifecycle} → PathTo s e → List IntentLifecycle
history {s} starts = s ∷ []
history (then_to e path ok) = e ∷ history path

-- A state in front of the history, with what it came from.
history_at :
    {s m : IntentLifecycle} (path : PathTo s m) (t : IntentLifecycle)
    → m ≡ t
    → (rest : List IntentLifecycle) × (history path ≡ t ∷ rest)
unfolding history
history_at {s} starts t same = ([], ap (λ (x : IntentLifecycle). x ∷ []) same)
history_at (then_to e path ok) t same =
    (history path, ap (λ (x : IntentLifecycle). x ∷ history path) same)

-- A proof is issued right after the authorisation.
history_of_proof :
    {e : IntentLifecycle} (path : PathTo created e)
    → e ≡ proof_issued
    → (earlier : List IntentLifecycle) × (history path ≡ proof_issued ∷ authorised ∷ earlier)
unfolding history implies
history_of_proof starts same = cc
history_of_proof (then_to {middle = m} e path ok) same =
    let into : can_transition m proof_issued ≡ true =
      subst (λ (x : IntentLifecycle). can_transition m x ≡ true) same ok in
    let (earlier, before) =
      history_at path authorised (is_authorised m (ground (arith, into, into_proof m))) in
    (
      earlier,
      ap (λ (x : IntentLifecycle). x ∷ history path) same
          ∙ ap (λ (x : List IntentLifecycle). proof_issued ∷ x) before,
    )

-- On every path of the table of transitions from the creation of an intent to a state in which it has
-- been started, or is over after that, it is authorised, its proof is issued in the very next step, and
-- every later state is such a one.
pub started-history :
    {e : IntentLifecycle} (path : PathTo created e)
    → is_started e ≡ true
    → (later earlier : List IntentLifecycle) × (history path
        ≡ later ++ proof_issued ∷ authorised ∷ earlier)
      × (all is_started later ≡ true)
unfolding history implies
started-history starts started = cc
started-history (then_to {middle = m} e path ok) started = elim (Bool-cases (is_started m)) [
  | inl before ↦
      let (later, earlier, split, ran) = started-history path before in
      (
        e ∷ later,
        earlier,
        ap (λ (x : List IntentLifecycle). e ∷ x) split,
        ground (arith, started, ran),
      )
  | inr fresh ↦
      let (earlier, split) =
        history_of_proof path
          (is_proof_issued m (ground (arith, ok, started, fresh, into_started m e))) in
      (e ∷ [], earlier, ap (λ (x : List IntentLifecycle). e ∷ x) split, ground (arith, started))
]

-- The ends of an intent.
abbrev pub is_over : IntentLifecycle → Bool
is_over denied = true
is_over succeeded = true
is_over failed = true
is_over refused = true
is_over cancelled = true
is_over expired = true
is_over s = false

-- An unknown outcome, or what its reconciliation finds.
abbrev pub is_unsettled_end : IntentLifecycle → Bool
is_unsettled_end outcome_unknown = true
is_unsettled_end succeeded = true
is_unsettled_end failed = true
is_unsettled_end s = false

leaves_end : (m e : IntentLifecycle) → implies (is_over m) (not (can_transition m e)) ≡ true
unfolding implies can_transition next_states
leaves_end m e =
    everywhere (λ e. implies (is_over m) (not (can_transition m e))) e
      (everywhere (λ m. all (λ e. implies (is_over m) (not (can_transition m e))) states) m refl)

leaves_unknown :
    (m e : IntentLifecycle)
    → implies (is_unsettled_end m && can_transition m e) (is_unsettled_end e) ≡ true
unfolding implies can_transition next_states
leaves_unknown m e =
    everywhere (λ e. implies (is_unsettled_end m && can_transition m e) (is_unsettled_end e)) e
      (everywhere
        (λ m.
          all (λ e. implies (is_unsettled_end m && can_transition m e) (is_unsettled_end e)) states)
        m refl)

from_end : {s e : IntentLifecycle} → PathTo s e → is_over s ≡ true → e ≡ s
unfolding implies
from_end starts over = refl
from_end {s} (then_to {middle = m} e path ok) over =
    let same : is_over m ≡ true =
      subst (λ (x : IntentLifecycle). is_over x ≡ true) (sym (from_end path over)) over in
    ground (arith, same, ok, leaves_end m e)

from_unknown :
    {s e : IntentLifecycle} → PathTo s e → is_unsettled_end s ≡ true → is_unsettled_end e ≡ true
unfolding implies
from_unknown starts h = h
from_unknown (then_to {middle = m} e path ok) h =
    let before = from_unknown path h in ground (arith, before, ok, leaves_unknown m e)

unsettled_end :
    (e : IntentLifecycle)
    → is_unsettled_end e ≡ true
    → (e ≡ outcome_unknown) ⊎ ((e ≡ succeeded) ⊎ (e ≡ failed))
unsettled_end created h = cc
unsettled_end evaluating h = cc
unsettled_end requires_approval h = cc
unsettled_end authorised h = cc
unsettled_end denied h = cc
unsettled_end proof_issued h = cc
unsettled_end executing h = cc
unsettled_end submitted h = cc
unsettled_end succeeded h = inr (inl refl)
unsettled_end failed h = inr (inr refl)
unsettled_end refused h = cc
unsettled_end outcome_unknown h = inl refl
unsettled_end cancelled h = cc
unsettled_end expired h = cc

-- By the table of transitions, an intent that is denied, succeeded, failed, refused, cancelled or expired
-- stays so; and one whose outcome is unknown stays so or becomes succeeded or failed.
pub over-path :
    {s e : IntentLifecycle}
    → PathTo s e
    → (is_over s ≡ true) ⊎ (s ≡ outcome_unknown)
    → (e ≡ s) ⊎ ((s ≡ outcome_unknown) × ((e ≡ succeeded) ⊎ (e ≡ failed)))
over-path path (inl over) = inl (from_end path over)
over-path {e = e} path (inr unknown) =
    elim (unsettled_end e (from_unknown path (ap is_unsettled_end unknown))) [
      | inl still ↦ inl (still ∙ sym unknown)
      | inr settled ↦ inr (unknown, settled)
    ]
