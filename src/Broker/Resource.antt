-- ===== src/Broker/Resource.antt =====
-- `ResourceOwnedSubmissionClient` of src/actenon_permit/execution_modes.py. What the resource answers is an
-- argument; the verification of a receipt, which `build_resource_owned_result` of actenon_protocol asks for before it
-- makes a succeeded result, is a parameter.
use actenon_permit.Base.{
  ℕ, ◌≡◌, refl, ap, ◌∙◌, inl, inr, Bool, true, false, ◌&&◌, Option, none, some, leb, ltb,
  if◌then◌else◌, Bool-cases, Option-cases,
}
use actenon_permit.Base.Equality.{Text, text_beq}
use actenon_permit.Result.{Result, ok, err, not_an_object, ok-injective}
use actenon_permit.Texts.{codes, lower}

-- `ResourceOwnedExecutionState`
pub data ResourceState : Type 0 where
  submitted accepted succeeded failed refused outcome_unknown : ResourceState

-- The members of the JSON object that is answered; `status` is its text, empty where it is absent.
pub record Body : Type 0 where
  pub status : Text
  pub submission_reference : Option ℕ
  pub receipt : Option ℕ

-- How the request ends: with an HTTP error, a timeout, another exception, or an answer, which is `none` if it is
-- JSON but no object.
pub data Response : Type 0 where
  http_error : ℕ → Response
  timed_out : Response
  submission_error : Response
  replied : Option Body → Response

pub record ResourceResult : Type 0 where
  pub state : ResourceState
  pub provider_execution_observed : Bool
  pub receipt_received : Bool
  pub submission_reference : Option ℕ

-- `_build_non_success`
unfoldable pub non_success : ResourceState → ResourceResult
non_success state = record {
  state = state;
  provider_execution_observed = false;
  receipt_received = false;
  submission_reference = none;
}

-- A claimed success: without a receipt that verifies it is unknown.
unfoldable pub on_success : (ℕ → Bool) → Body → ResourceResult
on_success verifies body = elim body.receipt [
  | none ↦ non_success outcome_unknown
  | some receipt ↦
      if verifies receipt
      then record {
        state = succeeded;
        provider_execution_observed = true;
        receipt_received = true;
        submission_reference = body.submission_reference;
      }
      else non_success outcome_unknown
]

unfoldable pub on_body : (ℕ → Bool) → Body → ResourceResult
on_body verifies body =
    let status = lower body.status in
    if text_beq status (codes "accepted")
    then record {
      state = accepted;
      provider_execution_observed = false;
      receipt_received = false;
      submission_reference = body.submission_reference;
    }
    else if text_beq status (codes "succeeded")
    then on_success verifies body
    else if text_beq status (codes "refused")
    then non_success refused
    else non_success outcome_unknown

-- `submit`
unfoldable pub submit : (ℕ → Bool) → Response → Result ResourceResult
submit verifies (http_error code) =
    ok (non_success (if leb 400 code && ltb code 500 then refused else outcome_unknown))
submit verifies timed_out = ok (non_success outcome_unknown)
submit verifies submission_error = ok (non_success outcome_unknown)
submit verifies (replied none) = err not_an_object
submit verifies (replied (some body)) = ok (on_body verifies body)

on_success-receipt :
    (verifies : ℕ → Bool) (body : Body)
    → (on_success verifies body).state ≡ succeeded
    → (receipt : ℕ) × (body.receipt ≡ some receipt) × (verifies receipt ≡ true)
unfolding on_success non_success
on_success-receipt verifies body h = elim (Option-cases body.receipt) [
  | inl absent ↦ (let state = rw (absent, on_success) at h in cc)
  | inr (receipt, there) ↦ elim (Bool-cases (verifies receipt)) [
    | inl good ↦ (receipt, there, good)
    | inr forged ↦ (let state = rw (there, forged, on_success) at h in cc)
  ]
]

on_body-receipt :
    (verifies : ℕ → Bool) (body : Body)
    → (on_body verifies body).state ≡ succeeded
    → (receipt : ℕ) × (body.receipt ≡ some receipt) × (verifies receipt ≡ true)
unfolding on_body non_success
on_body-receipt verifies body h =
    elim (Bool-cases (text_beq (lower body.status) (codes "accepted"))) [
      | inl a ↦ (let state = rw (a, on_body) at h in cc)
      | inr a ↦ elim (Bool-cases (text_beq (lower body.status) (codes "succeeded"))) [
        | inl b ↦ on_success-receipt verifies body (rw (a, b, on_body) at h)
        | inr b ↦ elim (Bool-cases (text_beq (lower body.status) (codes "refused"))) [
          | inl c ↦ (let state = rw (a, b, c, on_body) at h in cc)
          | inr c ↦ (let state = rw (a, b, c, on_body) at h in cc)
        ]
      ]
    ]

-- A submission to a resource is reported as succeeded only where the resource answered with an object
-- that holds a receipt, and the receipt verifies.
pub submit-receipt :
    (verifies : ℕ → Bool) (answer : Response) (r : ResourceResult)
    → submit verifies answer ≡ ok r
    → r.state ≡ succeeded
    → (body : Body) × (receipt : ℕ) × (answer ≡ replied (some body))
      × (body.receipt ≡ some receipt)
      × (verifies receipt ≡ true)
unfolding submit non_success
submit-receipt verifies (http_error code) r h won =
    elim (Bool-cases (leb 400 code && ltb code 500)) [
      | inl client ↦
          (let state : ResourceState.refused ≡ r.state =
              ap (λ (x : ResourceResult). x.state) (ok-injective (rw client at h)) in
            cc)
      | inr server ↦
          (let state : outcome_unknown ≡ r.state =
              ap (λ (x : ResourceResult). x.state) (ok-injective (rw server at h)) in
            cc)
    ]
submit-receipt verifies timed_out r h won =
    let state : outcome_unknown ≡ r.state = ap (λ (x : ResourceResult). x.state) (ok-injective h) in
    cc
submit-receipt verifies submission_error r h won =
    let state : outcome_unknown ≡ r.state = ap (λ (x : ResourceResult). x.state) (ok-injective h) in
    cc
submit-receipt verifies (replied none) r h won = cc
submit-receipt verifies (replied (some body)) r h won =
    let state = ap (λ (x : ResourceResult). x.state) (ok-injective h) in
    let (receipt, there, good) = on_body-receipt verifies body (state ∙ won) in
    (body, receipt, refl, there, good)
