-- ===== src/Pdp/Allowing.antt =====
-- When the decision point of src/actenon_permit/pdp.py allows an action.
use actenon_permit.Base.{
  ℕ, ◌≡◌, ◌↔◌, ◌≤◌, ◌⊎◌, refl, sym, ap, ◌∙◌, arith, inl, inr, Bool, true, false, not, ◌&&◌, ◌||◌,
  Option, none, Bool-cases, Option-cases, is_some, ltb,
}
use actenon_permit.Result.{Result, ok, err, Result-cases, ok-injective}
use actenon_permit.Status.{Status, active, revoked, expired, exhausted, status_beq}
use actenon_permit.Base.Equality.{Text}
use actenon_permit.Grant.{Grant, verify, permits_effect}
use actenon_permit.Store.Tables.{Db}
use actenon_permit.Pdp.Rules.{Action, scope_matches, first_rule}
use actenon_permit.Pdp.Reasons.{Decision, allow, deny, Delta}
use actenon_permit.Pdp.Steps.{
  Setting, World, EffectReservation, Reservation, taken, denied, conclude, record_entry, take,
  effect_of, allowed, waits, reserve_denied, unverified, unapproved, inactive, too_late,
  scope_denied, out_of_scope, rate_limited,
}
use actenon_permit.Pdp.Decide.{
  is_finite, settle_approval, charge_budget, screen_effect, screen_scopes, is_out_of_scope,
  is_rate_limited, is_approved, decide_inner, fail_closed, decide, engine_error,
}

-- An entry was made for a decision, and nothing else of the ledger or the store has changed.
pub record IsEntered (s : Setting) (grant : Grant) (action : Action) (d : Decision) (w w' : World)
    : Type 0 where
  pub tables : w'.db ≡ w.db
  pub entry : record_entry s grant.id grant action d w ≡ ok w'.log

pub conclude-ok :
    (s : Setting) (grant : Grant) (action : Action) (d d' : Decision) (w w' : World)
    → conclude s grant action d w ≡ (ok d', w')
    → (d' ≡ d) × IsEntered s grant action d w w'
unfolding conclude
conclude-ok s grant action d d' w w' h =
    elim (Result-cases (record_entry s grant.id grant action d w)) [
      | inr (e, bad) ↦ (let both = rw (bad, conclude) at h in cc)
      | inl (rows, good) ↦
          let both = rw (good, conclude) at h in
          let ends = ap (λ (t : Result Decision × World). t.0) both in
          let worlds = ap (λ (t : Result Decision × World). t.1) both in
          (
            sym (ok-injective ends),
            record {
              tables = sym (ap (λ (x : World). x.db) worlds);
              entry = good ∙ ap (λ (x : World). ok x.log) worlds;
            },
          )
    ]

pair_eq {ℓ κ} :
    {A : Type ℓ} {B : Type κ} (t : A × B) {a : A} {b : B} → t.0 ≡ a → b ≡ t.1 → t ≡ (a, b)
pair_eq t first second = rw (second, sym first) refl

-- A decision that is concluded with is the decision.
concluded_outcome :
    (s : Setting) (grant : Grant) (action : Action) (d d' : Decision) (w w' : World)
    → conclude s grant action d w ≡ (ok d', w')
    → d'.outcome ≡ d.outcome
concluded_outcome s grant action d d' w w' h =
    ap (λ (x : Decision). x.outcome) (conclude-ok s grant action d d' w w' h).0

is_active : (status : Status) → status_beq status active ≡ true → status ≡ active
unfolding status_beq
is_active active h = refl
is_active revoked h = cc
is_active expired h = cc
is_active exhausted h = cc

module _ (s : Setting) (grant : Grant) (action : Action) (effect : Option EffectReservation) where
  -- The reservation was granted, and the approval is there or not asked for.
  pub record IsCharged (skip : Bool) (w : World) (d : Decision) (w' : World) : Type 0 where
    pub snapshot : Delta
    pub charged : take s grant action effect w.db ≡ (ok (taken snapshot), w'.db)
    pub approved : (skip ≡ true) ⊎ (first_rule grant.approval_rules action ≡ ok none)
    pub decision : d ≡ allowed snapshot
    pub entered : record_entry s grant.id grant action d (record w { db = w'.db }) ≡ ok w'.log

  settle_approval-allow :
      (skip : Bool) (snapshot : Delta) (w : World) (d : Decision) (w' : World)
      → settle_approval s grant action effect skip snapshot w ≡ (ok d, w')
      → d.outcome ≡ allow
      → ((skip ≡ true) ⊎ (first_rule grant.approval_rules action ≡ ok none))
        × ((d ≡ allowed snapshot) × IsEntered s grant action (allowed snapshot) w w')
  unfolding settle_approval waits
  settle_approval-allow true snapshot w d w' h is_allow =
      (inl refl, conclude-ok s grant action (allowed snapshot) d w w' h)
  settle_approval-allow false snapshot w d w' h is_allow =
      elim (Result-cases (first_rule grant.approval_rules action)) [
        | inr (e, bad) ↦ (let both = rw (bad, settle_approval) at h in cc)
        | inl (found, good) ↦ elim (Option-cases found) [
          | inl no_rule ↦ (
            inr (good ∙ ap (λ (o : Option Text). ok o) no_rule),
            conclude-ok s grant action (allowed snapshot) d w w' (rw (good, no_rule) at h),
          )
          | inr (rule, a_rule) ↦
              let waiting = concluded_outcome s grant action _ d _ w' (rw (good, a_rule) at h) in cc
        ]
      ]

  charge_budget-allow :
      (skip : Bool) (w : World) (d : Decision) (w' : World)
      → charge_budget s grant action effect skip w ≡ (ok d, w')
      → d.outcome ≡ allow
      → IsCharged skip w d w'
  unfolding charge_budget reserve_denied
  charge_budget-allow skip w d w' h is_allow =
      let db' = (take s grant action effect w.db).1 in
      let charged_world : World = record w { db = db' } in
      elim (Result-cases (take s grant action effect w.db).0) [
        | inr (e, bad) ↦ (let both = rw (bad, charge_budget) at h in cc)
        | inl (denied reason snapshot, good) ↦
            let stopped =
              concluded_outcome s grant action (reserve_denied reason snapshot) d charged_world w'
                (rw (good, charge_budget) at h) in
            cc
        | inl (taken snapshot, good) ↦
            let (why, (decision, entered)) =
              settle_approval-allow skip snapshot charged_world d w' (rw (good, charge_budget) at h)
                is_allow in
            record {
              snapshot = snapshot;
              charged = pair_eq (take s grant action effect w.db) good entered.tables;
              approved = why;
              decision = decision;
              entered = rw (decision, entered.tables) entered.entry;
            }
      ]

  screen_effect-allow :
      (skip : Bool) (w : World) (d : Decision) (w' : World)
      → screen_effect s grant action effect skip w ≡ (ok d, w')
      → d.outcome ≡ allow
      → ((is_some effect && not (is_finite s grant action effect)) ≡ true
          → first_rule grant.approval_rules action ≡ ok none)
        × IsCharged skip w d w'
  unfolding screen_effect waits
  screen_effect-allow skip w d w' h is_allow =
      elim (Bool-cases (is_some effect && not (is_finite s grant action effect))) [
        | inr direct ↦ (
          λ bound. cc,
          charge_budget-allow skip w d w' (rw (direct, screen_effect) at h) is_allow,
        )
        | inl bound ↦ elim (Result-cases (first_rule grant.approval_rules action)) [
          | inr (e, bad) ↦ (let both = rw (bound, bad, screen_effect) at h in cc)
          | inl (found, good) ↦ elim (Option-cases found) [
            | inl no_rule ↦ (
              λ b. good ∙ ap (λ (o : Option Text). ok o) no_rule,
              charge_budget-allow skip w d w' (rw (bound, good, no_rule, screen_effect) at h)
                  is_allow,
            )
            | inr (rule, a_rule) ↦
                let waiting =
                  concluded_outcome s grant action _ d w w'
                    (rw (bound, good, a_rule, screen_effect) at h) in
                cc
          ]
        ]
      ]

  -- A decision to deny is not one to allow.
  stopped :
      (end d : Decision) (w w' : World)
      → conclude s grant action end w ≡ (ok d, w')
      → d.outcome ≡ allow
      → end.outcome ≡ deny
      → ⊥
  stopped end d w w' h is_allow is_deny =
      let same = concluded_outcome s grant action end d w w' h in cc

  -- The scopes admit the action, the rate is not reached, and what follows allowed it.
  pub record IsScreened (skip : Bool) (w : World) (d : Decision) (w' : World) : Type 0 where
    pub not_denied : scope_matches grant.scopes.deny action.action_type ≡ none
    pub in_scope : is_out_of_scope s grant action effect ≡ false
    pub below_rate : is_rate_limited s grant action effect w.db ≡ false
    pub exact_or_no_rule :
        (is_some effect && not (is_finite s grant action effect)) ≡ true
        → first_rule grant.approval_rules action ≡ ok none
    pub charged : IsCharged skip w d w'

  screen_scopes-allow :
      (skip : Bool) (w : World) (d : Decision) (w' : World)
      → screen_scopes s grant action effect skip w ≡ (ok d, w')
      → d.outcome ≡ allow
      → IsScreened skip w d w'
  unfolding screen_scopes scope_denied rate_limited
  screen_scopes-allow skip w d w' h is_allow =
      elim (Option-cases (scope_matches grant.scopes.deny action.action_type)) [
        | inr (pattern, hit) ↦
            absurd
              (stopped (scope_denied pattern) d w w' (rw (hit, screen_scopes) at h) is_allow refl)
        | inl free ↦ elim (Bool-cases (is_out_of_scope s grant action effect)) [
          | inl outside ↦
              absurd
                (stopped out_of_scope d w w' (rw (free, outside, screen_scopes) at h) is_allow refl)
          | inr inside ↦ elim (Bool-cases (is_rate_limited s grant action effect w.db)) [
            | inl limited ↦ absurd (
                stopped (rate_limited grant) d w w' (rw (free, inside, limited, screen_scopes) at h)
                  is_allow refl)
            | inr below ↦
                let (exact, charged) =
                  screen_effect-allow skip w d w' (rw (free, inside, below, screen_scopes) at h)
                    is_allow in
                record {
                  not_denied = free;
                  in_scope = inside;
                  below_rate = below;
                  exact_or_no_rule = exact;
                  charged = charged;
                }
          ]
        ]
      ]

  pub record IsAllowed (approved_action_id : Option ℕ) (w : World) (d : Decision) (w' : World)
      : Type 0 where
    pub signed : verify s.key grant ≡ true
    pub effect_approved : permits_effect grant (effect_of s effect) ≡ true
    pub usable : grant.status ≡ active
    pub in_time : s.decided_at ≤ grant.expires_at
    pub screened :
        IsScreened
          (is_finite s grant action effect || is_approved s grant action effect approved_action_id)
          w
          d
          w'

  decide_inner-allow :
      (approved_action_id : Option ℕ) (w : World) (d : Decision) (w' : World)
      → decide_inner s grant action effect approved_action_id w ≡ (ok d, w')
      → d.outcome ≡ allow
      → IsAllowed approved_action_id w d w'
  unfolding decide_inner inactive
  decide_inner-allow approved w d w' h is_allow = elim (Bool-cases (verify s.key grant)) [
    | inr unsigned ↦
        absurd (stopped unverified d w w' (rw (unsigned, decide_inner) at h) is_allow refl)
    | inl signed ↦ elim (Bool-cases (permits_effect grant (effect_of s effect))) [
      | inr foreign ↦
          absurd (stopped unapproved d w w' (rw (signed, foreign, decide_inner) at h) is_allow refl)
      | inl effects ↦ elim (Bool-cases (status_beq grant.status active)) [
        | inr idle ↦ absurd (
            stopped (inactive grant.status) d w w' (rw (signed, effects, idle, decide_inner) at h)
              is_allow refl)
        | inl usable ↦ elim (Bool-cases (ltb grant.expires_at s.decided_at)) [
          | inl late ↦ absurd (
              stopped too_late d _ w' (rw (signed, effects, usable, late, decide_inner) at h)
                is_allow refl)
          | inr in_time ↦
              let screened =
                screen_scopes-allow _ w d w'
                  (rw (signed, effects, usable, in_time, decide_inner) at h) is_allow in
              record {
                signed = signed;
                effect_approved = effects;
                usable = is_active grant.status usable;
                in_time = ground (arith, in_time);
                screened = screened;
              }
        ]
      ]
    ]
  ]

  fail_closed-allow :
      (t : Result Decision × World) (d : Decision) (w' : World)
      → fail_closed s grant action effect t ≡ (d, w')
      → d.outcome ≡ allow
      → t ≡ (ok d, w')
  unfolding fail_closed engine_error
  fail_closed-allow (ok d', w) d w' h is_allow = ap (λ (x : Decision × World). (ok x.0, x.1)) h
  fail_closed-allow (err e, w) d w' h is_allow =
      elim (Result-cases
        (record_entry s action.grant_id grant action (engine_error s grant action effect e) w)) [
          | inl (rows, good) ↦
              let ends = ap (λ (x : Decision × World). x.0.outcome) (rw (good, fail_closed) at h) in
              cc
          | inr (again, bad) ↦
              let ends = ap (λ (x : Decision × World). x.0.outcome) (rw (bad, fail_closed) at h) in
              cc
        ]

  conclude_of :
      (d : Decision) (w w' : World)
      → record_entry s grant.id grant action d (record w { db = w'.db }) ≡ ok w'.log
      → conclude s grant action d (record w { db = w'.db }) ≡ (ok d, w')
  unfolding conclude
  conclude_of d w w' entered = rw (entered, conclude) refl

  settle_approval_of :
      (skip : Bool) (w : World) (d : Decision) (w' : World) (c : IsCharged skip w d w')
      → settle_approval s grant action effect skip c.snapshot (record w { db = w'.db }) ≡ (ok d, w')
  unfolding settle_approval
  settle_approval_of true w d w' c = rw (sym c.decision) (conclude_of d w w' c.entered)
  settle_approval_of false w d w' c = elim c.approved [
    | inl skipped ↦ cc
    | inr no_rule ↦ rw (no_rule, sym c.decision) (conclude_of d w w' c.entered)
  ]

  charge_budget_of :
      (skip : Bool) (w : World) (d : Decision) (w' : World)
      → IsCharged skip w d w'
      → charge_budget s grant action effect skip w ≡ (ok d, w')
  unfolding charge_budget
  charge_budget_of skip w d w' c =
      let end = ap (λ (t : Result Reservation × Db). t.0) c.charged in
      let tables = ap (λ (t : Result Reservation × Db). t.1) c.charged in
      rw (end, tables, charge_budget) (settle_approval_of skip w d w' c)

  screen_scopes_of :
      (skip : Bool) (w : World) (d : Decision) (w' : World)
      → IsScreened skip w d w'
      → screen_scopes s grant action effect skip w ≡ (ok d, w')
  unfolding screen_scopes screen_effect
  screen_scopes_of skip w d w' c =
      let charged = charge_budget_of skip w d w' c.charged in
      elim (Bool-cases (is_some effect && not (is_finite s grant action effect))) [
        | inl bound ↦
            rw
              (
                c.not_denied,
                c.in_scope,
                c.below_rate,
                bound,
                c.exact_or_no_rule bound,
                charged,
                screen_scopes,
                screen_effect,
              )
              refl
        | inr direct ↦
            rw
              (
                c.not_denied, c.in_scope, c.below_rate, direct, charged, screen_scopes,
                screen_effect,
              )
              refl
      ]

  decide_of :
      (approved_action_id : Option ℕ) (w : World) (d : Decision) (w' : World)
      → IsAllowed approved_action_id w d w'
      → decide s grant action effect approved_action_id w ≡ (d, w')
  unfolding decide decide_inner fail_closed status_beq
  decide_of approved w d w' c =
      let screened = screen_scopes_of _ w d w' c.screened in
      let on_time : ltb grant.expires_at s.decided_at ≡ false = ground (arith, c.in_time) in
      let usable : status_beq grant.status active ≡ true =
        ap (λ (x : Status). status_beq x active) c.usable in
      rw (c.signed, c.effect_approved, usable, on_time, screened, decide_inner) refl

  -- A call of `decide` ends with a decision to allow exactly when the grant verifies, permits the effect,
  -- is active and not past its expiry; no denied scope matches the action, an allowed one does where
  -- there are any, and the rate is not reached; the reservation is granted; the approval is there or no
  -- rule asks for it, an effect without exact approval being asked always; and the entry is appended.
  pub decide-allow_iff :
      (approved_action_id : Option ℕ) (w : World) (d : Decision) (w' : World)
      → ((decide s grant action effect approved_action_id w ≡ (d, w')) × (d.outcome ≡ allow))
        ↔ IsAllowed approved_action_id w d w'
  unfolding decide allowed
  decide-allow_iff approved w d w' = (
    λ (h, is_allow).
        decide_inner-allow approved w d w'
          (fail_closed-allow (decide_inner s grant action effect approved w) d w' h is_allow)
          is_allow,
    λ c.
        (decide_of approved w d w' c, ap (λ (x : Decision). x.outcome) c.screened.charged.decision),
  )
