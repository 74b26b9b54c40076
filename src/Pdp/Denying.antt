-- ===== src/Pdp/Denying.antt =====
-- What the decision point of src/actenon_permit/pdp.py leaves of the store when it denies an action.
use actenon_permit.Base.{
  ℕ, ◌≡◌, ◌≢◌, ◌⊎◌, refl, sym, ap, ◌∙◌, inl, inr, Bool, true, false, not, ◌&&◌, Option, none, some,
  Bool-cases, Option-cases, is_some, ltb,
}
use actenon_permit.Base.Equality.{Text}
use actenon_permit.Result.{Result, ok, err, Result-cases}
use actenon_permit.Status.{active, expired, status_beq}
use actenon_permit.Budget.{units}
use actenon_permit.Grant.{Grant, verify, permits_effect}
use actenon_permit.Store.Tables.{Db}
use actenon_permit.Store.Settle.{set_status}
use actenon_permit.Store.Reserve.{Outcome, reserve, Request, Snapshot}
use actenon_permit.Store.Reserve as Reserve
use actenon_permit.Store.Charging.{reserve-keeps_otherwise}
use actenon_permit.Effects.{EffectOutcome, EffectRequest, finish_effect, reserve_effect, Protocol}
use actenon_permit.Effects as Effects
use actenon_permit.Grant.{Signing}
use actenon_permit.Pdp.Rules.{Action, scope_matches, first_rule, cost_of}
use actenon_permit.Pdp.Reasons.{Decision, deny, Delta, Printing}
use actenon_permit.Pdp.Steps.{
  Setting, World, EffectReservation, taken, denied, conclude, record_entry, take, effect_of,
  allowed, waits, reserve_denied, too_late, of_outcome, of_effect, map_result,
}
use actenon_permit.Pdp.Decide.{
  is_finite, settle_approval, charge_budget, screen_effect, screen_scopes, is_out_of_scope,
  is_rate_limited, decide_inner, fail_closed, decide, engine_error,
}
use actenon_permit.Pdp.Allowing.{conclude-ok}

-- A reservation of an effect that is not granted leaves the tables.
finish_effect-keeps :
    (db : Db) (t : Result EffectOutcome × Db) (p : Printing) (id : ℕ) (reason : Text)
    (snapshot : Delta)
    → map_result (of_effect p id) (finish_effect db t).0 ≡ ok (denied reason snapshot)
    → (finish_effect db t).1 ≡ db
unfolding finish_effect map_result of_effect
finish_effect-keeps db (ok (Effects.effect_reserved s ref), d) p id reason snapshot h = cc
finish_effect-keeps db (ok Effects.effect_taken, d) p id reason snapshot h = refl
finish_effect-keeps db (ok Effects.attempt_used, d) p id reason snapshot h = refl
finish_effect-keeps db (ok (Effects.effect_refused r), d) p id reason snapshot h = refl
finish_effect-keeps db (err e, d) p id reason snapshot h = refl

not_reserved :
    (p : Printing) (o : Result Outcome) (reason : Text) (snapshot : Delta)
    → map_result (of_outcome p) o ≡ ok (denied reason snapshot)
    → (s : Snapshot) → o ≢ ok (Reserve.reserved s)
unfolding map_result of_outcome
not_reserved p (ok (Reserve.reserved t)) reason snapshot h s same = cc
not_reserved p (ok (Reserve.refused r)) reason snapshot h s same = cc
not_reserved p (err e) reason snapshot h s same = cc

reserve_effect-keeps :
    (protocol : Protocol) (key : Signing) (r : EffectRequest) (now : ℕ) (db : Db) (p : Printing)
    (id : ℕ) (reason : Text) (snapshot : Delta)
    → map_result (of_effect p id) (reserve_effect protocol key r now db).0
      ≡ ok (denied reason snapshot)
    → (reserve_effect protocol key r now db).1 ≡ db
unfolding reserve_effect
reserve_effect-keeps protocol key r now db p id reason snapshot h =
    elim (Option-cases r.action_hash) [
      | inl absent ↦ rw (absent, reserve_effect) refl
      | inr (hash, there) ↦ elim (Result-cases (units r.amount)) [
        | inr (e, bad) ↦ rw (there, bad, reserve_effect) refl
        | inl (z, exact) ↦
            rw (there, exact, reserve_effect)
              (finish_effect-keeps db _ p id reason snapshot
                (rw (there, exact, reserve_effect) at h))
      ]
    ]

denied-keeps :
    (s : Setting) (grant : Grant) (action : Action) (effect : Option EffectReservation) (db : Db)
    (reason : Text) (snapshot : Delta)
    → (take s grant action effect db).0 ≡ ok (denied reason snapshot)
    → (take s grant action effect db).1 ≡ db
unfolding take
denied-keeps s grant action none db reason snapshot h =
    reserve-keeps_otherwise s.key (cost_of action.est_cost) _ s.reserved_at db _ _ refl
      (not_reserved s.printing _ reason snapshot h)
denied-keeps s grant action (some r) db reason snapshot h =
    reserve_effect-keeps s.protocol s.key _ s.reserved_at db s.printing _ reason snapshot h

module _ (s : Setting) (grant : Grant) (action : Action) (effect : Option EffectReservation) where
  -- Of a decision that is concluded with, the tables stay.
  kept :
      (end d : Decision) (w w' : World) → conclude s grant action end w ≡ (ok d, w') → w'.db ≡ w.db
  kept end d w w' h = (conclude-ok s grant action end d w w' h).1.tables

  -- A decision that is not to deny was not concluded with.
  elsewhere :
      (end d : Decision) (w w' : World)
      → conclude s grant action end w ≡ (ok d, w')
      → d.outcome ≡ deny
      → end.outcome ≢ deny
      → ⊥
  elsewhere end d w w' h is_deny other =
      other (
        sym (ap (λ (x : Decision). x.outcome) (conclude-ok s grant action end d w w' h).0)
        ∙ is_deny)

  settle_approval-deny :
      (skip : Bool) (snapshot : Delta) (w : World) (d : Decision) (w' : World)
      → settle_approval s grant action effect skip snapshot w ≡ (ok d, w')
      → d.outcome ≢ deny
  unfolding settle_approval allowed waits
  settle_approval-deny true snapshot w d w' h is_deny =
      elsewhere (allowed snapshot) d w w' h is_deny (λ same. cc)
  settle_approval-deny false snapshot w d w' h is_deny =
      elim (Result-cases (first_rule grant.approval_rules action)) [
        | inr (e, bad) ↦ (let both = rw (bad, settle_approval) at h in cc)
        | inl (found, good) ↦ elim (Option-cases found) [
          | inl no_rule ↦
              elsewhere (allowed snapshot) d w w' (rw (good, no_rule) at h) is_deny (λ same. cc)
          | inr (rule, a_rule) ↦ elsewhere _ d _ w' (rw (good, a_rule) at h) is_deny (λ same. cc)
        ]
      ]

  charge_budget-deny :
      (skip : Bool) (w : World) (d : Decision) (w' : World)
      → charge_budget s grant action effect skip w ≡ (ok d, w')
      → d.outcome ≡ deny
      → w'.db ≡ w.db
  unfolding charge_budget
  charge_budget-deny skip w d w' h is_deny =
      let charged : World = record w { db = (take s grant action effect w.db).1 } in
      elim (Result-cases (take s grant action effect w.db).0) [
        | inr (e, bad) ↦ (let both = rw (bad, charge_budget) at h in cc)
        | inl (denied reason snapshot, good) ↦
            kept (reserve_denied reason snapshot) d charged w' (rw (good, charge_budget) at h)
            ∙ denied-keeps s grant action effect w.db reason snapshot good
        | inl (taken snapshot, good) ↦ absurd (
            settle_approval-deny skip snapshot charged d w' (rw (good, charge_budget) at h) is_deny)
      ]

  screen_effect-deny :
      (skip : Bool) (w : World) (d : Decision) (w' : World)
      → screen_effect s grant action effect skip w ≡ (ok d, w')
      → d.outcome ≡ deny
      → w'.db ≡ w.db
  unfolding screen_effect waits
  screen_effect-deny skip w d w' h is_deny =
      elim (Bool-cases (is_some effect && not (is_finite s grant action effect))) [
        | inr direct ↦ charge_budget-deny skip w d w' (rw (direct, screen_effect) at h) is_deny
        | inl bound ↦ elim (Result-cases (first_rule grant.approval_rules action)) [
          | inr (e, bad) ↦ (let both = rw (bound, bad, screen_effect) at h in cc)
          | inl (found, good) ↦ elim (Option-cases found) [
            | inl no_rule ↦
                charge_budget-deny skip w d w' (rw (bound, good, no_rule, screen_effect) at h)
                  is_deny
            | inr (rule, a_rule) ↦ kept _ d w w' (rw (bound, good, a_rule, screen_effect) at h)
          ]
        ]
      ]

  screen_scopes-deny :
      (skip : Bool) (w : World) (d : Decision) (w' : World)
      → screen_scopes s grant action effect skip w ≡ (ok d, w')
      → d.outcome ≡ deny
      → w'.db ≡ w.db
  unfolding screen_scopes
  screen_scopes-deny skip w d w' h is_deny =
      elim (Option-cases (scope_matches grant.scopes.deny action.action_type)) [
        | inr (pattern, hit) ↦ kept _ d w w' (rw (hit, screen_scopes) at h)
        | inl free ↦ elim (Bool-cases (is_out_of_scope s grant action effect)) [
          | inl outside ↦ kept _ d w w' (rw (free, outside, screen_scopes) at h)
          | inr inside ↦ elim (Bool-cases (is_rate_limited s grant action effect w.db)) [
            | inl limited ↦ kept _ d w w' (rw (free, inside, limited, screen_scopes) at h)
            | inr below ↦
                screen_effect-deny skip w d w' (rw (free, inside, below, screen_scopes) at h)
                  is_deny
          ]
        ]
      ]

  decide_inner-deny :
      (approved_action_id : Option ℕ) (w : World) (d : Decision) (w' : World)
      → decide_inner s grant action effect approved_action_id w ≡ (ok d, w')
      → d.outcome ≡ deny
      → (w'.db ≡ w.db) ⊎ (w'.db ≡ set_status grant.id expired w.db)
  unfolding decide_inner
  decide_inner-deny approved w d w' h is_deny = elim (Bool-cases (verify s.key grant)) [
    | inr a ↦ inl (kept _ d w w' (rw (a, decide_inner) at h))
    | inl a ↦ elim (Bool-cases (permits_effect grant (effect_of s effect))) [
      | inr b ↦ inl (kept _ d w w' (rw (a, b, decide_inner) at h))
      | inl b ↦ elim (Bool-cases (status_beq grant.status active)) [
        | inr c ↦ inl (kept _ d w w' (rw (a, b, c, decide_inner) at h))
        | inl c ↦ elim (Bool-cases (ltb grant.expires_at s.decided_at)) [
          | inl late ↦ inr (
              kept too_late d (record w { db = set_status grant.id expired w.db }) w'
                (rw (a, b, c, late, decide_inner) at h))
          | inr in_time ↦
              inl (screen_scopes-deny _ w d w' (rw (a, b, c, in_time, decide_inner) at h) is_deny)
        ]
      ]
    ]
  ]

  fail_closed-rule :
      (t : Result Decision × World) (d : Decision) (w' : World)
      → fail_closed s grant action effect t ≡ (d, w')
      → d.rule_matched ≢ none
      → t ≡ (ok d, w')
  unfolding fail_closed engine_error
  fail_closed-rule (ok d', w) d w' h ruled = ap (λ (x : Decision × World). (ok x.0, x.1)) h
  fail_closed-rule (err e, w) d w' h ruled =
      elim (Result-cases
        (record_entry s action.grant_id grant action (engine_error s grant action effect e) w)) [
          | inl (rows, good) ↦ absurd (
              ruled (
                sym
                  (ap (λ (x : Decision × World). x.0.rule_matched) (rw (good, fail_closed) at h))))
          | inr (again, bad) ↦ absurd (
              ruled (
                sym (ap (λ (x : Decision × World). x.0.rule_matched) (rw (bad, fail_closed) at h))))
        ]

  -- A decision to deny that names a rule leaves the tables as they were, but for the status of the grant
  -- where that is set to expired: nothing is charged and nothing stays reserved.
  pub decide-deny :
      (approved_action_id : Option ℕ) (w : World) (d : Decision) (w' : World)
      → decide s grant action effect approved_action_id w ≡ (d, w')
      → d.outcome ≡ deny
      → d.rule_matched ≢ none
      → (w'.db ≡ w.db) ⊎ (w'.db ≡ set_status grant.id expired w.db)
  unfolding decide
  decide-deny approved w d w' h is_deny ruled =
      decide_inner-deny approved w d w' (fail_closed-rule _ d w' h ruled) is_deny
