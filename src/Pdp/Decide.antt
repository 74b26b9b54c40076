-- ===== src/Pdp/Decide.antt =====
-- `PDP.decide` and `PDP.commit` of src/actenon_permit/pdp.py.
use actenon_permit.Base.{
  ℕ, Bool, false, not, ◌&&◌, ◌||◌, Option, none, some, ltb, ◌==◌, is_some, if◌then◌else◌,
}
use actenon_permit.Base.Int.{pos, ltb_ℤ}
use actenon_permit.Result.{Error, Result, ok, err}
use actenon_permit.Status.{active, expired, status_beq}
use actenon_permit.Budget.{Value}
use actenon_permit.Grant.{Grant, verify, permits_effect, is_empty}
use actenon_permit.Store.Tables.{Db}
use actenon_permit.Store.Settle.{set_status, release, commit}
use actenon_permit.Store.Queries.{rate_count}
use actenon_permit.Texts.{codes}
use actenon_permit.Pdp.Rules.{Action, scope_matches, first_rule, cost_of}
use actenon_permit.Pdp.Reasons.{
  Decision, deny, engine_error_code, Delta, nothing, released, engine_text,
}
use actenon_permit.Pdp.Steps.{
  Setting, World, EffectReservation, taken, denied, conclude, record_entry, take, effect_of,
  unverified, unapproved, inactive, too_late, scope_denied, out_of_scope, rate_limited, waits,
  reserve_denied, allowed,
}

module _ (s : Setting) (grant : Grant) (action : Action) (effect : Option EffectReservation) where
  -- `exact_effect_approved` where the check before it has passed
  abbrev pub is_finite : Bool
  is_finite = is_some grant.approved_effect_ids

  -- The seventh check and the decision to allow; `skip` is `skip_approval`.
  unfoldable pub settle_approval : Bool → Delta → World → Result Decision × World
  settle_approval skip snapshot w =
      if skip
      then conclude s grant action (allowed snapshot) w
      else elim (first_rule grant.approval_rules action) [
        | err e ↦ (err e, w)
        | ok none ↦ conclude s grant action (allowed snapshot) w
        | ok (some rule) ↦
            let cost = cost_of action.est_cost in
            conclude s grant action (waits (codes "approval required: ") rule (released cost))
              (record w { db = (release grant.id action.action_id cost w.db).1 })
      ]

  -- The reservation and what follows it.
  unfoldable pub charge_budget : Bool → World → Result Decision × World
  charge_budget skip w =
      let end = take s grant action effect w.db in
      let w' = record w { db = end.1 } in
      elim end.0 [
        | err e ↦ (err e, w')
        | ok (denied reason snapshot) ↦ conclude s grant action (reserve_denied reason snapshot) w'
        | ok (taken snapshot) ↦ settle_approval skip snapshot w'
      ]

  -- An effect without exact approval waits where a rule matches.
  unfoldable pub screen_effect : Bool → World → Result Decision × World
  screen_effect skip w =
      if is_some effect && not is_finite
      then elim (first_rule grant.approval_rules action) [
        | err e ↦ (err e, w)
        | ok none ↦ charge_budget skip w
        | ok (some rule) ↦
            conclude s grant action (waits (codes "exact effect approval required: ") rule nothing)
              w
      ]
      else charge_budget skip w

  -- `scopes.allow` is not empty and has no pattern for the action.
  unfoldable pub is_out_of_scope : Bool
  is_out_of_scope =
      not (is_empty grant.scopes.allow)
      && not (is_some (scope_matches grant.scopes.allow action.action_type))

  unfoldable pub is_rate_limited : Db → Bool
  is_rate_limited db =
      ltb_ℤ (pos 0) grant.rate.max
      && not
          (ltb_ℤ (pos (rate_count grant.id grant.rate.per_seconds s.counted_at db)) grant.rate.max)

  -- The checks of the scopes and of the rate, and what follows them.
  unfoldable pub screen_scopes : Bool → World → Result Decision × World
  screen_scopes skip w = elim (scope_matches grant.scopes.deny action.action_type) [
    | some pattern ↦ conclude s grant action (scope_denied pattern) w
    | none ↦
        if is_out_of_scope
        then conclude s grant action out_of_scope w
        else if is_rate_limited w.db
        then conclude s grant action (rate_limited grant) w
        else screen_effect skip w
  ]

  -- `approved_action_id == action.action_id`
  unfoldable pub is_approved : Option ℕ → Bool
  is_approved none = false
  is_approved (some id) = id == action.action_id

  -- `_decide_inner`
  unfoldable pub decide_inner : Option ℕ → World → Result Decision × World
  decide_inner approved_action_id w =
      let stop = λ (d : Decision). conclude s grant action d w in
      if not (verify s.key grant)
      then stop unverified
      else if not (permits_effect grant (effect_of s effect))
      then stop unapproved
      else if not (status_beq grant.status active)
      then stop (inactive grant.status)
      else if ltb grant.expires_at s.decided_at
      then conclude s grant action too_late (record w { db = set_status grant.id expired w.db })
      else screen_scopes (is_finite || is_approved approved_action_id) w

  unfoldable pub engine_error : Error → Decision
  engine_error e = record {
    outcome = deny;
    reason = engine_text s.printing e;
    rule_matched = none;
    state_delta = nothing;
    failure_code = some engine_error_code;
  }

  -- `decide`: it fails closed, and tries to record that.
  unfoldable pub fail_closed : Result Decision × World → Decision × World
  fail_closed (ok d, w) = (d, w)
  fail_closed (err e, w) =
      let d = engine_error e in
      elim (record_entry s action.grant_id grant action d w) [
        | err again ↦ (d, w)
        | ok rows ↦ (d, record w { log = rows })
      ]

  unfoldable pub decide : Option ℕ → World → Decision × World
  decide approved_action_id w = fail_closed (decide_inner approved_action_id w)

-- `PDP.commit`
unfoldable pub reconcile : Grant → Action → Value → Db → Result ℕ × Db
reconcile grant action actual_cost db =
    commit grant.id action.action_id actual_cost (cost_of action.est_cost) db
