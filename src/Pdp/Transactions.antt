-- ===== src/Pdp/Transactions.antt =====
-- What a decision of src/actenon_permit/pdp.py does to the store: it runs the store's own transactions.
use actenon_permit.Base.{
  ℕ, ◌≡◌, refl, ◌∙◌, inl, inr, Bool, true, false, not, ◌&&◌, Option, none, some, Bool-cases,
  Option-cases, is_some, ltb, if◌then◌else◌, List,
}
use actenon_permit.Result.{Result, ok, err, Result-cases, >>=-eq-ok}
use actenon_permit.Status.{active, expired, status_beq}
use actenon_permit.Grant.{Grant, verify, permits_effect}
use actenon_permit.Store.Tables.{Db}
use actenon_permit.Store.Settle.{set_status}
use actenon_permit.Store.Books.{reserve_step, release_step, status_step}
use actenon_permit.Runs.{Run, Move, here, next, store_move, reserve_move}
use actenon_permit.Ledger.{Fields, LedgerRow, append}
use actenon_permit.Ledger as Ledger
use actenon_permit.Ledger.Chain.{append-verify}
use actenon_permit.Pdp.Rules.{Action, scope_matches, first_rule}
use actenon_permit.Pdp.Reasons.{Decision, Delta}
use actenon_permit.Pdp.Steps.{
  Setting, World, EffectReservation, taken, denied, conclude, record_entry, take, effect_of,
  unverified, unapproved, inactive, too_late,
}
use actenon_permit.Pdp.Decide.{
  is_finite, settle_approval, charge_budget, screen_effect, screen_scopes, is_out_of_scope,
  is_rate_limited, decide_inner, fail_closed, decide, engine_error,
}

-- A property of the store and the ledger that entries and transactions preserve.
module _ (s : Setting) (grant : Grant) (action : Action) (effect : Option EffectReservation)
    (P : World → Type 0)
    (entered : (w : World) (fields : Fields) (real_cost exact_cost : Option ℕ)
        (rows : List LedgerRow)
      → append s.hashing fields real_cost exact_cost w.log ≡ ok rows
      → P w
      → P (record w { log = rows }))
    (moved : (w : World) (db' : Db)
      → Move s.protocol s.key w.db db'
      → P w
      → P (record w { db = db' })) where
  record_entry-P :
      (grant_id : ℕ) (d : Decision) (w : World) (rows : List LedgerRow)
      → record_entry s grant_id grant action d w ≡ ok rows
      → P w
      → P (record w { log = rows })
  unfolding record_entry
  record_entry-P grant_id d w rows good p =
      let ((real_cost, exact_cost), _, appended) =
        >>=-eq-ok (s.writing.costs action.est_cost) _ good in
      entered w _ real_cost exact_cost rows appended p

  conclude-P : (d : Decision) (w : World) → P w → P (conclude s grant action d w).1
  unfolding conclude
  conclude-P d w p = elim (Result-cases (record_entry s grant.id grant action d w)) [
    | inr (e, bad) ↦ rw (bad, conclude) p
    | inl (rows, good) ↦ rw (good, conclude) (record_entry-P grant.id d w rows good p)
  ]

  settle_approval-P :
      (skip : Bool) (snapshot : Delta) (w : World)
      → P w
      → P (settle_approval s grant action effect skip snapshot w).1
  unfolding settle_approval
  settle_approval-P true snapshot w run = conclude-P _ w run
  settle_approval-P false snapshot w run =
      elim (Result-cases (first_rule grant.approval_rules action)) [
        | inr (e, bad) ↦ rw (bad, settle_approval) run
        | inl (found, good) ↦ elim (Option-cases found) [
          | inl no_rule ↦ rw (good, no_rule, settle_approval) (conclude-P _ w run)
          | inr (rule, a_rule) ↦
              rw (good, a_rule, settle_approval)
                (conclude-P _ _
                  (moved w _ (store_move (release_step grant.id action.action_id _)) run))
        ]
      ]

  take-P :
      (e : Option EffectReservation) (w : World)
      → P w
      → P (record w { db = (take s grant action e w.db).1 })
  unfolding take
  take-P none w run = moved w _ (store_move (reserve_step _ _ s.reserved_at)) run
  take-P (some r) w run = moved w _ (reserve_move _ s.reserved_at) run

  charge_budget-P :
      (skip : Bool) (w : World) → P w → P (charge_budget s grant action effect skip w).1
  unfolding charge_budget
  charge_budget-P skip w run =
      let taken_run = take-P effect w run in
      elim (Result-cases (take s grant action effect w.db).0) [
        | inr (e, bad) ↦ rw (bad, charge_budget) taken_run
        | inl (denied reason snapshot, good) ↦ rw (good, charge_budget) (conclude-P _ _ taken_run)
        | inl (taken snapshot, good) ↦
            rw (good, charge_budget) (settle_approval-P skip snapshot _ taken_run)
      ]

  screen_effect-P :
      (skip : Bool) (w : World) → P w → P (screen_effect s grant action effect skip w).1
  unfolding screen_effect
  screen_effect-P skip w run =
      elim (Bool-cases (is_some effect && not (is_finite s grant action effect))) [
        | inr direct ↦ rw (direct, screen_effect) (charge_budget-P skip w run)
        | inl bound ↦ elim (Result-cases (first_rule grant.approval_rules action)) [
          | inr (e, bad) ↦ rw (bound, bad, screen_effect) run
          | inl (found, good) ↦ elim (Option-cases found) [
            | inl no_rule ↦ rw (bound, good, no_rule, screen_effect) (charge_budget-P skip w run)
            | inr (rule, a_rule) ↦ rw (bound, good, a_rule, screen_effect) (conclude-P _ w run)
          ]
        ]
      ]

  if-P : (b : Bool) (t u : Result Decision × World) → P t.1 → P u.1 → P (if b then t else u).1
  if-P true t u first second = first
  if-P false t u first second = second

  screen_scopes-P :
      (skip : Bool) (w : World) → P w → P (screen_scopes s grant action effect skip w).1
  unfolding screen_scopes
  screen_scopes-P skip w run =
      elim (Option-cases (scope_matches grant.scopes.deny action.action_type)) [
        | inr (pattern, hit) ↦ rw (hit, screen_scopes) (conclude-P _ w run)
        | inl free ↦
            rw (free, screen_scopes)
              (if-P (is_out_of_scope s grant action effect) _ _ (conclude-P _ w run) (
                if-P (is_rate_limited s grant action effect w.db) _ _ (conclude-P _ w run)
                  (screen_effect-P skip w run)))
      ]

  decide_inner-P :
      (approved_action_id : Option ℕ) (w : World)
      → P w
      → P (decide_inner s grant action effect approved_action_id w).1
  unfolding decide_inner
  decide_inner-P approved w run = elim (Bool-cases (verify s.key grant)) [
    | inr a ↦ rw (a, decide_inner) (conclude-P unverified w run)
    | inl a ↦ elim (Bool-cases (permits_effect grant (effect_of s effect))) [
      | inr b ↦ rw (a, b, decide_inner) (conclude-P unapproved w run)
      | inl b ↦ elim (Bool-cases (status_beq grant.status active)) [
        | inr c ↦ rw (a, b, c, decide_inner) (conclude-P (inactive grant.status) w run)
        | inl c ↦ elim (Bool-cases (ltb grant.expires_at s.decided_at)) [
          | inl late ↦
              rw (a, b, c, late, decide_inner)
                (conclude-P too_late (record w { db = set_status grant.id expired w.db })
                  (moved w _ (store_move (status_step grant.id expired)) run))
          | inr in_time ↦ rw (a, b, c, in_time, decide_inner) (screen_scopes-P _ w run)
        ]
      ]
    ]
  ]

  fail_closed-P : (t : Result Decision × World) → P t.1 → P (fail_closed s grant action effect t).1
  unfolding fail_closed
  fail_closed-P (ok d, w) run = run
  fail_closed-P (err e, w) run =
      elim (Result-cases
        (record_entry s action.grant_id grant action (engine_error s grant action effect e) w)) [
          | inr (again, bad) ↦ rw (bad, fail_closed) run
          | inl (rows, good) ↦
              rw (good, fail_closed) (record_entry-P action.grant_id _ w rows good run)
        ]

  pub decide-P :
      (approved_action_id : Option ℕ) (w : World)
      → P w
      → P (decide s grant action effect approved_action_id w).1
  unfolding decide
  decide-P approved w p = fail_closed-P _ (decide_inner-P approved w p)

-- Whatever `decide` is given and ends with, the tables after it come from those before by a sequence
-- of the store's own transactions: what holds of every such sequence holds of decisions.
pub decide-Run :
    (s : Setting) (grant : Grant) (action : Action) (effect : Option EffectReservation)
    (approved_action_id : Option ℕ) (w : World)
    → Run s.protocol s.key w.db (decide s grant action effect approved_action_id w).1.db
decide-Run s grant action effect approved w =
    decide-P s grant action effect (λ (x : World). Run s.protocol s.key w.db x.db)
      (λ x fields real_cost exact_cost rows appended run. run) (λ x db' move run. next run move)
      approved w here

-- After any call of `decide`, the ledger verifies exactly when it did before.
pub decide-verify :
    (s : Setting) (grant : Grant) (action : Action) (effect : Option EffectReservation)
    (approved_action_id : Option ℕ) (w : World)
    → Ledger.verify s.hashing (decide s grant action effect approved_action_id w).1.log
      ≡ Ledger.verify s.hashing w.log
decide-verify s grant action effect approved w =
    decide-P s grant action effect
      (λ (x : World). Ledger.verify s.hashing x.log ≡ Ledger.verify s.hashing w.log)
      (λ x fields real_cost exact_cost rows appended p.
        (let (_, _, _, _, _, verified) =
            append-verify s.hashing fields real_cost exact_cost x.log rows appended in
          verified ∙ p))
      (λ x db' move p. p) approved w refl
