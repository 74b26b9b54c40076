-- ===== src/Tests/Decisions.antt =====
-- A decision on the example store: an action within the scope, the budget and the rate of the child, and the same with a
-- scope that denies it.
use actenon_permit.Base.Equality.{text_beq, subset, contains}
use actenon_permit.Store.Lineage.{
  check_live, walk, budget_lineage, load, visit, some_link_widens, check_root, widens,
}
use actenon_permit.Base.{◌≡◌, refl, [], ◌∷◌}
use actenon_permit.Base.Int.{◌+ℤ◌}
use actenon_permit.Result.{ok}
use actenon_permit.Budget.{
  units, joined, scale_down, digits_of, units_of_number, decimal_of_int, digits_onto,
  units_of_decimal, check_float, scale_up,
}
use actenon_permit.Store.Tables.{overrun_of, find_event, update_grant, owner_rate_count, is_owner}
use actenon_permit.Store.Reserve.{
  reserve, finish, reserve_in_transaction, charge, first_refusal, charge_owners, snapshot_of,
  is_state_error, check_owner, insert_owner, settled_status, insert_event, check_units,
  write_owner_balance,
}
use actenon_permit.Runs.{Run}
use actenon_permit.Grant.{authority_payload, effects_widen, verify, status_beq, permits_effect}
use actenon_permit.Tests.Data.{key, five, store, child, protocol}
use actenon_permit.Base.{suc, ◌+◌, ◌↔◌, none, some}
use actenon_permit.Grant.{Grant}
use actenon_permit.Ledger.{Hashing, append, last_hash, new_entry}
use actenon_permit.Ledger as Ledger
use actenon_permit.Texts.{codes, strip, skip_spaces, drop_end_spaces, span, is_space}
use actenon_permit.Glob.{fnmatch, items, fits, holds}
use actenon_permit.Store.Queries.{rate_count}
use actenon_permit.Pdp.Rules.{
  Action, scope_matches, first_rule, cost_of, is_falsy, is_zero, approval_rule_matches, threshold,
  read_decimal, is_over, rule_amount, decimal_gt, shown_number,
}
use actenon_permit.Pdp.Reasons.{
  Decision, allow, require_approval, Printing, deny, refusal_code, refusal_text, revoked_code,
  engine_error_code,
}
use actenon_permit.Result.{owner_inactive}
use actenon_permit.Status.{revoked, exhausted}
use actenon_permit.Store.Reserve.{no_lineage}
use actenon_permit.Pdp.Refusals.{inactive, IsReported, IsUncoded, refusal_code-IsUncoded}
use actenon_permit.Pdp.Steps.{
  Setting, World, Writing, take, of_outcome, map_result, conclude, record_entry, allowed, effect_of,
  waits,
}
use actenon_permit.Pdp.Decide.{
  decide, decide_inner, fail_closed, screen_scopes, screen_effect, charge_budget, settle_approval,
  is_out_of_scope, is_rate_limited, is_approved,
}
use actenon_permit.Pdp.Denying.{decide-deny}
use actenon_permit.Store.Settle.{set_status}
use actenon_permit.Status.{expired}
use actenon_permit.Base.{◌⊎◌, sym, ◌∙◌}
use actenon_permit.Pdp.Allowing.{IsAllowed, decide-allow_iff}
use actenon_permit.Pdp.Transactions.{decide-Run, decide-verify}

abbrev digest : Hashing
digest = record {
  hash_legacy = λ p b. suc (p + b.fields.params);
  hash_v2 = λ p b. suc (p + b.fields.params);
  hash_v3 = λ p b. suc (p + b.fields.params);
}

abbrev printing : Printing
printing = record {
  id_text = λ n. n ∷ [];
  amount_text = λ n. n ∷ [];
  message_text = λ e. [];
  class_text = λ e. [];
}

abbrev writing : Writing
writing = record {
  text = λ t. 0;
  outcome = λ o. 0;
  delta = λ d. 0;
  code = λ c. 0;
  boundary = λ g a. 0;
  costs = λ c. ok (none, none);
}

abbrev setting : Setting
setting = record {
  key = key;
  hashing = digest;
  protocol = protocol;
  printing = printing;
  writing = writing;
  decided_at = 10;
  counted_at = 10;
  reserved_at = 10;
}

abbrev action : Action
action = record {
  action_id = 7;
  grant_id = 2;
  ts = 10;
  action_type = codes "p";
  target = 0;
  params = 4;
  amount = none;
  est_cost = some five;
}

abbrev world : World
world = record { db = store; log = [] }

abbrev end : Decision × World
end = decide setting child action none none world

allows : end.0.outcome ≡ allow
unfolding decide decide_inner fail_closed screen_scopes screen_effect charge_budget settle_approval
    is_out_of_scope is_rate_limited is_approved take of_outcome map_result conclude record_entry
    allowed effect_of scope_matches first_rule cost_of is_falsy is_zero rate_count append last_hash
    new_entry fnmatch items fits holds reserve units finish reserve_in_transaction budget_lineage
    check_live load verify some_link_widens text_beq subset effects_widen check_root first_refusal
    check_owner permits_effect overrun_of contains ◌+ℤ◌ check_float decimal_of_int digits_of
    digits_onto joined scale_down scale_up units_of_decimal units_of_number authority_payload
    status_beq visit walk widens charge charge_owners check_units insert_event insert_owner
    is_state_error settled_status snapshot_of write_owner_balance find_event is_owner
    owner_rate_count update_grant
allows = refl

decide-allow_iff_example :
    ((decide setting child action none none world ≡ (end.0, end.1)) × (end.0.outcome ≡ allow))
    ↔ IsAllowed setting child action none none world end.0 end.1
decide-allow_iff_example = decide-allow_iff setting child action none none world end.0 end.1

-- The same with approval asked for more than four.
abbrev asking : Grant
asking = record child { approval_rules = codes "p > 4" ∷ [] }

asks : (decide setting asking action none none world).0.outcome ≡ require_approval
unfolding decide decide_inner fail_closed screen_scopes screen_effect charge_budget settle_approval
    is_out_of_scope is_rate_limited is_approved take of_outcome map_result conclude record_entry
    allowed effect_of scope_matches first_rule cost_of is_falsy is_zero rate_count append last_hash
    new_entry fnmatch items fits holds approval_rule_matches threshold read_decimal is_over
    rule_amount decimal_gt shown_number strip skip_spaces drop_end_spaces span is_space waits
    reserve units finish reserve_in_transaction budget_lineage check_live load verify
    some_link_widens text_beq subset effects_widen check_root first_refusal check_owner
    permits_effect overrun_of contains ◌+ℤ◌ check_float decimal_of_int digits_of digits_onto joined
    scale_down scale_up units_of_decimal units_of_number authority_payload status_beq visit walk
    widens charge charge_owners check_units insert_event insert_owner is_state_error settled_status
    snapshot_of write_owner_balance find_event is_owner owner_rate_count update_grant
asks = refl

decide-Run_example : Run protocol key store end.1.db
decide-Run_example = decide-Run setting child action none none world

decide-verify_example : Ledger.verify digest end.1.log ≡ Ledger.verify digest []
decide-verify_example = decide-verify setting child action none none world

-- An action of another type.
abbrev foreign : Action
foreign = record action { action_type = codes "q" }

abbrev refusal : Decision × World
refusal = decide setting child foreign none none world

refuses : (refusal.0.outcome ≡ deny) × (refusal.0.rule_matched ≡ some (codes "allow:default-deny"))
unfolding decide decide_inner fail_closed screen_scopes is_out_of_scope is_rate_limited conclude
    record_entry effect_of scope_matches append last_hash new_entry fnmatch items fits holds
    text_beq verify authority_payload permits_effect status_beq
refuses = (refl, refl)

decide-deny_example : (refusal.1.db ≡ store) ⊎ (refusal.1.db ≡ set_status 2 expired store)
decide-deny_example =
    decide-deny setting child foreign none none world refusal.0 refusal.1 refl refuses.0
      (λ nothing_matched. (let both = sym refuses.1 ∙ nothing_matched in cc))

refusal_code-IsUncoded_example :
    (refusal_code (refusal_text printing (no_lineage (owner_inactive 3 revoked))) ≡ revoked_code)
    × ((refusal_code (refusal_text printing (no_lineage (owner_inactive 3 exhausted)))
          ≡ engine_error_code)
        ↔ IsUncoded (no_lineage (owner_inactive 3 exhausted)))
unfolding IsReported
refusal_code-IsUncoded_example =
    refusal_code-IsUncoded printing 3 (no_lineage (owner_inactive 3 exhausted))
      (inactive 3 exhausted)
