-- ===== src/Effects/Transitions.antt =====
-- What a claim and a settlement have done, from the branch that they took.
use mathlib.Core.Path.{subst}
use actenon_permit.Base.{
  ℕ, ◌≡◌, ap, sym, ◌∙◌, arith, inl, inr, ◌⊎◌, Option, some, true, false, Bool-cases, Bool, not,
  List, [], ◌∷◌, Option-cases, ltb, leb, any, map, ◌&&◌, ◌||◌, ◌==◌, ◌≢◌,
}
use actenon_permit.Base.Equality.{Text, subset, nat_eq, text_beq_iff}
use actenon_permit.Result.{
  Result, ok, err, Result-cases, ok-injective, >>=-eq-ok, raise_if-eq-ok, effect_grant_expired,
  effect_not_approved, lineage_changed, owner_in_debt, claim_lost, effect_mismatch, review_expired,
  settled_otherwise, invalid_outcome,
}
use actenon_permit.Grant.{Grant, Signing, permits_effect}
use actenon_permit.Store.Tables.{
  Db, EffectRow, EffectState, Evidence, settlement, nothing, owners_of, overrun_of,
}
use actenon_permit.Store.Lineage.{budget_lineage}
use actenon_permit.Effects.{
  Reference, Protocol, is_outcome, state_beq, find_effect, effect_row, effect_grant, effect_event,
  claim_in_transaction, claim_effect, finish_claim, update_effect, dispatched, dispatch_mode,
  count_reserved,
}
use actenon_permit.Effects.Settle.{
  Settlement, Settled, option_beq, evidence_beq, remaining_of, settle_effect, finish_settle,
  check_settlement, settle_in_transaction, settle_found, settle_budget, settle_row, settlement_cost,
  is_final, check_transition,
}

pub effect_row_lem :
    (db : Db) (ref : Reference) (grant_id : ℕ) (principal : Text) (action_hash : ℕ)
    {row : EffectRow}
    → effect_row db ref grant_id principal action_hash ≡ ok row
    → (find_effect ref.reservation_id db.effects ≡ some row)
      × (row.grant_id ≡ grant_id)
      × (row.principal ≡ principal)
      × (row.action_hash ≡ action_hash)
unfolding effect_row
effect_row_lem db ref grant_id principal action_hash {row} h =
    elim (Option-cases (find_effect ref.reservation_id db.effects)) [
      | inl missing ↦ cc (rw (missing, effect_row) at h)
      | inr (found_row, found) ↦
          let (matches, e) = raise_if-eq-ok _ effect_mismatch _ (rw (found, effect_row) at h) in
          let same : found_row ≡ row = ok-injective e in
          (
            rw (← same) found,
            rw (← same) (ground arith),
            rw (← same) ((text_beq_iff found_row.principal principal).0 (ground arith)),
            rw (← same) (ground arith),
          )
    ]

pub find_effect-id :
    (rid : ℕ) (rows : List EffectRow) {row : EffectRow}
    → find_effect rid rows ≡ some row
    → row.reservation_id ≡ rid
unfolding find_effect
find_effect-id rid [] h = cc
find_effect-id rid (r ∷ rows) {row} h = ground (arith, find_effect-id rid rows {row = row})

-- A claim that allows the dispatch: what was checked and what was written.
pub record IsClaimed (key : Signing) (ref : Reference) (grant_id : ℕ) (principal : Text)
    (action_hash now : ℕ) (db db' : Db) : Type 0 where
  pub row : EffectRow
  pub grant : Grant
  pub lineage : List Grant
  pub found : find_effect ref.reservation_id db.effects ≡ some row
  pub authority : effect_grant key db grant_id principal now ≡ ok grant
  pub unexpired : leb grant.expires_at now ≡ false
  pub usable : budget_lineage key db dispatch_mode now grant_id ≡ ok lineage
  pub approved : any (λ (o : Grant). not (permits_effect o (some row.effect_id))) lineage ≡ false
  pub unchanged :
      (subset (owners_of row.action_id db.owners) (map (λ (o : Grant). o.id) lineage)
        && subset (map (λ (o : Grant). o.id) lineage) (owners_of row.action_id db.owners))
      ≡ true
  pub debt_free : any (λ g. ltb 0 (overrun_of db g)) (owners_of row.action_id db.owners) ≡ false
  pub state : state_beq row.state EffectState.reserved ≡ true
  pub after :
      db'
      ≡ effect_event ref.reservation_id EffectState.dispatching nothing now
          (record db { effects = update_effect ref.reservation_id (dispatched now) db.effects })

not-false : (b : Bool) → not b ≡ false → b ≡ true
not-false b h = ground arith

pub claim_in_transaction_lem :
    (key : Signing) (ref : Reference) (grant_id : ℕ) (principal : Text) (action_hash now : ℕ)
    (db : Db) {b : Bool} {db' : Db}
    → claim_in_transaction key ref grant_id principal action_hash now db ≡ ok (b, db')
    → ((b ≡ false) × (db' ≡ db)) ⊎ IsClaimed key ref grant_id principal action_hash now db db'
unfolding claim_in_transaction
claim_in_transaction_lem key ref grant_id principal action_hash now db {b} {db'} h =
    let (row, read, r1) = >>=-eq-ok (effect_row db ref grant_id principal action_hash) _ h in
    let (grant, authority, r2) = >>=-eq-ok (effect_grant key db grant_id principal now) _ r1 in
    let (unexpired, r3) = raise_if-eq-ok _ effect_grant_expired _ r2 in
    let (lineage, usable, r4) = >>=-eq-ok (budget_lineage key db dispatch_mode now grant_id) _ r3 in
    let (approved, r5) = raise_if-eq-ok _ effect_not_approved _ r4 in
    let (unchanged, r6) = raise_if-eq-ok _ lineage_changed _ r5 in
    let (debt_free, r7) = raise_if-eq-ok _ owner_in_debt _ r6 in
    let (found, _, _, _) = effect_row_lem db ref grant_id principal action_hash read in
    let at_id = find_effect-id ref.reservation_id db.effects found in
    elim (Bool-cases (state_beq row.state EffectState.reserved)) [
      | inr past ↦
          let e = ok-injective (rw past at r7) in
          inl (sym (ap (λ (p : Bool × Db). p.0) e), sym (ap (λ (p : Bool × Db). p.1) e))
      | inl state ↦
          let (one, e) =
            raise_if-eq-ok (not (count_reserved row.reservation_id db.effects == 1)) claim_lost _
              (rw state at r7) in
          inr (record {
            row = row;
            grant = grant;
            lineage = lineage;
            found = found;
            authority = authority;
            unexpired = unexpired;
            usable = usable;
            approved = approved;
            unchanged = not-false _ unchanged;
            debt_free = debt_free;
            state = state;
            after =
                sym (ap (λ (p : Bool × Db). p.1) (ok-injective e))
                ∙ ap
                    (λ (i : ℕ).
                      effect_event i EffectState.dispatching nothing now
                        (record db { effects = update_effect i (dispatched now) db.effects }))
                    at_id;
          })
    ]

pub claim_effect_lem :
    (key : Signing) (ref : Reference) (grant_id : ℕ) (principal : Text) (action_hash now : ℕ)
    (db : Db) {o : Result Bool} {db' : Db}
    → claim_effect key ref grant_id principal action_hash now db ≡ (o, db')
    → ((o ≢ ok true) × (db' ≡ db)) ⊎ IsClaimed key ref grant_id principal action_hash now db db'
unfolding claim_effect finish_claim
claim_effect_lem key ref grant_id principal action_hash now db {o} {db'} h =
    elim (Result-cases (claim_in_transaction key ref grant_id principal action_hash now db)) [
      | inr (e, failed) ↦
          let ends : (err e, db) ≡ (o, db') = rw failed at h in
          let first : err e ≡ o = ap (λ (p : Result Bool × Db). p.0) ends in
          inl ((λ y. cc), sym (ap (λ (p : Result Bool × Db). p.1) ends))
      | inl ((b, d), run) ↦
          let ends : (ok b, d) ≡ (o, db') = rw run at h in
          let first : ok b ≡ o = ap (λ (p : Result Bool × Db). p.0) ends in
          let second : d ≡ db' = ap (λ (p : Result Bool × Db). p.1) ends in
          elim (claim_in_transaction_lem key ref grant_id principal action_hash now db run) [
            | inl (refusal, same) ↦ inl ((λ y. cc), sym second ∙ same)
            | inr c ↦ inr (subst (IsClaimed key ref grant_id principal action_hash now db) second c)
          ]
    ]

-- A settlement that was recorded.
pub record IsRecorded (s : Settlement) (now : ℕ) (db db' : Db) : Type 0 where
  pub row : EffectRow
  pub evidence : Evidence
  pub cost : Option ℕ
  pub remaining : ℕ
  pub paid : Db
  pub found : find_effect s.ref.reservation_id db.effects ≡ some row
  pub own : row.grant_id ≡ s.grant_id
  pub unsettled : is_final row.state ≡ false
  pub allowed : check_transition row.state row.reservation_id s db ≡ ok tt
  pub budget : settle_budget s.outcome cost row s.grant_id db ≡ ok (remaining, paid)
  pub after :
      db'
      ≡ effect_event s.ref.reservation_id s.outcome (settlement evidence) now (record paid {
        effects =
            update_effect s.ref.reservation_id
              (settle_row s.outcome s.execution_occurred evidence now)
              paid.effects;
      })

settle_found_lem :
    (s : Settlement) (row : EffectRow) (evidence : Evidence) (cost : Option ℕ) (now : ℕ) (db : Db)
    {x : Settled} {db' : Db}
    → find_effect s.ref.reservation_id db.effects ≡ some row
    → row.grant_id ≡ s.grant_id
    → settle_found s row evidence cost now db ≡ ok (x, db')
    → (db' ≡ db) ⊎ IsRecorded s now db db'
unfolding settle_found
settle_found_lem s row evidence cost now db {x} {db'} found own h =
    elim (Bool-cases (is_final row.state)) [
      | inl final ↦
          let (_, r1) =
            raise_if-eq-ok
              (not (state_beq row.state s.outcome)
                || not (option_beq evidence_beq row.evidence (some evidence)))
              settled_otherwise _ (rw final at h) in
          let (n, _, e) = >>=-eq-ok (remaining_of db s.grant_id) _ r1 in
          inl (sym (ap (λ (p : Settled × Db). p.1) (ok-injective e)))
      | inr unsettled ↦
          let (u, allowed, r1) =
            >>=-eq-ok (check_transition row.state row.reservation_id s db) _ (rw unsettled at h) in
          let ((n, paid), budget, e) =
            >>=-eq-ok (settle_budget s.outcome cost row s.grant_id db) _ r1 in
          inr (record {
            row = row;
            evidence = evidence;
            cost = cost;
            remaining = n;
            paid = paid;
            found = found;
            own = own;
            unsettled = unsettled;
            allowed = allowed;
            budget = budget;
            after =
                sym (ap (λ (p : Settled × Db). p.1) (ok-injective e))
                ∙ ap
                    (λ (i : ℕ). effect_event i s.outcome (settlement evidence) now (record paid {
                      effects =
                          update_effect i (settle_row s.outcome s.execution_occurred evidence now)
                            paid.effects;
                    }))
                    (find_effect-id s.ref.reservation_id db.effects found);
          })
    ]

pub settle_in_transaction_lem :
    (s : Settlement) (observer : ℕ) (given : Option ℕ) (now : ℕ) (db : Db) {x : Settled} {db' : Db}
    → settle_in_transaction s observer given now db ≡ ok (x, db')
    → (db' ≡ db) ⊎ IsRecorded s now db db'
unfolding settle_in_transaction
settle_in_transaction_lem s observer given now db h =
    let (_, r1) = raise_if-eq-ok _ review_expired _ h in
    let (row, read, r2) =
      >>=-eq-ok (effect_row db s.ref s.grant_id s.principal s.action_hash) _ r1 in
    let (cost, _, r3) = >>=-eq-ok (settlement_cost s.outcome given row.reserved_units) _ r2 in
    let (found, own, _, _) = effect_row_lem db s.ref s.grant_id s.principal s.action_hash read in
    settle_found_lem s row _ cost now db found own r3

check_settlement-outcome :
    (protocol : Protocol) (s : Settlement) {p : ℕ × Option ℕ}
    → check_settlement protocol s ≡ ok p
    → is_outcome s.outcome ≡ true
unfolding check_settlement
check_settlement-outcome protocol s h =
    let (valid, _) = raise_if-eq-ok _ invalid_outcome _ h in
    protocol.valid_is_outcome s.outcome s.execution_occurred s.evidence_hash (not-false _ valid)

finish_settle_lem :
    (db : Db) (t : Result (Settled × Db)) {o : Result Settled} {db' : Db}
    → finish_settle db t ≡ (o, db')
    → (db' ≡ db) ⊎ ((x : Settled) × (t ≡ ok (x, db')))
unfolding finish_settle
finish_settle_lem db (ok (x, d)) h =
    inr (x, ap (λ (y : Db). ok (x, y)) (ap (λ (p : Result Settled × Db). p.1) h))
finish_settle_lem db (err e) h = inl (sym (ap (λ (p : Result Settled × Db). p.1) h))

pub settle_effect_lem :
    (protocol : Protocol) (s : Settlement) (now : ℕ) (db : Db) {o : Result Settled} {db' : Db}
    → settle_effect protocol s now db ≡ (o, db')
    → (db' ≡ db) ⊎ ((is_outcome s.outcome ≡ true) × IsRecorded s now db db')
unfolding settle_effect
settle_effect_lem protocol s now db {o} {db'} h = elim (finish_settle_lem db _ h) [
  | inl same ↦ inl same
  | inr (x, run) ↦
      let ((observer, cost), checked, rest) = >>=-eq-ok (check_settlement protocol s) _ run in
      elim (settle_in_transaction_lem s observer cost now db rest) [
        | inl same ↦ inl same
        | inr w ↦ inr (check_settlement-outcome protocol s checked, w)
      ]
]
