-- ===== src/Store/Replay.antt =====
-- Settling the same reservation again: `commit` of state.py answers an identical replay from the
-- row and refuses a different cost, and neither changes the tables.
use mathlib.Core.Path.{subst}
use actenon_permit.Base.{
  ℕ, ◌≡◌, refl, ap, sym, ◌∙◌, arith, inl, inr, some, true, false, Option-cases, List, [], ◌∷◌, ◌==◌,
  if◌then◌else◌,
}
use actenon_permit.Base.Int.{ℤ, pos_part}
use actenon_permit.Result.{
  Result, ok, err, >>=-eq-ok, raise_if-eq-ok, committed_otherwise, committed_release, effect_backed,
}
use actenon_permit.Budget.{Value, units}
use actenon_permit.Store.Tables.{Db, RateEvent, find_event, commit_event}
use actenon_permit.Store.Settle.{
  commit, release, commit_in_transaction, release_in_transaction, reservation, atomically,
  has_effect, same_cost,
}
use actenon_permit.Store.Accounting.{IsWellFormed}
use actenon_permit.Store.Accounting.ReleaseLaws.{release_in_transaction_lem}
use actenon_permit.Store.Accounting.CommitLaws.{IsSettledAt, commit_in_transaction_lem}

found-commit_event :
    (a g cost : ℕ) (es : List RateEvent) {e : RateEvent}
    → find_event a es ≡ some e
    → e.grant_id ≡ g
    → find_event a (commit_event a g cost es)
      ≡ some (record e { committed = true; actual_units = some cost })
unfolding find_event commit_event
found-commit_event a g cost [] f own = cc
found-commit_event a g cost (x ∷ es) {e} f own =
    ground (arith, found-commit_event a g cost es {e = e})

-- What a commit leaves, the first one or a replay.
pub commit_in_transaction-IsSettledAt :
    (g a cost : ℕ) (claimed : ℤ) (db : Db) {n : ℕ} {db' : Db}
    → IsWellFormed db
    → commit_in_transaction g a cost claimed db ≡ ok (n, db')
    → IsSettledAt g a cost claimed db'
commit_in_transaction-IsSettledAt g a cost claimed db {n} {db'} wf h =
    elim (commit_in_transaction_lem g a cost claimed db wf h) [
      | inl (same, s) ↦ subst (IsSettledAt g a cost claimed) (sym same) s
      | inr c ↦ subst (IsSettledAt g a cost claimed) (sym c.after) (record {
        event = record c.event { committed = true; actual_units = some cost };
        found =
            ap (λ (es : List RateEvent). find_event a (commit_event a g cost es)) c.settled.events
            ∙ found-commit_event a g cost db.rate_events c.found c.own;
        own = c.own;
        claim = c.claim;
        committed = refl;
        at_cost = refl;
        present = c.settled.present g ∙ c.present;
      })
    ]

settled_reservation :
    (g a cost : ℕ) (claimed : ℤ) (db : Db)
    → (s : IsSettledAt g a cost claimed db) → reservation db g a claimed ≡ ok s.event
unfolding reservation
settled_reservation g a cost claimed db s =
    rw (s.found, reservation) (ground (arith, s.claim, s.own))

-- A settled event answers every further transaction from its row.
settled-again :
    (g a cost later : ℕ) (claimed : ℤ) (db : Db)
    → IsSettledAt g a cost claimed db
    → (n : ℕ) × (commit_in_transaction g a later claimed db
        ≡ (if later == cost then ok (n, db) else err committed_otherwise))
      × (release_in_transaction g a claimed db ≡ err committed_release)
unfolding commit_in_transaction release_in_transaction same_cost
settled-again g a cost later claimed db s = elim (Option-cases (db.grants g)) [
  | inl missing ↦ absurd (cc (rw missing at s.present))
  | inr (row, there) ↦
      let read = settled_reservation g a cost claimed db s in
      (
        row.remaining_units,
        rw (there, commit_in_transaction, read, s.committed, s.at_cost) (ground arith),
        rw (there, release_in_transaction, read, s.committed) refl,
      )
]

pub commit_in_transaction-effects :
    (g a cost : ℕ) (claimed : ℤ) (db : Db) {n : ℕ} {db' : Db}
    → IsWellFormed db
    → commit_in_transaction g a cost claimed db ≡ ok (n, db')
    → db'.effects ≡ db.effects
commit_in_transaction-effects g a cost claimed db {n} {db'} wf h =
    elim (commit_in_transaction_lem g a cost claimed db wf h) [
      | inl (same, s) ↦ ap (λ (d : Db). d.effects) same
      | inr c ↦ ap (λ (d : Db). d.effects) c.after ∙ c.settled.effects
    ]

pub release_in_transaction-effects :
    (g a : ℕ) (claimed : ℤ) (db : Db) {n : ℕ} {db' : Db}
    → IsWellFormed db
    → release_in_transaction g a claimed db ≡ ok (n, db')
    → db'.effects ≡ db.effects
release_in_transaction-effects g a claimed db {n} {db'} wf h =
    let c = release_in_transaction_lem g a claimed db wf h in
    ap (λ (d : Db). d.effects) c.after ∙ c.settled.effects

atomically-ok :
    (db : Db) (t : Result (ℕ × Db)) {n : ℕ} {db' : Db}
    → atomically db t ≡ (ok n, db')
    → t ≡ ok (n, db')
unfolding atomically
atomically-ok db (ok (m, d)) h = cc
atomically-ok db (err e) h = cc

-- The values of a commit that went through.
pub record IsCommittedAt (g a : ℕ) (actual claimed : Value) (db' : Db) : Type 0 where
  pub cost : ℤ
  pub claim : ℤ
  pub cost_exact : units actual ≡ ok cost
  pub claim_exact : units claimed ≡ ok claim
  pub legacy : has_effect a db'.effects ≡ false
  pub settled : IsSettledAt g a (pos_part cost) claim db'

pub commit-IsCommittedAt :
    (g a : ℕ) (actual claimed : Value) (db : Db) (n : ℕ) (db' : Db)
    → IsWellFormed db
    → commit g a actual claimed db ≡ (ok n, db')
    → IsCommittedAt g a actual claimed db'
unfolding commit
commit-IsCommittedAt g a actual claimed db n db' wf h =
    let (cost, exact, rest) = >>=-eq-ok (units actual) _ (atomically-ok db _ h) in
    let (claim, exact', rest') = >>=-eq-ok (units claimed) _ rest in
    let (legacy, run) = raise_if-eq-ok (has_effect a db.effects) effect_backed _ rest' in
    record {
      cost = cost;
      claim = claim;
      cost_exact = exact;
      claim_exact = exact';
      legacy = rw (commit_in_transaction-effects g a (pos_part cost) claim db wf run) legacy;
      settled = commit_in_transaction-IsSettledAt g a (pos_part cost) claim db wf run;
    }

-- After a `commit` that went through from well-formed tables, with a cost that is exact, `commit` of
-- the same reservation with any exact cost returns a balance if the cost is the same (a negative one
-- counts as zero) and an error otherwise, `release` of it is an error, and all three leave the tables.
pub commit-replay :
    (g a : ℕ) (actual claimed later : Value) (z : ℤ) (db : Db) (n : ℕ) (db' : Db)
    → IsWellFormed db
    → commit g a actual claimed db ≡ (ok n, db')
    → units later ≡ ok z
    → (m : ℕ) × (cost : ℤ) × (units actual ≡ ok cost)
      × (commit g a later claimed db'
          ≡ (if pos_part z == pos_part cost then ok m else err committed_otherwise, db'))
      × (release g a claimed db' ≡ (err committed_release, db'))
unfolding commit release atomically
commit-replay g a actual claimed later z db n db' wf h exact =
    let c = commit-IsCommittedAt g a actual claimed db n db' wf h in
    let (m, again, undo) = settled-again g a (pos_part c.cost) (pos_part z) c.claim db' c.settled in
    (
      m,
      c.cost,
      c.cost_exact,
      rw (exact, c.claim_exact, c.legacy, again) (ground arith),
      rw (c.claim_exact, c.legacy, undo) refl,
    )
