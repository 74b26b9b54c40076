-- ===== src/Store/Books.antt =====
-- The books of the store: whatever transactions run, in whatever order, a grant's balance and its
-- charges together stay what they were, but for overruns that are kept as debt.
use actenon_permit.Base.{ℕ, ◌≡◌, refl, arith, inl, inr, none, Option-cases}
use actenon_permit.Base.Int.{ℤ, pos_part}
use actenon_permit.Result.{Result, ok, err, >>=-eq-ok, raise_if-eq-ok, Result-cases, effect_backed}
use actenon_permit.Budget.{Value, units}
use actenon_permit.Grant.{Signing, Status}
use actenon_permit.Store.Tables.{Db, overrun_of}
use actenon_permit.Store.Reserve.{
  Request, reserve, reserve_in_transaction, finish, reserved, refused, Outcome,
}
use actenon_permit.Store.Settle.{
  commit, release, commit_in_transaction, release_in_transaction, atomically, set_status,
  has_effect,
}
use actenon_permit.Store.Accounting.{Balances, IsWellFormed, balance_of, held}
use actenon_permit.Store.Accounting.Reserved.{reserve_in_transaction_lem}
use actenon_permit.Store.Accounting.ReserveLaws.{reserved-Balances, reserved-IsWellFormed}
use actenon_permit.Store.Accounting.CommitLaws.{
  commit_in_transaction_lem, committed-Balances, committed-IsWellFormed,
}
use actenon_permit.Store.Accounting.ReleaseLaws.{
  release_in_transaction_lem, released-Balances, released-IsWellFormed,
}

-- The tables stay well formed and the books balance.
pub record Keeps (db db' : Db) : Type 0 where
  pub well_formed : IsWellFormed db'
  pub balances : Balances db db'

pub Keeps-refl : (db : Db) → IsWellFormed db → Keeps db db
Keeps-refl db wf = record { well_formed = wf; balances = λ g. refl }

pub Keeps-trans : {a b c : Db} → Keeps a b → Keeps b c → Keeps a c
Keeps-trans {a} {b} {c} p q = record {
  well_formed = q.well_formed;
  balances = λ g. omega (arith, p.balances g, q.balances g);
}

finish-Keeps :
    (key : Signing) (r : Request) (now : ℕ) (db : Db) (t : Result Outcome × Db)
    → IsWellFormed db
    → reserve_in_transaction key r now db ≡ t
    → Keeps db (finish db t).1
unfolding finish
finish-Keeps key r now db (ok (reserved s), db') wf e =
    let w = reserve_in_transaction_lem key r now db e in
    record {
      well_formed = reserved-IsWellFormed key r now db wf w;
      balances = reserved-Balances key r now db wf w;
    }
finish-Keeps key r now db (ok (refused reason), db') wf e = Keeps-refl db wf
finish-Keeps key r now db (err x, db') wf e = Keeps-refl db wf

pub reserve-Keeps :
    (key : Signing) (value : Value) (r : Request) (now : ℕ) (db : Db)
    → IsWellFormed db
    → Keeps db (reserve key value r now db).1
unfolding reserve
reserve-Keeps key value r now db wf = elim (Result-cases (units value)) [
  | inr (e, bad) ↦ rw (bad, reserve) (Keeps-refl db wf)
  | inl (z, exact) ↦
      rw (exact, reserve)
        (finish-Keeps key (record r { amount = z; effect_id = none }) now db _ wf refl)
]

atomically-Keeps :
    (db : Db) (t : Result (ℕ × Db))
    → IsWellFormed db
    → ((n : ℕ) (db' : Db) → t ≡ ok (n, db') → Keeps db db')
    → Keeps db (atomically db t).1
unfolding atomically
atomically-Keeps db (ok (n, db')) wf k = k n db' refl
atomically-Keeps db (err e) wf k = Keeps-refl db wf

pub commit_in_transaction-Keeps :
    (g a actual : ℕ) (claimed : ℤ) (db : Db) (n : ℕ) (db' : Db)
    → IsWellFormed db
    → commit_in_transaction g a actual claimed db ≡ ok (n, db')
    → Keeps db db'
commit_in_transaction-Keeps g a actual claimed db n db' wf h =
    elim (commit_in_transaction_lem g a actual claimed db wf h) [
      | inl (same, _) ↦ rw same (Keeps-refl db wf)
      | inr c ↦ record {
        well_formed = committed-IsWellFormed g a actual claimed db db' wf c;
        balances = committed-Balances g a actual claimed db db' wf c;
      }
    ]

pub release_in_transaction-Keeps :
    (g a : ℕ) (claimed : ℤ) (db : Db) (n : ℕ) (db' : Db)
    → IsWellFormed db
    → release_in_transaction g a claimed db ≡ ok (n, db')
    → Keeps db db'
release_in_transaction-Keeps g a claimed db n db' wf h =
    let c = release_in_transaction_lem g a claimed db wf h in
    record {
      well_formed = released-IsWellFormed g a claimed db db' wf c;
      balances = released-Balances g a claimed db db' wf c;
    }

pub commit-Keeps :
    (g a : ℕ) (actual claimed : Value) (db : Db)
    → IsWellFormed db
    → Keeps db (commit g a actual claimed db).1
unfolding commit
commit-Keeps g a actual claimed db wf = atomically-Keeps db _ wf (λ n db' h.
    let (cost, _, rest) = >>=-eq-ok (units actual) _ h in
    let (claim, _, rest') = >>=-eq-ok (units claimed) _ rest in
    let (_, run) = raise_if-eq-ok (has_effect a db.effects) effect_backed _ rest' in
    commit_in_transaction-Keeps g a (pos_part cost) claim db n db' wf run)

pub release-Keeps :
    (g a : ℕ) (claimed : Value) (db : Db) → IsWellFormed db → Keeps db (release g a claimed db).1
unfolding release
release-Keeps g a claimed db wf = atomically-Keeps db _ wf (λ n db' h.
    let (claim, _, rest) = >>=-eq-ok (units claimed) _ h in
    let (_, run) = raise_if-eq-ok (has_effect a db.effects) effect_backed _ rest in
    release_in_transaction-Keeps g a claim db n db' wf run)

pub set_status-Keeps :
    (g : ℕ) (status : Status) (db : Db) → IsWellFormed db → Keeps db (set_status g status db)
unfolding set_status balance_of held overrun_of
set_status-Keeps g status db wf = record {
  well_formed = record {
    keyed = λ j row found. elim (Option-cases (db.grants j)) [
      | inl missing ↦ ground arith
      | inr (old, there) ↦ ground (arith, wf.keyed j old)
    ];
    events_distinct = wf.events_distinct;
    owners_distinct = wf.owners_distinct;
    owners_closed = wf.owners_closed;
  };
  balances = λ j. ground arith;
}

-- One transaction of the store, with whatever arguments.
pub data Step (key : Signing) (db : Db) : Db → Type 0 where
  reserve_step :
      (value : Value) (r : Request) (now : ℕ) → Step key db (reserve key value r now db).1
  commit_step : (g a : ℕ) (actual claimed : Value) → Step key db (commit g a actual claimed db).1
  release_step : (g a : ℕ) (claimed : Value) → Step key db (release g a claimed db).1
  status_step : (g : ℕ) (status : Status) → Step key db (set_status g status db)

pub Step-Keeps : {key : Signing} {db db' : Db} → Step key db db' → IsWellFormed db → Keeps db db'
Step-Keeps {key} {db} (reserve_step value r now) wf = reserve-Keeps key value r now db wf
Step-Keeps {db} (commit_step g a actual claimed) wf = commit-Keeps g a actual claimed db wf
Step-Keeps {db} (release_step g a claimed) wf = release-Keeps g a claimed db wf
Step-Keeps {db} (status_step g status) wf = set_status-Keeps g status db wf
