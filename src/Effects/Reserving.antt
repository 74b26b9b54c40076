-- ===== src/Effects/Reserving.antt =====
-- `reserve_effect`, whole: the tables stay, or the budget is charged and a row entered for an effect
-- that no live row and no earlier attempt has.
use actenon_permit.Base.{
  ℕ, ◌≡◌, refl, ap, sym, ◌∙◌, arith, inl, inr, ◌⊎◌, none, some, true, false, Bool, Bool-cases, ◌∷◌,
  Option-cases, leb, Bool,
}
use actenon_permit.Base.Int.{ℤ, pos_part}
use actenon_permit.Result.{
  Result, ok, err, Result-cases, ok-injective, >>=-eq-ok, raise_if-eq-ok, effect_grant_expired,
  integrity_error, Error,
}
use actenon_permit.Budget.{units}
use actenon_permit.Grant.{Grant, Signing}
use actenon_permit.Store.Transaction.{statement-eq-ok, then_run-eq-ok}
use actenon_permit.Store.Tables.{Db, EffectRow, EffectState, reference}
use actenon_permit.Store.Reserve.{
  Request, Outcome, Snapshot, reserve_in_transaction, reserved, refused,
}
use actenon_permit.Effects.{
  EffectRequest, EffectOutcome, Protocol, Reference, reserve_effect, reserve_effect_in_transaction,
  finish_effect, enter_effect, effect_event, insert_effect, effect_reserved, effect_taken,
  attempt_used, effect_refused, has_live, has_attempt, has_reservation, effect_grant, valid_grant,
  raise_if,
}

-- The row that a reservation enters.
abbrev pub new_row : EffectRequest → ℕ → ℕ → ℤ → ℕ → EffectRow
new_row r effect_id action_hash amount now = record {
  reservation_id = r.reservation_id;
  effect_id = effect_id;
  action_id = r.action_id;
  grant_id = r.grant_id;
  principal = r.principal;
  action_hash = action_hash;
  descriptor = r.descriptor;
  reserved_units = pos_part amount;
  state = EffectState.reserved;
  execution_occurred = none;
  evidence = none;
  updated_at = now;
}

abbrev pub store_request : EffectRequest → ℕ → ℤ → Request
store_request r effect_id amount = record {
  grant_id = r.grant_id;
  action_id = r.action_id;
  amount = amount;
  rate_max = r.rate_max;
  rate_per_seconds = r.rate_per_seconds;
  effect_id = some effect_id;
}

-- A reservation of an effect that went through.
pub record IsEntered (key : Signing) (r : EffectRequest) (effect_id action_hash : ℕ) (amount : ℤ)
    (now : ℕ) (db db' : Db) : Type 0 where
  pub snapshot : Snapshot
  pub charged : Db
  pub grant : Grant
  pub free : has_live effect_id db.effects ≡ false
  pub unused : has_attempt r.action_id db.effects ≡ false
  pub authority : effect_grant key db r.grant_id r.principal now ≡ ok grant
  pub unexpired : leb grant.expires_at now ≡ false
  pub budget :
      reserve_in_transaction key (store_request r effect_id amount) now db
      ≡ (ok (reserved snapshot), charged)
  pub new_id : has_reservation r.reservation_id charged.effects ≡ false
  pub still_free : has_live effect_id charged.effects ≡ false
  pub after :
      db'
      ≡ effect_event r.reservation_id EffectState.reserved
          (reference effect_id r.reservation_id r.action_id)
          now
          (record charged {
            effects = new_row r effect_id action_hash amount now ∷ charged.effects;
          })

insert_effect_lem :
    (row : EffectRow) (db : Db) {db' : Db}
    → insert_effect row db ≡ ok db'
    → (has_reservation row.reservation_id db.effects ≡ false)
      × (has_live row.effect_id db.effects ≡ false)
      × (db' ≡ record db { effects = row ∷ db.effects })
unfolding insert_effect
insert_effect_lem row db h =
    let (new, e) = raise_if-eq-ok _ integrity_error _ h in
    (ground arith, ground arith, sym (ok-injective e))

enter_effect_lem :
    (r : EffectRequest) (effect_id action_hash : ℕ) (amount : ℤ) (now : ℕ) (o : Outcome) (db : Db)
    {s : Snapshot} {ref : Reference} {db' : Db}
    → enter_effect r effect_id action_hash amount now o db ≡ (ok (effect_reserved s ref), db')
    → (snapshot : Snapshot) × (o ≡ reserved snapshot)
      × (has_reservation r.reservation_id db.effects ≡ false)
      × (has_live effect_id db.effects ≡ false)
      × (db'
          ≡ effect_event r.reservation_id EffectState.reserved
              (reference effect_id r.reservation_id r.action_id)
              now
              (record db { effects = new_row r effect_id action_hash amount now ∷ db.effects }))
unfolding enter_effect
enter_effect_lem r effect_id action_hash amount now (refused reason) db h = cc
enter_effect_lem r effect_id action_hash amount now (reserved snapshot) charged h =
    let row = new_row r effect_id action_hash amount now in
    let (entered, inserted, e) = statement-eq-ok charged (insert_effect row charged) _ h in
    let (new, free, same) = insert_effect_lem row charged inserted in
    (
      snapshot,
      refl,
      new,
      free,
      sym (ap (λ (p : Result EffectOutcome × Db). p.1) e)
          ∙ ap
              (effect_event r.reservation_id EffectState.reserved
                (reference effect_id r.reservation_id r.action_id) now)
              same,
    )

not_raised : (c : Bool) (e : Error) → raise_if c e ≡ ok tt → c ≡ false
not_raised false e h = refl
not_raised true e h = cc

valid_grant_lem :
    (key : Signing) (db : Db) (r : EffectRequest) (now : ℕ)
    → valid_grant key db r now ≡ ok tt
    → (grant : Grant) × (effect_grant key db r.grant_id r.principal now ≡ ok grant)
      × (leb grant.expires_at now ≡ false)
unfolding valid_grant
valid_grant_lem key db r now h =
    let (grant, authority, rest) = >>=-eq-ok (effect_grant key db r.grant_id r.principal now) _ h in
    (grant, authority, not_raised (leb grant.expires_at now) effect_grant_expired rest)

pub reserve_effect_in_transaction_lem :
    (key : Signing) (r : EffectRequest) (effect_id action_hash : ℕ) (amount : ℤ) (now : ℕ) (db : Db)
    {s : Snapshot} {ref : Reference} {db' : Db}
    → reserve_effect_in_transaction key r effect_id action_hash amount now db
      ≡ (ok (effect_reserved s ref), db')
    → IsEntered key r effect_id action_hash amount now db db'
unfolding reserve_effect_in_transaction
reserve_effect_in_transaction_lem key r effect_id action_hash amount now db h =
    elim (Bool-cases (has_live effect_id db.effects)) [
      | inl taken ↦ cc (rw taken at h)
      | inr free ↦ elim (Bool-cases (has_attempt r.action_id db.effects)) [
        | inl used ↦ cc (rw (free, used) at h)
        | inr unused ↦
            let (_, same, valid, rest) =
              then_run-eq-ok (valid_grant key db r now, db) _ (rw (free, unused) at h) in
            let (grant, authority, unexpired) =
              valid_grant_lem key db r now (ap (λ (p : Result (Unit {0}) × Db). p.0) valid) in
            let (o, charged, budget, rest') =
              then_run-eq-ok
                (reserve_in_transaction key (store_request r effect_id amount) now same) _ rest in
            let (snapshot, is, new, still, after) =
              enter_effect_lem r effect_id action_hash amount now o charged rest' in
            record {
              snapshot = snapshot;
              charged = charged;
              grant = grant;
              free = free;
              unused = unused;
              authority = authority;
              unexpired = unexpired;
              budget =
                  ap (reserve_in_transaction key (store_request r effect_id amount) now)
                    (ap (λ (p : Result (Unit {0}) × Db). p.1) valid)
                  ∙ budget
                  ∙ ap (λ (x : Outcome). (let t : Result Outcome × Db = (ok x, charged) in t)) is;
              new_id = new;
              still_free = still;
              after = after;
            }
      ]
    ]

finish_effect_lem :
    (db : Db) (t : Result EffectOutcome × Db) {o : Result EffectOutcome} {db' : Db}
    → finish_effect db t ≡ (o, db')
    → (db' ≡ db) ⊎ ((s : Snapshot) × (ref : Reference) × (t ≡ (ok (effect_reserved s ref), db')))
unfolding finish_effect
finish_effect_lem db (ok (effect_reserved s ref), d) h = inr (
  s,
  ref,
  ap (λ (x : Db). (let t : Result EffectOutcome × Db = (ok (effect_reserved s ref), x) in t))
      (ap (λ (p : Result EffectOutcome × Db). p.1) h),
)
finish_effect_lem db (ok effect_taken, d) h =
    inl (sym (ap (λ (p : Result EffectOutcome × Db). p.1) h))
finish_effect_lem db (ok attempt_used, d) h =
    inl (sym (ap (λ (p : Result EffectOutcome × Db). p.1) h))
finish_effect_lem db (ok (effect_refused x), d) h =
    inl (sym (ap (λ (p : Result EffectOutcome × Db). p.1) h))
finish_effect_lem db (err e, d) h = inl (sym (ap (λ (p : Result EffectOutcome × Db). p.1) h))

-- A call of `reserve_effect` that entered a reservation.
pub record HasEntered (protocol : Protocol) (key : Signing) (r : EffectRequest) (now : ℕ)
    (db db' : Db) : Type 0 where
  pub action_hash : ℕ
  pub amount : ℤ
  pub exact : units r.amount ≡ ok amount
  pub entered :
      IsEntered key r (protocol.effect_identity r.descriptor) action_hash amount now db db'

-- The ends of `reserve_effect`.
pub reserve_effect_lem :
    (protocol : Protocol) (key : Signing) (r : EffectRequest) (now : ℕ) (db : Db)
    {o : Result EffectOutcome} {db' : Db}
    → reserve_effect protocol key r now db ≡ (o, db')
    → (db' ≡ db) ⊎ HasEntered protocol key r now db db'
unfolding reserve_effect
reserve_effect_lem protocol key r now db {o} {db'} h = elim (Option-cases r.action_hash) [
  | inl malformed ↦
      inl (sym (ap (λ (p : Result EffectOutcome × Db). p.1) (rw (malformed, reserve_effect) at h)))
  | inr (action_hash, formed) ↦ elim (Result-cases (units r.amount)) [
    | inr (e, bad) ↦
        inl (
          sym (ap (λ (p : Result EffectOutcome × Db). p.1) (rw (formed, reserve_effect, bad) at h)))
    | inl (amount, exact) ↦
        elim (finish_effect_lem db _ (rw (formed, reserve_effect, exact) at h)) [
          | inl same ↦ inl same
          | inr (s, ref, run) ↦ inr (record {
            action_hash = action_hash;
            amount = amount;
            exact = exact;
            entered =
                reserve_effect_in_transaction_lem key r (protocol.effect_identity r.descriptor)
                  action_hash amount now db run;
          })
        ]
  ]
]
