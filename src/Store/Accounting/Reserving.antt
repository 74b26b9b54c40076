-- ===== src/Store/Accounting/Reserving.antt =====
-- A reservation charges its amount to every owner, once, and leaves every other grant alone.
use mathlib.Core.Path.{subst}
use actenon_permit.Base.{
  ℕ, ◌+◌, ◌-◌, ◌≡◌, ◌≤◌, sym, ap, ◌∙◌, refl, Bool, false, ◌||◌, ◌&&◌, List, [], ◌∷◌, is_some, ◌==◌,
  arith, if◌then◌else◌, Option-cases, inl, inr, All, ltb,
}
use actenon_permit.Result.{Result, ok, raise_if-eq-ok, integrity_error, out_of_range, ok-injective}
use actenon_permit.Grant.{Grant}
use actenon_permit.Budget.{max_units}
use actenon_permit.Store.Transaction.{statement-eq-ok}
use actenon_permit.Store.Tables.{Db, GrantRow, update_grant, is_owner}
use actenon_permit.Store.Reserve.{write_owner_balance, insert_owner, charge_owners}
use actenon_permit.Store.Accounting.{balance_of, AreDistinct}
use actenon_permit.Store.Accounting.Chain.{IsLoaded, HaveDistinctIds, has_id, IsKeyed}

-- A write to the balance of `g`, seen from a grant `j`.
pub record IsWritten (g : Grant) (n : ℕ) (db db' : Db) : Type 0 where
  pub events : db'.rate_events ≡ db.rate_events
  pub owners : db'.owners ≡ db.owners
  pub debts : db'.overruns ≡ db.overruns
  pub effects : db'.effects ≡ db.effects
  pub present : (j : ℕ) → is_some (db'.grants j) ≡ is_some (db.grants j)
  pub balances :
      (j : ℕ)
      → balance_of db' j
        ≡ (if j == g.id then (if is_some (db.grants j) then n else 0) else balance_of db j)
  pub keyed : IsKeyed db → IsKeyed db'
  pub in_units : n ≤ max_units

update_grant-IsKeyed :
    (id : ℕ) (f : GrantRow → GrantRow) (db : Db)
    → ((row : GrantRow) → (f row).body.id ≡ id)
    → IsKeyed db
    → IsKeyed (update_grant id f db)
unfolding update_grant
update_grant-IsKeyed id f db h k j row found = elim (Option-cases (db.grants j)) [
  | inl missing ↦ ground arith
  | inr (old, there) ↦ ground (arith, h old, k j old)
]

pub write_owner_balance_lem :
    (g : Grant) (n : ℕ) (settle : Bool) (db db' : Db)
    → write_owner_balance g n settle db ≡ ok db'
    → IsWritten g n db db'
unfolding write_owner_balance balance_of
write_owner_balance_lem g n settle db db' h =
    let (small, e) = raise_if-eq-ok (ltb max_units n) out_of_range _ h in
    let same = ok-injective e in
    record {
      events = ap (λ (d : Db). d.rate_events) (sym same);
      owners = ap (λ (d : Db). d.owners) (sym same);
      debts = ap (λ (d : Db). d.overruns) (sym same);
      effects = ap (λ (d : Db). d.effects) (sym same);
      present = λ j. rw (← same) (ground arith);
      balances = λ j. rw (← same) (ground arith);
      keyed = λ k. subst IsKeyed same (update_grant-IsKeyed g.id _ db (λ row. refl) k);
      in_units = ground arith;
    }

pub insert_owner_lem :
    (a g : ℕ) (db db' : Db)
    → insert_owner a g db ≡ ok db'
    → (is_owner a g db.owners ≡ false)
      × (db' ≡ record db { owners = record { action_id = a; grant_id = g } ∷ db.owners })
unfolding insert_owner
insert_owner_lem a g db db' h =
    let (new, e) = raise_if-eq-ok (is_owner a g db.owners) integrity_error _ h in
    (new, sym (ok-injective e))

-- What the second loop has done, for every grant `j` and every owner row.
pub record IsCharged (a amount : ℕ) (os : List Grant) (db db' : Db) : Type 0 where
  pub events : db'.rate_events ≡ db.rate_events
  pub debts : db'.overruns ≡ db.overruns
  pub effects : db'.effects ≡ db.effects
  pub owner_rows :
      (b j : ℕ) → is_owner b j db'.owners ≡ (is_owner b j db.owners || (a == b && has_id j os))
  pub balances : (j : ℕ) → balance_of db' j + (if has_id j os then amount else 0) ≡ balance_of db j
  pub distinct : AreDistinct db.owners → AreDistinct db'.owners
  pub keyed : IsKeyed db → IsKeyed db'

-- Owners further up stand as they were read, since their ids are others.
IsLoaded-written :
    (g : Grant) (n : ℕ) (db db' : Db) (os : List Grant)
    → IsWritten g n db db'
    → has_id g.id os ≡ false
    → All (IsLoaded db) os
    → All (IsLoaded db') os
IsLoaded-written g n db db' [] w new l = tt
IsLoaded-written g n db db' (o ∷ os) w new l =
    ground (arith, w.present o.id, w.balances o.id, IsLoaded-written g n db db' os w)

pub charge_owners_lem :
    (a amount : ℕ) (os : List Grant) (db db' : Db)
    → charge_owners a amount os db ≡ (ok tt, db')
    → All (IsLoaded db) os
    → HaveDistinctIds os
    → All (λ o. amount ≤ o.budget.remaining) os
    → IsCharged a amount os db db'
unfolding charge_owners is_owner balance_of
charge_owners_lem a amount [] db db' h l d fits =
    let same : db ≡ db' = ap (λ (p : Result (Unit {0}) × Db). p.1) h in
    record {
      events = ap (λ (d : Db). d.rate_events) (sym same);
      debts = ap (λ (d : Db). d.overruns) (sym same);
      effects = ap (λ (d : Db). d.effects) (sym same);
      owner_rows = λ b j. rw (← same) (ground arith);
      balances = λ j. rw (← same) (omega arith);
      distinct = subst (λ (d : Db). AreDistinct d.owners) same;
      keyed = subst IsKeyed same;
    }
charge_owners_lem a amount (o ∷ os) db db' h l d fits =
    let (written, first, rest) =
      statement-eq-ok db (write_owner_balance o (o.budget.remaining - amount) (ltb 0 amount) db) _
        h in
    let (charged, second, rest') = statement-eq-ok written (insert_owner a o.id written) _ rest in
    let w =
      write_owner_balance_lem o (o.budget.remaining - amount) (ltb 0 amount) db written first in
    let (new, inserted) = insert_owner_lem a o.id written charged second in
    let c =
      charge_owners_lem a amount os charged db' rest'
        (subst (λ (d : Db). All (IsLoaded d) os) (sym inserted)
          (IsLoaded-written o (o.budget.remaining - amount) db written os w d.0 l.1))
        d.1 fits.1 in
    record {
      events = c.events ∙ ap (λ (d : Db). d.rate_events) inserted ∙ w.events;
      debts = c.debts ∙ ap (λ (d : Db). d.overruns) inserted ∙ w.debts;
      effects = c.effects ∙ ap (λ (d : Db). d.effects) inserted ∙ w.effects;
      owner_rows = λ b j. rw (c.owner_rows b j, inserted, w.owners) (ground arith);
      balances =
          λ j. ground (arith, c.balances j, ap (λ (d : Db). balance_of d j) inserted, w.balances j);
      distinct = λ u.
          c.distinct (subst (λ (d : Db). AreDistinct d.owners) (sym inserted) (new, rw w.owners u));
      keyed = λ k. c.keyed (subst IsKeyed (sym inserted) (w.keyed k));
    }
