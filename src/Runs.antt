-- ===== src/Runs.antt =====
-- Sequences of transactions on the authority store, of state.py and of effects.py together: the
-- write lock (`BEGIN IMMEDIATE`) puts those of all threads and processes in one order.
-- `put_grant`, which adds a balance, is no step here.
use mathlib.Core.Path.{subst}
use actenon_permit.Base.{
  ℕ, ◌≡◌, ◌≢◌, ◌≤◌, refl, ap, sym, ◌∙◌, arith, inl, inr, some, Bool, true, List,
}
use actenon_permit.Base.Equality.{Text}
use actenon_permit.Result.{Result, ok}
use actenon_permit.Grant.{Signing}
use actenon_permit.Store.Tables.{Db, EffectRow, EffectState, overrun_of}
use actenon_permit.Store.Accounting.{IsWellFormed, balance_of, held}
use actenon_permit.Store.Books.{Step, Step-Keeps, Keeps, Keeps-refl, Keeps-trans}
use actenon_permit.Effects.{
  Protocol, Reference, EffectRequest, reserve_effect, claim_effect, effect_event, find_effect,
  dispatched,
}
use actenon_permit.Effects.Settle.{Settlement, settle_effect}
use actenon_permit.Effects.Books.{reserve_effect-Keeps, claim_effect-Keeps, settle_effect-Keeps}
use actenon_permit.Effects.States.{
  rank, is_live, one_owner, HasAdvanced-trans, AreExclusive, find-update_effect, IsForward,
  HasAdvanced,
}
use actenon_permit.Effects.Advance.{
  Advances, Advances-refl, Step-effects, reserve_effect-Advances, claim_effect-Advances,
  settle_effect-Advances, is_reserved, dispatched-id, some-injective,
}
use actenon_permit.Effects.Transitions.{claim_effect_lem, IsClaimed}

-- One transaction, with whatever arguments and at whatever time.
pub data Move (protocol : Protocol) (key : Signing) (db : Db) : Db → Type 0 where
  store_move : {db' : Db} → Step key db db' → Move protocol key db db'
  reserve_move :
      (r : EffectRequest) (now : ℕ) → Move protocol key db (reserve_effect protocol key r now db).1
  claim_move :
      (ref : Reference) (grant_id : ℕ) (principal : Text) (action_hash now : ℕ)
      → Move protocol key db (claim_effect key ref grant_id principal action_hash now db).1
  settle_move :
      (s : Settlement) (now : ℕ) → Move protocol key db (settle_effect protocol s now db).1

pub data Run (protocol : Protocol) (key : Signing) (db : Db) : Db → Type 0 where
  here : Run protocol key db db
  next :
      {mid db' : Db} → Run protocol key db mid → Move protocol key mid db' → Run protocol key db db'

Move-Keeps :
    {protocol : Protocol} {key : Signing} {db db' : Db}
    → Move protocol key db db'
    → IsWellFormed db
    → Keeps db db'
Move-Keeps (store_move step) wf = Step-Keeps step wf
Move-Keeps {protocol} {key} {db} (reserve_move r now) wf =
    reserve_effect-Keeps protocol key r now db wf
Move-Keeps {protocol} {key} {db} (claim_move ref g p h now) wf =
    claim_effect-Keeps key ref g p h now db wf
Move-Keeps {protocol} {key} {db} (settle_move s now) wf = settle_effect-Keeps protocol s now db wf

Move-Advances :
    {protocol : Protocol} {key : Signing} {db db' : Db}
    → Move protocol key db db'
    → IsWellFormed db
    → Advances db.effects db'.effects
Move-Advances {db} (store_move step) wf = rw (Step-effects step wf) (Advances-refl db.effects)
Move-Advances {protocol} {key} {db} (reserve_move r now) wf =
    reserve_effect-Advances protocol key r now db wf
Move-Advances {protocol} {key} {db} (claim_move ref g p h now) wf =
    claim_effect-Advances key ref g p h now db
Move-Advances {protocol} {key} {db} (settle_move s now) wf =
    settle_effect-Advances protocol s now db wf

-- Any sequence of transactions leaves well-formed tables well formed, and for every grant the sum of
-- its balance and its charges less its debt as it was.
pub Run-Keeps :
    {protocol : Protocol} {key : Signing} {db db' : Db}
    → Run protocol key db db'
    → IsWellFormed db
    → Keeps db db'
Run-Keeps {db} here wf = Keeps-refl db wf
Run-Keeps (next run move) wf =
    let before = Run-Keeps run wf in Keeps-trans before (Move-Keeps move before.well_formed)

Advances-trans : {a b c : List EffectRow} → Advances a b → Advances b c → Advances a c
unfolding IsForward
Advances-trans p q = record {
  forward = λ i row found.
      let (mid, there, first) = p.forward i row found in
      let (last, found', second) = q.forward i mid there in
      (last, found', HasAdvanced-trans first second);
  exclusive = λ x. q.exclusive (p.exclusive x);
}

-- In any sequence of transactions from well-formed tables, every effect row is kept with its effect,
-- its state is no earlier in its life and stays if it was final; and reservations stay unique, with at
-- most one live row for each effect.
pub Run-Advances :
    {protocol : Protocol} {key : Signing} {db db' : Db}
    → Run protocol key db db'
    → IsWellFormed db
    → Advances db.effects db'.effects
Run-Advances {db} here wf = Advances-refl db.effects
Run-Advances (next run move) wf =
    Advances-trans (Run-Advances run wf) (Move-Advances move (Run-Keeps run wf).well_formed)

-- In any sequence of transactions from well-formed tables in which nothing is charged to a grant,
-- if no debt of the grant stands at the end, what is charged to it at the end is at most the balance
-- it had at the beginning.
pub held-le-balance :
    {protocol : Protocol} {key : Signing} {db db' : Db} (g : ℕ)
    → Run protocol key db db'
    → IsWellFormed db
    → held db g ≡ 0
    → overrun_of db' g ≡ 0
    → held db' g ≤ balance_of db g
held-le-balance g run wf clear paid = omega (arith, (Run-Keeps run wf).balances g)

-- In any sequence of transactions from well-formed tables with unique reservations and at most one
-- live row for each effect, two rows found at the end that are live and of one effect have the same
-- reservation id.
pub Run-one_owner :
    {protocol : Protocol} {key : Signing} {db db' : Db} (i j : ℕ) (row row' : EffectRow)
    → Run protocol key db db'
    → IsWellFormed db
    → AreExclusive db.effects
    → find_effect i db'.effects ≡ some row
    → find_effect j db'.effects ≡ some row'
    → is_live row ≡ true
    → is_live row' ≡ true
    → row.effect_id ≡ row'.effect_id
    → i ≡ j
Run-one_owner {db' = db'} i j row row' run wf x fi fj li lj same =
    one_owner db'.effects i j row row' ((Run-Advances run wf).exclusive x) fi fj li lj same

-- The row of a claimed effect.
claimed_row :
    (key : Signing) (ref : Reference) (g : ℕ) (p : Text) (h now : ℕ) (db mid : Db)
    → IsClaimed key ref g p h now db mid
    → (row : EffectRow) × (find_effect ref.reservation_id mid.effects ≡ some row)
      × (1 ≤ rank row.state)
unfolding effect_event dispatched
claimed_row key ref g p h now db mid c = (
  dispatched now c.row,
  ap (λ (d : Db). find_effect ref.reservation_id d.effects) c.after
      ∙ find-update_effect ref.reservation_id (dispatched now) (dispatched-id now)
          ref.reservation_id db.effects c.row c.found
      ∙ ground arith,
  rw c.state (omega arith),
)

past_claim :
    (row row' row'' : EffectRow)
    → 1 ≤ rank row.state
    → HasAdvanced row row'
    → row''.state ≡ EffectState.reserved
    → some row'' ≡ some row'
    → ⊥
past_claim row row' row'' started ahead at_start same =
    let states : row''.state ≡ row'.state = ap (λ (r : EffectRow). r.state) (some-injective same) in
    omega (arith, started, ahead.further, ap rank states, ap rank at_start)

-- If `claim_effect` allowed the dispatch of a reservation from well-formed tables, then after any
-- sequence of further transactions no claim that names the same reservation is allowed, whatever its
-- other arguments.
pub claim-once :
    {protocol : Protocol} {key : Signing} {mid db' : Db} (ref ref' : Reference) (g g' : ℕ)
    (p p' : Text) (h h' now now' : ℕ) (db : Db)
    → IsWellFormed db
    → claim_effect key ref g p h now db ≡ (ok true, mid)
    → Run protocol key mid db'
    → ref'.reservation_id ≡ ref.reservation_id
    → (claim_effect key ref' g' p' h' now' db').0 ≢ ok true
unfolding IsForward
claim-once {key = key} {mid = mid} {db' = db'} ref ref' g g' p p' h h' now now' db wf claimed run
      same again =
    let is_mid : (claim_effect key ref g p h now db).1 ≡ mid =
      ap (λ (t : Result Bool × Db). t.1) claimed in
    let mid_wf =
      (subst (Keeps db) is_mid (claim_effect-Keeps key ref g p h now db wf)).well_formed in
    elim (claim_effect_lem key ref g p h now db claimed) [
      | inl (refusal, _) ↦ refusal refl
      | inr c ↦
          let (row, found, started) = claimed_row key ref g p h now db mid c in
          let (row', found', ahead) =
            (Run-Advances run mid_wf).forward ref.reservation_id row found in
          elim (claim_effect_lem key ref' g' p' h' now' db' refl) [
            | inl (refusal, _) ↦ refusal again
            | inr d ↦
                let same_row : some d.row ≡ some row' = sym d.found ∙ rw same found' in
                past_claim row row' d.row started ahead (is_reserved d.row.state d.state) same_row
          ]
    ]
