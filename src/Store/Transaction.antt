-- ===== src/Store/Transaction.antt =====
-- The statements of a transaction in src/actenon_permit/state.py and effects.py: each ends with a value
-- or an exception, and with the tables as it leaves them, which a ROLLBACK has to undo.
use actenon_permit.Base.{◌≡◌, refl}
use actenon_permit.Result.{Result, ok, err}
use actenon_permit.Store.Tables.{Db}

-- One INSERT or UPDATE: SQLite does it whole, or raises and leaves the tables.
abbrev pub statement : Db → Result Db → Result (Unit {0}) × Db
statement db (err e) = (err e, db)
statement db (ok db') = (ok tt, db')

-- What follows, on the tables as they are now; an exception ends the transaction where it is.
abbrev pub then_run {ℓ κ} :
    {A : Type ℓ} {B : Type κ} → Result A × Db → (A → Db → Result B × Db) → Result B × Db
then_run (err e, db) next = (err e, db)
then_run (ok value, db) next = next value db

-- Inversion of what came through.
pub then_run-eq-ok {ℓ κ} :
    {A : Type ℓ} {B : Type κ} (first : Result A × Db) (next : A → Db → Result B × Db) {end : B}
    {db' : Db}
    → then_run first next ≡ (ok end, db')
    → (value : A) × (db : Db) × (first ≡ (ok value, db)) × (next value db ≡ (ok end, db'))
then_run-eq-ok (err e, db) next h = cc
then_run-eq-ok (ok value, db) next h = (value, db, refl, h)

pub statement-eq-ok {κ} :
    {B : Type κ} (db : Db) (done : Result Db) (next : Unit {0} → Db → Result B × Db) {end : B}
    {db' : Db}
    → then_run (statement db done) next ≡ (ok end, db')
    → (written : Db) × (done ≡ ok written) × (next tt written ≡ (ok end, db'))
statement-eq-ok db (err e) next h = cc
statement-eq-ok db (ok written) next h = (written, refl, h)
