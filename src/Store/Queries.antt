-- ===== src/Store/Queries.antt =====
-- The queries `get_grant` and `rate_count` of src/actenon_permit/state.py.
use actenon_permit.Base.{ℕ, Option, none, some}
use actenon_permit.Base.Int.{ℤ}
use actenon_permit.Grant.{Grant}
use actenon_permit.Store.Tables.{Db, owner_rate_count}

-- `get_grant`: the body as it was stored
unfoldable pub get_grant : ℕ → Db → Option Grant
get_grant g db = elim (db.grants g) [ none ↦ none | some row ↦ some row.body ]

-- `rate_count`
unfoldable pub rate_count : ℕ → ℤ → ℕ → Db → ℕ
unfolding owner_rate_count
rate_count g per_seconds now db = owner_rate_count db g now per_seconds
