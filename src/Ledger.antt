-- ===== src/Ledger.antt =====
-- src/actenon_permit/ledger.py: the hash-chained log. Texts and JSON values are only stored and
-- hashed, and are numbers; a JSON column stands for the value that it holds. The rows come in the
-- order of `seq`, the oldest first.
pub mod Chain
use actenon_permit.Base.{
  ℕ, ◌-◌, suc, Bool, true, false, not, ◌&&◌, Option, none, some, List, [], ◌∷◌, ◌++◌, any, length,
  ◌==◌, if◌then◌else◌, ◌-◌,
}
use actenon_permit.Result.{Result, ok, err, ◌>>=◌, ◌>>◌, raise_if, integrity_error}

-- What `append` is given; the cost is the text of the exact decimal.
pub record Fields : Type 0 where
  pub action_id : ℕ
  pub grant_id : ℕ
  pub ts : ℕ
  pub action_type : ℕ
  pub target : ℕ
  pub params : ℕ
  pub outcome : ℕ
  pub reason : ℕ
  pub rule_matched : Option ℕ
  pub state_delta : ℕ
  pub failure_code : Option ℕ
  pub authority_boundary : Option ℕ

-- A row of the table `ledger`.
pub record LedgerRow : Type 0 where
  pub fields : Fields
  pub est_cost : Option ℕ
  pub est_cost_exact : Option ℕ
  pub prev_hash : ℕ
  pub hash : ℕ
  pub chain_version : Option ℕ

-- `entry_body`: its format is 2 or 3.
pub record EntryBody : Type 0 where
  pub entry_format : ℕ
  pub chain_version : Option ℕ
  pub fields : Fields
  pub est_cost : Option ℕ
  pub prev_hash : ℕ

-- SHA-256 over the previous hash and the text of the body, as `_hash_entry_legacy`, `_hash_entry_v2`
-- and `_hash_entry_v3` write it.
pub record Hashing : Type 0 where
  pub hash_legacy : ℕ → EntryBody → ℕ
  pub hash_v2 : ℕ → EntryBody → ℕ
  pub hash_v3 : ℕ → EntryBody → ℕ

abbrev pub genesis : ℕ
genesis = 0

abbrev pub current_version : ℕ
current_version = 3

-- `last_hash`
unfoldable pub last_hash : List LedgerRow → ℕ
last_hash [] = genesis
last_hash (r ∷ []) = r.hash
last_hash (r ∷ s ∷ rows) = last_hash (s ∷ rows)

unfoldable pub body_of_version : ℕ → Option ℕ → ℕ → LedgerRow → EntryBody
body_of_version format version prev row = record {
  entry_format = format;
  chain_version = version;
  fields = row.fields;
  est_cost = if format == 3 then row.est_cost_exact else row.est_cost;
  prev_hash = prev;
}

-- The hash that `verify` expects of a row; an unknown version has none.
unfoldable pub expected_hash : Hashing → ℕ → LedgerRow → Option ℕ
unfolding body_of_version
expected_hash h prev row = elim row.chain_version [
  | none ↦ some (h.hash_legacy prev (body_of_version 2 none prev row))
  | some v ↦
      if v == 3
      then some (h.hash_v3 prev (body_of_version 3 (some 3) prev row))
      else if v == 2
      then some (h.hash_v2 prev (body_of_version 2 (some 2) prev row))
      else none
]

-- One round of the loop of `verify`.
unfoldable pub is_intact : Hashing → ℕ → LedgerRow → Bool
unfolding expected_hash
is_intact h prev row =
    row.prev_hash == prev
    && elim (expected_hash h prev row) [ none ↦ false | some e ↦ e == row.hash ]

unfoldable pub verify_from : Hashing → ℕ → List LedgerRow → Bool
unfolding is_intact
verify_from h prev [] = true
verify_from h prev (row ∷ rows) = is_intact h prev row && verify_from h row.hash rows

-- `verify`
unfoldable pub verify : Hashing → List LedgerRow → Bool
unfolding verify_from
verify h rows = verify_from h genesis rows

-- The row that `append` writes; `real_cost` is its cost as a float.
unfoldable pub new_entry : Hashing → Fields → Option ℕ → Option ℕ → ℕ → LedgerRow
new_entry h fields real_cost exact_cost prev = record {
  fields = fields;
  est_cost = real_cost;
  est_cost_exact = exact_cost;
  prev_hash = prev;
  hash = h.hash_v3 prev (record {
    entry_format = 3;
    chain_version = some current_version;
    fields = fields;
    est_cost = exact_cost;
    prev_hash = prev;
  });
  chain_version = some current_version;
}

-- `append`: the column `hash` is unique.
unfoldable pub append :
    Hashing → Fields → Option ℕ → Option ℕ → List LedgerRow → Result (List LedgerRow)
unfolding last_hash new_entry
append h fields real_cost exact_cost rows = do
  let row = new_entry h fields real_cost exact_cost (last_hash rows)
  raise_if (any (λ (r : LedgerRow). r.hash == row.hash) rows) integrity_error
  ok (rows ++ row ∷ [])

-- Whether a query for a grant, or for all of them, has the row.
unfoldable pub is_listed : Option ℕ → LedgerRow → Bool
is_listed none row = true
is_listed (some g) row = row.fields.grant_id == g

-- `list_entries`, its rows
unfoldable pub list_entries : Option ℕ → ℕ → List LedgerRow → List LedgerRow
unfolding is_listed
list_entries grant_id limit [] = []
list_entries grant_id limit (row ∷ rows) =
    let passed = list_entries grant_id limit rows in
    let rest = list_entries grant_id (limit - 1) rows in
    if limit == 0 then [] else if is_listed grant_id row then row ∷ rest else passed
