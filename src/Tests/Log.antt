-- ===== src/Tests/Log.antt =====
-- A ledger with one entry, and the same with other parameters under its hash.
use actenon_permit.Base.{
  ℕ, suc, ◌+◌, ◌≡◌, ◌≢◌, refl, arith, false, true, none, some, any, [], ◌∷◌, ◌++◌, ◌==◌,
}
use actenon_permit.Result.{ok}
use actenon_permit.Ledger.{
  LedgerRow, Fields, Hashing, append, verify, genesis, last_hash, new_entry, verify_from, is_intact,
  expected_hash, body_of_version,
}
use actenon_permit.Ledger.Chain.{append-verify, verify-finds_change, hash_after}

-- A digest for the examples.
abbrev digest : Hashing
digest = record {
  hash_legacy = λ p b. suc (p + b.fields.params);
  hash_v2 = λ p b. suc (p + b.fields.params);
  hash_v3 = λ p b. suc (p + b.fields.params);
}

abbrev fields_of : ℕ → Fields
fields_of params = record {
  action_id = 1;
  grant_id = 2;
  ts = 3;
  action_type = 4;
  target = 5;
  params = params;
  outcome = 6;
  reason = 7;
  rule_matched = none;
  state_delta = 8;
  failure_code = none;
  authority_boundary = none;
}

abbrev entry_of : ℕ → LedgerRow
entry_of params = record {
  fields = fields_of params;
  est_cost = none;
  est_cost_exact = none;
  prev_hash = 0;
  hash = 11;
  chain_version = some 3;
}

appends : append digest (fields_of 10) none none [] ≡ ok (entry_of 10 ∷ [])
unfolding append last_hash new_entry
appends = refl

append-verify_example :
    (row : LedgerRow) × (entry_of 10 ∷ [] ≡ [] ++ row ∷ [])
    × (row.prev_hash ≡ hash_after genesis [])
    × (row.fields ≡ fields_of 10)
    × (any (λ (r : LedgerRow). r.hash == row.hash) [] ≡ false)
    × (verify digest (entry_of 10 ∷ []) ≡ verify digest [])
append-verify_example = append-verify digest (fields_of 10) none none [] (entry_of 10 ∷ []) appends

verifies : verify digest ([] ++ entry_of 10 ∷ []) ≡ true
unfolding verify verify_from is_intact expected_hash body_of_version
verifies = refl

digests_differ :
    digest.hash_v3
      (hash_after genesis [])
      (body_of_version 3 (some 3) (hash_after genesis []) (entry_of 10))
    ≢ digest.hash_v3
        (hash_after genesis [])
        (body_of_version 3 (some 3) (hash_after genesis []) (entry_of 20))
unfolding hash_after body_of_version
digests_differ e = ground arith

verify-finds_change_example : verify digest ([] ++ entry_of 20 ∷ []) ≡ false
verify-finds_change_example =
    verify-finds_change digest [] [] (entry_of 10) (entry_of 20) verifies refl refl refl
      digests_differ
