-- ===== src/Ledger/Chain.antt =====
-- What `verify` of src/actenon_permit/ledger.py finds, and what `append` keeps.
use actenon_permit.Base.{
  ℕ, ◌≡◌, ◌≢◌, refl, ap, sym, ◌∙◌, arith, inl, inr, Bool, true, false, ◌&&◌, Option, some, List, [],
  ◌∷◌, ◌++◌, ◌==◌, Bool-cases, any,
}
use actenon_permit.Result.{ok, raise_if-eq-ok, ok-injective, integrity_error}
use actenon_permit.Ledger.{
  LedgerRow, Fields, Hashing, verify, verify_from, is_intact, expected_hash, append, new_entry,
  last_hash, body_of_version, genesis,
}

-- The hash that the row after `rows` is chained to.
unfoldable pub hash_after : ℕ → List LedgerRow → ℕ
hash_after prev [] = prev
hash_after prev (r ∷ rows) = hash_after r.hash rows

last_hash-hash_after : (rows : List LedgerRow) → last_hash rows ≡ hash_after genesis rows
unfolding last_hash hash_after
last_hash-hash_after [] = refl
last_hash-hash_after (r ∷ []) = refl
last_hash-hash_after (r ∷ s ∷ rows) = last_hash-hash_after (s ∷ rows)

verify_from-append :
    (h : Hashing) (prev : ℕ) (xs ys : List LedgerRow)
    → verify_from h prev (xs ++ ys)
      ≡ (verify_from h prev xs && verify_from h (hash_after prev xs) ys)
unfolding verify_from hash_after
verify_from-append h prev [] ys = refl
verify_from-append h prev (x ∷ xs) ys = ground (arith, verify_from-append h x.hash xs ys)

new_entry-verify_from :
    (h : Hashing) (f : Fields) (real exact : Option ℕ) (prev : ℕ)
    → verify_from h prev (new_entry h f real exact prev ∷ []) ≡ true
unfolding verify_from expected_hash new_entry body_of_version
new_entry-verify_from h f real exact prev = ground arith

and_true : (b : Bool) → (b && true) ≡ b
and_true b = ground arith

chained :
    (h : Hashing) (f : Fields) (real exact : Option ℕ) (rows : List LedgerRow)
    → (verify_from h genesis rows
        && verify_from h (hash_after genesis rows) (new_entry h f real exact (last_hash rows) ∷ []))
      ≡ verify_from h genesis rows
chained h f real exact rows =
    let prev = hash_after genesis rows in
    ap
      (λ (p : ℕ).
        verify_from h genesis rows && verify_from h prev (new_entry h f real exact p ∷ []))
      (last_hash-hash_after rows)
    ∙ ap (λ (b : Bool). verify_from h genesis rows && b) (new_entry-verify_from h f real exact prev)
    ∙ and_true (verify_from h genesis rows)

-- If `append` goes through, it adds one row at the end, of the given fields, chained to the row
-- before it, under a hash that no earlier row has; and the ledger verifies after it exactly when it
-- did before.
pub append-verify :
    (h : Hashing) (f : Fields) (real exact : Option ℕ) (rows rows' : List LedgerRow)
    → append h f real exact rows ≡ ok rows'
    → (row : LedgerRow) × (rows' ≡ rows ++ row ∷ [])
      × (row.prev_hash ≡ hash_after genesis rows)
      × (row.fields ≡ f)
      × (any (λ (r : LedgerRow). r.hash == row.hash) rows ≡ false)
      × (verify h rows' ≡ verify h rows)
unfolding append verify
append-verify h f real exact rows rows' e =
    let row = new_entry h f real exact (last_hash rows) in
    let (new, last) =
      raise_if-eq-ok (any (λ (r : LedgerRow). r.hash == row.hash) rows) integrity_error _ e in
    let same : rows' ≡ rows ++ row ∷ [] = sym (ok-injective last) in
    (
      row,
      same,
      last_hash-hash_after rows,
      refl,
      new,
      ap (verify_from h genesis) same
          ∙ verify_from-append h genesis rows (row ∷ [])
          ∙ chained h f real exact rows,
    )

-- The hash of an intact row of version 3.
intact_v3 :
    (h : Hashing) (prev : ℕ) (row : LedgerRow)
    → row.chain_version ≡ some 3
    → is_intact h prev row ≡ true
    → h.hash_v3 prev (body_of_version 3 (some 3) prev row) ≡ row.hash
unfolding is_intact expected_hash
intact_v3 h prev row v3 intact = ground (arith, (rw v3 at intact))

intact_at :
    (h : Hashing) (prev : ℕ) (before after : List LedgerRow) (row : LedgerRow)
    → verify_from h prev (before ++ row ∷ after) ≡ true
    → is_intact h (hash_after prev before) row ≡ true
unfolding verify_from hash_after
intact_at h prev [] after row e = ground arith
intact_at h prev (x ∷ before) after row e = intact_at h x.hash before after row (ground arith)

-- If a row of an intact ledger is replaced by one with the same hash and other content, both of
-- version 3 and the two contents not a collision of the hash, then `verify` finds it, wherever the
-- row stands and whatever follows.
pub verify-finds_change :
    (h : Hashing) (before after : List LedgerRow) (row changed : LedgerRow)
    → verify h (before ++ row ∷ after) ≡ true
    → row.chain_version ≡ some 3
    → changed.chain_version ≡ some 3
    → changed.hash ≡ row.hash
    → h.hash_v3
        (hash_after genesis before)
        (body_of_version 3 (some 3) (hash_after genesis before) row)
      ≢ h.hash_v3
          (hash_after genesis before)
          (body_of_version 3 (some 3) (hash_after genesis before) changed)
    → verify h (before ++ changed ∷ after) ≡ false
unfolding verify
verify-finds_change h before after row changed intact v3 v3' same differs =
    elim (Bool-cases (verify_from h genesis (before ++ changed ∷ after))) [
      | inr found ↦ found
      | inl missed ↦
          let prev = hash_after genesis before in
          let old = intact_v3 h prev row v3 (intact_at h genesis before after row intact) in
          let new =
            intact_v3 h prev changed v3' (intact_at h genesis before after changed missed) in
          absurd (differs (old ∙ sym same ∙ sym new))
    ]
