-- ===== src/Grant/Signature.antt =====
-- What a signature covers and what it leaves open.
use actenon_permit.Base.{ℕ, ◌≡◌, true, arith}
use actenon_permit.Grant.{Grant, Status, Signing, sign, verify, authority_payload}

-- A grant that was just signed verifies.
pub verify-sign : (key : Signing) (g : Grant) → verify key (sign key g) ≡ true
unfolding verify sign authority_payload
verify-sign key g = ground (arith, key.mac_nonempty (authority_payload g))

-- Status and remaining budget may be rewritten under a signature: nothing else is read from them.
pub verify-live_state :
    (key : Signing) (g : Grant) (st : Status) (n : ℕ)
    → verify key (record g { status = st; budget = record (g.budget) { remaining = n } })
      ≡ verify key g
unfolding verify authority_payload
verify-live_state key g st n = ground arith
