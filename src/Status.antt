-- ===== src/Status.antt =====
-- `GrantStatus` of src/actenon_permit/model.py.
use actenon_permit.Base.{Bool, true, false}

pub data Status : Type 0 where
  active revoked expired exhausted : Status

unfoldable pub status_beq : Status → Status → Bool
status_beq active active = true
status_beq revoked revoked = true
status_beq expired expired = true
status_beq exhausted exhausted = true
status_beq s t = false
