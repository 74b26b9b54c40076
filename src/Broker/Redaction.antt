-- ===== src/Broker/Redaction.antt =====
-- `_final_redact` and `_scrub_text` of src/actenon_permit/broker.py.
use actenon_permit.Base.{
  ℕ, zero, suc, ◌-◌, Bool, Option, none, [], ◌∷◌, ◌++◌, length, if◌then◌else◌,
}
use actenon_permit.Base.Equality.{Text}
use actenon_permit.Budget.{Value}
use actenon_permit.Texts.{codes, has_prefix, has_infix}

-- The values of an evidence; what is neither a text nor a container is only
-- passed on and tested for its truth.
mutual
  pub data Json : Type 0 where
    text : Text → Json
    object : Members → Json
    array : Items → Json
    scalar : Bool → ℕ → Json

  pub data Members : Type 0 where
    no_members : Members
    member : Text → Json → Members → Members

  pub data Items : Type 0 where
    no_items : Items
    item : Json → Items → Items

abbrev pub redacted : Text
redacted = codes "<redacted>"

-- `_scrub`
unfoldable mutual
  pub scrub : Text → Json → Json
  scrub secret (text t) = if has_infix secret t then text redacted else text t
  scrub secret (object ms) = object (scrub_members secret ms)
  scrub secret (array is) = array (scrub_items secret is)
  scrub secret (scalar truthy n) = scalar truthy n

  pub scrub_members : Text → Members → Members
  scrub_members secret no_members = no_members
  scrub_members secret (member k v ms) = member k (scrub secret v) (scrub_members secret ms)

  pub scrub_items : Text → Items → Items
  scrub_items secret no_items = no_items
  scrub_items secret (item v is) = item (scrub secret v) (scrub_items secret is)

-- `ProviderResponse`; `raw` is whether there is one.
pub record ProviderResponse : Type 0 where
  pub is_ok : Bool
  pub action : Text
  pub provider_action_id : Option Text
  pub provider_evidence : Members
  pub cost : Option Value
  pub raw : Option Json

-- `_final_redact`
unfoldable pub final_redact : ProviderResponse → Text → ProviderResponse
final_redact response [] = record response { raw = none }
final_redact response (c ∷ secret) = record response {
  provider_evidence = scrub_members (c ∷ secret) response.provider_evidence;
  raw = none;
}

-- `text.replace(secret, "<redacted>")`, where `skip` code points belong to a secret that was found.
unfoldable pub replace_from : Text → ℕ → Text → Text
replace_from secret skip [] = []
replace_from secret (suc skip) (c ∷ s) = replace_from secret skip s
replace_from secret zero (c ∷ s) =
    let found = redacted ++ replace_from secret (length secret - 1) s in
    let rest = c ∷ replace_from secret zero s in if has_prefix secret (c ∷ s) then found else rest

-- `_scrub_text`
unfoldable pub scrub_text : Text → Text → Text
scrub_text s [] = s
scrub_text s (c ∷ secret) = replace_from (c ∷ secret) zero s
