-- ===== src/Broker/Clean.antt =====
-- What `_final_redact` of src/actenon_permit/broker.py leaves of a secret in an evidence.
use actenon_permit.Base.{◌≡◌, false, [], ◌∷◌, Bool-cases, inl, inr}
use actenon_permit.Base.Equality.{Text}
use actenon_permit.Texts.{has_infix, has_prefix}
use actenon_permit.Broker.Redaction.{
  Json, Members, Items, text, object, array, scalar, no_members, member, no_items, item, redacted,
  scrub, scrub_members, scrub_items, ProviderResponse, final_redact,
}

-- No text among the values has the secret in it.
unfoldable mutual
  pub IsClean : Text → Json → Type 0
  IsClean secret (text t) = has_infix secret t ≡ false
  IsClean secret (object ms) = AreCleanMembers secret ms
  IsClean secret (array is) = AreCleanItems secret is
  IsClean secret (scalar truthy n) = Unit

  pub AreCleanMembers : Text → Members → Type 0
  AreCleanMembers secret no_members = Unit
  AreCleanMembers secret (member k v ms) = IsClean secret v × AreCleanMembers secret ms

  pub AreCleanItems : Text → Items → Type 0
  AreCleanItems secret no_items = Unit
  AreCleanItems secret (item v is) = IsClean secret v × AreCleanItems secret is

-- The members of an evidence come clean out of the last redaction.
module _ (secret : Text) (marker_differs : has_infix secret redacted ≡ false) where
  mutual
    unfolding IsClean AreCleanMembers AreCleanItems scrub scrub_members scrub_items

    scrub-IsClean : (v : Json) → IsClean secret (scrub secret v)
    scrub-IsClean (text t) = elim (Bool-cases (has_infix secret t)) [
      | inl there ↦ rw (there, scrub) marker_differs
      | inr absent ↦ rw (absent, scrub) absent
    ]
    scrub-IsClean (object ms) = scrub_members-AreClean ms
    scrub-IsClean (array is) = scrub_items-AreClean is
    scrub-IsClean (scalar truthy n) = tt

    scrub_members-AreClean : (ms : Members) → AreCleanMembers secret (scrub_members secret ms)
    scrub_members-AreClean no_members = tt
    scrub_members-AreClean (member k v ms) = (scrub-IsClean v, scrub_members-AreClean ms)

    scrub_items-AreClean : (is : Items) → AreCleanItems secret (scrub_items secret is)
    scrub_items-AreClean no_items = tt
    scrub_items-AreClean (item v is) = (scrub-IsClean v, scrub_items-AreClean is)

pub final_redact-AreClean :
    (response : ProviderResponse) (secret : Text)
    → has_infix secret redacted ≡ false
    → AreCleanMembers secret (final_redact response secret).provider_evidence
unfolding final_redact has_infix has_prefix
final_redact-AreClean response [] differs = cc
final_redact-AreClean response (c ∷ secret) differs =
    scrub_members-AreClean (c ∷ secret) differs response.provider_evidence
