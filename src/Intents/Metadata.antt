-- ===== src/Intents/Metadata.antt =====
-- `validate_metadata` of src/actenon_permit/intent.py.
use actenon_permit.Base.{ℕ, Bool, false, List, [], ◌∷◌, any, ltb, Option, none, some, ◌*◌}
use actenon_permit.Base.Equality.{Text, text_eq, contains}
use actenon_permit.Result.{
  Result, ok, ◌>>◌, raise_if, metadata_too_large, metadata_forbidden_key, metadata_secret,
}
use actenon_permit.Texts.{codes, lower, has_prefix}

-- An entry: the text of its key, and its value where that is a text.
pub record Entry : Type 0 where
  pub key : Text
  pub text_value : Option Text
  pub value : ℕ

-- The metadata, with the length of its JSON in bytes of UTF-8.
pub record Metadata : Type 0 where
  pub entries : List Entry
  pub bytes : ℕ

abbrev pub max_metadata_bytes : ℕ
max_metadata_bytes = 4 * 1024

abbrev pub forbidden_metadata_keys : List Text
forbidden_metadata_keys =
    codes "password"
    ∷ codes "secret"
    ∷ codes "token"
    ∷ codes "api_key"
    ∷ codes "apikey"
    ∷ codes "private_key"
    ∷ codes "privatekey"
    ∷ codes "access_key"
    ∷ codes "accesskey"
    ∷ codes "bearer"
    ∷ codes "authorization"
    ∷ []

abbrev pub secret_prefixes : List Text
secret_prefixes =
    codes "ghp_"
    ∷ codes "gho_"
    ∷ codes "ghu_"
    ∷ codes "ghs_"
    ∷ codes "ghr_"
    ∷ codes "github_pat_"
    ∷ codes "sk_"
    ∷ codes "AKIA"
    ∷ codes "-----BEGIN"
    ∷ []

unfoldable pub is_secret : Option Text → Bool
is_secret none = false
is_secret (some v) = any (λ p. has_prefix p v) secret_prefixes

unfoldable pub is_forbidden : Text → Bool
is_forbidden key = contains (lower key) forbidden_metadata_keys

-- The loop over the entries.
unfoldable pub check_entries : List Entry → Result (Unit {0})
check_entries [] = ok tt
check_entries (e ∷ entries) =
    raise_if (is_forbidden e.key) metadata_forbidden_key
    >> (raise_if (is_secret e.text_value) metadata_secret >> check_entries entries)

-- `validate_metadata`
unfoldable pub validate_metadata : Metadata → Result (Unit {0})
validate_metadata metadata =
    raise_if (ltb max_metadata_bytes metadata.bytes) metadata_too_large
    >> check_entries metadata.entries
