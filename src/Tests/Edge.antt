-- ===== src/Tests/Edge.antt =====
-- A protected edge that asks about the child of the example store, a pattern, and a call that is tried three times.
use actenon_permit.Base.Equality.{Text}
use actenon_permit.Base.{
  ◌∷◌, List, is_some, ◌++◌, ℕ, suc, ◌≡◌, ◌≢◌, ◌≤◌, ◌↔◌, refl, arith, true, some, [], ltb,
  if◌then◌else◌,
}
use actenon_permit.Grant.{revoked}
use actenon_permit.Store.Settle.{set_status}
use actenon_permit.Store.Queries.{get_grant}
use actenon_permit.Texts.{codes}
use actenon_permit.Pdp.Rules.{scope_matches}
use actenon_permit.Pdp.Scopes.{scope_matches-prefix}
use actenon_permit.Revocation.{
  StoreRevocationChecker, AuthorityReference, answered, check_ancestry, check_revocation,
}
use actenon_permit.Revocation.Ancestry.{
  IsStanding, itself, further, check_ancestry_iff, check_revocation-revoked,
}
use actenon_permit.Retry.{
  Attempt, returned, raised, Policy, with_retry, HasStopped, with_retry-HasStopped,
}
use actenon_permit.Tests.Data.{store, child}

abbrev shell : List Text
shell = codes "git.push" ∷ codes "shell.*" ∷ []

scope_matches-prefix_example :
    (is_some (scope_matches ((codes "shell." ++ 42 ∷ []) ∷ []) (codes "shell.exec")) ≡ true)
    ↔ ((rest : Text) × (codes "shell.exec" ≡ codes "shell." ++ rest))
scope_matches-prefix_example = scope_matches-prefix (codes "shell.") (codes "shell.exec") refl

check_ancestry_iff_example :
    (check_ancestry store 10 64 [] (some 2) ≡ answered true)
    ↔ ((n : ℕ) × (n ≤ 64) × IsStanding store 10 n (some 2))
check_ancestry_iff_example = check_ancestry_iff store 10 64 (some 2)

abbrev checker : StoreRevocationChecker
checker = record { issuer = codes "service:actenon-permit"; max_depth = 64 }

abbrev reference : AuthorityReference
reference = record { issuer = some (codes "service:actenon-permit"); grant_id = some 2 }

child_stored : get_grant 2 store ≡ some child
unfolding get_grant
child_stored = refl

check_revocation-revoked_example :
    check_revocation checker (set_status 1 revoked store) 10 (some reference) ≢ answered true
check_revocation-revoked_example =
    check_revocation-revoked checker store 10 1 2 reference refl
      (further child child_stored refl itself)

-- The call fails until it has been made twice.
abbrev flaky : ℕ → Attempt ℕ ℕ × ℕ
flaky n = ((if ltb n 2 then raised n else returned n), suc n)

abbrev policy : Policy ℕ
policy = record {
  base_delay = 10;
  max_delay = 15;
  is_retryable = λ e. true;
  jitter = λ attempt high. 0;
}

with_retry-HasStopped_example :
    (k : ℕ) × HasStopped flaky policy 5 0 (with_retry flaky policy 5 0) k
with_retry-HasStopped_example =
    with_retry-HasStopped flaky policy (λ attempt high. omega arith) 5 0 (omega arith)
