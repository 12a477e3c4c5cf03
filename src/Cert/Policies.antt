-- ===== src/Cert/Policies.antt =====
-- How the validation level is chosen among the policy OIDs.
use ru_ssl.Prelude.{◌≡◌, Bool, List, [], ◌∷◌, ◌++◌, none, some, All}
use ru_ssl.Text.{Str}
use ru_ssl.Cert.{policy_level, classify_validation}

-- OIDs that are no CA/Browser Forum policy.
abbrev pub Unknown : List Str → Type 0
Unknown = All (λ oid. policy_level oid ≡ none)

-- The first policy OID with a known level decides the validation level, if those in front of it
-- are unknown, whatever follows it and whether or not the subject has an organization.
pub classify_validation-first :
    (before after : List Str) (oid level : Str) (has_org : Bool)
    → Unknown before
    → policy_level oid ≡ some level
    → classify_validation (before ++ (oid ∷ after)) has_org ≡ level
unfolding classify_validation
classify_validation-first [] after oid level has_org h e = rw e
classify_validation-first (o ∷ before) after oid level has_org (ho, h) e =
    rw ho (classify_validation-first before after oid level has_org h e)
