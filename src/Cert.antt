-- ===== src/Cert.antt =====
-- scanner/cert.rs: the key and policy classifications and the validity window; Verifier is the
-- verifier that captures the chain. What x509-parser reads out of a certificate is an argument.
pub mod Verifier
pub mod Validity
pub mod Keys
pub mod Policies
pub mod Capture
pub mod Inspect
pub mod Total
pub mod Checked
use ru_ssl.Prelude.{
  map, ℕ, ◌+◌, Bool, true, false, ◌||◌, List, [], ◌∷◌, ◌++◌, Option, none, some, ltb, if◌then◌else◌,
  is_empty, not,
}
use ru_ssl.Prelude.Int.{ℤ, ◌-ℤ◌, tdiv, is_negative}
use ru_ssl.X509.{
  GeneralName, dns_name, ip_address, Extension, authority_info_access, certificate_policies,
  other_extension, Certificate,
}
use ru_ssl.Text.{Str, Bytes, codes, str_eq, to_string, join}

-- `is_weak_key`.
abbrev pub below_minimum : Str → ℕ → Bool
below_minimum algorithm b =
    if str_eq algorithm (codes "RSA") || str_eq algorithm (codes "DSA")
    then ltb b 2048
    else if str_eq algorithm (codes "EC")
    then ltb b 256
    else false

unfoldable pub is_weak_key : Str → Option ℕ → Bool
is_weak_key algorithm none = false
is_weak_key algorithm (some b) = below_minimum algorithm b

abbrev pub policy_level : Str → Option Str
policy_level oid =
    if str_eq oid (codes "2.23.140.1.1")
    then some (codes "EV")
    else if str_eq oid (codes "2.23.140.1.2.2")
    then some (codes "OV")
    else if str_eq oid (codes "2.23.140.1.2.3")
    then some (codes "IV")
    else if str_eq oid (codes "2.23.140.1.2.1")
    then some (codes "DV")
    else none

abbrev pub level_or : Option Str → Str → Str
level_or none later = later
level_or (some level) later = level

unfoldable pub classify_validation : List Str → Bool → Str
classify_validation [] has_org = if has_org then codes "OV (inferred)" else codes "DV (inferred)"
classify_validation (oid ∷ oids) has_org =
    level_or (policy_level oid) (classify_validation oids has_org)

-- The arms of `oid_name`, and its default.
abbrev pub oid_arms : List (Str × Str)
oid_arms =
    (codes "1.2.840.10045.2.1", codes "EC")
    ∷ (codes "1.2.840.113549.1.1.1", codes "RSA")
    ∷ (codes "1.3.101.112", codes "Ed25519")
    ∷ (codes "1.3.101.110", codes "X25519")
    ∷ (codes "1.2.840.10045.4.3.2", codes "ecdsa-with-SHA256")
    ∷ (codes "1.2.840.10045.4.3.3", codes "ecdsa-with-SHA384")
    ∷ (codes "1.2.840.10045.4.3.4", codes "ecdsa-with-SHA512")
    ∷ (codes "1.2.840.113549.1.1.5", codes "sha1WithRSAEncryption")
    ∷ (codes "1.2.840.113549.1.1.11", codes "sha256WithRSAEncryption")
    ∷ (codes "1.2.840.113549.1.1.12", codes "sha384WithRSAEncryption")
    ∷ (codes "1.2.840.113549.1.1.13", codes "sha512WithRSAEncryption")
    ∷ []

unfoldable pub match_oid : Str → List (Str × Str) → Str
match_oid oid [] = oid
match_oid oid ((arm, name) ∷ arms) = if str_eq oid arm then name else match_oid oid arms

unfoldable pub oid_name : Str → Str
oid_name oid = match_oid oid oid_arms

abbrev pub seconds_per_day : ℕ
seconds_per_day = 86400

-- Timestamps of certificates lie far inside `i64`, so the subtraction does not wrap.
unfoldable pub days_remaining : ℤ → ℤ → ℤ
unfolding ◌-ℤ◌
days_remaining not_after now = tdiv (not_after -ℤ now) seconds_per_day

pub record CertInfo : Type 0 where
  pub subject : Str
  pub issuer : Str
  pub sans : List Str
  pub not_before : Str
  pub not_after : Str
  pub days_left : ℤ
  pub is_expired : Bool
  pub key_algorithm : Str
  pub key_bits : Option ℕ
  pub weak_key : Bool
  pub signature_algorithm : Str
  pub validation_level : Str
  pub ocsp_status : Option Str
  pub ct_log_entries : Option ℕ
  pub chain_depth : ℕ

-- `{:?}` of a slice of bytes.
abbrev debug_text : Bytes → Str
debug_text bytes = b'[' ∷ (join (map to_string bytes) (codes ", ") ++ (b']' ∷ []))

abbrev san_text : GeneralName → Option Str
san_text (dns_name s) = some s
san_text (ip_address ip) = some (debug_text ip)
san_text _ = none

abbrev cons_some : Option Str → List Str → List Str
cons_some none ss = ss
cons_some (some s) ss = s ∷ ss

unfoldable pub san_texts : List GeneralName → List Str
san_texts [] = []
san_texts (n ∷ ns) = cons_some (san_text n) (san_texts ns)

abbrev sans_of : Option (List GeneralName) → List Str
sans_of none = []
sans_of (some names) = san_texts names

-- The policy OIDs of all `CertificatePolicies` extensions, in order.
unfoldable pub policy_oids : List Extension → List Str
policy_oids [] = []
policy_oids (certificate_policies oids ∷ exts) = oids ++ policy_oids exts
policy_oids (authority_info_access aia ∷ exts) = policy_oids exts
policy_oids (other_extension ∷ exts) = policy_oids exts

-- The block of `inspect` that turns the parsed leaf into owned fields.
unfoldable pub cert_info : Certificate → ℤ → ℕ → CertInfo
cert_info cert now chain_depth =
    let days = days_remaining cert.not_after now in
    let key_algorithm = oid_name cert.key_oid in
    record {
      subject = cert.subject;
      issuer = cert.issuer;
      sans = sans_of cert.subject_alternative_name;
      not_before = cert.not_before_text;
      not_after = cert.not_after_text;
      days_left = days;
      is_expired = is_negative days;
      key_algorithm = key_algorithm;
      key_bits = cert.key_size;
      weak_key = is_weak_key key_algorithm cert.key_size;
      signature_algorithm = oid_name cert.signature_oid;
      validation_level =
          classify_validation (policy_oids cert.extensions) (not (is_empty cert.organizations));
      ocsp_status = none;
      ct_log_entries = none;
      chain_depth = chain_depth;
    }
