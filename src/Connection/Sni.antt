-- ===== src/Connection/Sni.antt =====
-- `classify_sni`: the certificate with SNI against the one without it.
pub mod Outcome
use ru_ssl.Prelude.{Bool, true, false, Option, none, some, if◌then◌else◌, ◌≡◌, ◌≢◌, ◌⊎◌, ◌↔◌, arith}
use ru_ssl.Text.{Str, Bytes, codes, str_eq, str_eq_iff}
use ru_ssl.X509.{Parsed, parsed, refused}

pub data NoSni : Type 0 where
  leaf : Bytes → NoSni
  rejected : NoSni
  unavailable : NoSni

pub record SniBehavior : Type 0 where
  pub outcome : Str
  pub with_sni_subject : Option Str
  pub without_sni_subject : Option Str

abbrev subject_of : Parsed → Option Str
subject_of (parsed cert) = some cert.subject
subject_of (refused e) = none

-- `parse` is `parse_x509_certificate`.
unfoldable pub leaf_subject : (Bytes → Parsed) → Bytes → Option Str
leaf_subject parse der = subject_of (parse der)

-- `with_leaf.and_then(leaf_subject)`.
abbrev pub with_subject : (Bytes → Parsed) → Option Bytes → Option Str
with_subject parse none = none
with_subject parse (some der) = leaf_subject parse der

abbrev pub same_leaf : Option Bytes → Bytes → Bool
same_leaf none no_leaf = false
same_leaf (some der) no_leaf = str_eq der no_leaf

abbrev behaviour : Str → Option Str → Option Str → SniBehavior
behaviour outcome with_subject without_subject = record {
  outcome = outcome;
  with_sni_subject = with_subject;
  without_sni_subject = without_subject;
}

abbrev pub compare_leaf : (Bytes → Parsed) → Option Bytes → NoSni → SniBehavior
compare_leaf parse with_leaf unavailable =
    behaviour (codes "unknown") (with_subject parse with_leaf) none
compare_leaf parse with_leaf rejected =
    behaviour (codes "rejected-without-sni") (with_subject parse with_leaf) none
compare_leaf parse with_leaf (leaf no_leaf) =
    behaviour
      (if same_leaf with_leaf no_leaf
        then codes "same-certificate"
        else codes "different-certificate")
      (with_subject parse with_leaf) (leaf_subject parse no_leaf)

-- `is_ip` says whether the host parses as an IP address.
unfoldable pub classify_sni :
    (Bytes → Parsed) → (Str → Bool) → Str → Option Bytes → NoSni → SniBehavior
classify_sni parse is_ip host with_leaf no_sni =
    if is_ip host
    then behaviour (codes "not-applicable") (with_subject parse with_leaf) none
    else compare_leaf parse with_leaf no_sni
