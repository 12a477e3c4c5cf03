-- ===== src/UnitTests/Connection.antt =====
-- The unit tests of scanner/connection.rs. The parser of X.509 certificates is an argument, as it is
-- in `classify_sni`, and so is the test for an IP address.
use ru_ssl.Prelude.{
  ◌≡◌, refl, Bool, true, false, not, ◌&&◌, [], ◌∷◌, Option, none, some, ◌==◌, All, length,
  get_elem?,
}
use ru_ssl.Text.{
  Str, Bytes, codes, str_eq, contains, starts_with, trim, trim_matches, split, split_by, split_once,
  is_whitespace, eq_ignore_ascii_case, from_str_radix,
}
use ru_ssl.X509.{Parsed}
use ru_ssl.Handshake.{ProtocolResult}
use ru_ssl.Connection.ForwardSecrecy.{is_forward_secret, collect, forward_secrecy}
use ru_ssl.Connection.Hsts.{read_tokens, parse_hsts}
use ru_ssl.Connection.Sni.{NoSni, leaf, rejected, unavailable, classify_sni}
use ru_ssl.UnitTests.{Passes, unwrapped, option_eq}

abbrev proto : Str → Bool → Option Str → ProtocolResult
proto version supported cipher = record {
  version = version;
  supported = supported;
  negotiated_cipher = cipher;
  negotiated_group = none;
}

abbrev tls13_is_always_forward_secret : Bool
tls13_is_always_forward_secret =
    is_forward_secret (codes "TLS 1.3") none
    && is_forward_secret (codes "TLS 1.3") (some (codes "TLS13_AES_256_GCM_SHA384"))

abbrev tls12_forward_secrecy_keys_off_suite_name : Bool
tls12_forward_secrecy_keys_off_suite_name =
    is_forward_secret (codes "TLS 1.2") (some (codes "TLS_ECDHE_RSA_WITH_AES_128_GCM_SHA256"))
    && is_forward_secret (codes "TLS 1.2") (some (codes "TLS_DHE_RSA_WITH_AES_128_GCM_SHA256"))
    && not (is_forward_secret (codes "TLS 1.2") (some (codes "TLS_RSA_WITH_AES_128_GCM_SHA256")))
    && not (is_forward_secret (codes "TLS 1.2") none)

abbrev forward_secrecy_ignores_unsupported_protocols : Bool
forward_secrecy_ignores_unsupported_protocols =
    let protocols =
      proto (codes "TLS 1.2") false none
      ∷ proto (codes "TLS 1.3") true (some (codes "TLS13_AES_256_GCM_SHA384"))
      ∷ [] in
    let fs = forward_secrecy protocols in
    fs.all_forward_secret
    && (length fs.protocols == 1)
    && unwrapped (get_elem? fs.protocols 0) (λ p. str_eq p.version (codes "TLS 1.3"))

abbrev forward_secrecy_flags_non_fs_suite : Bool
forward_secrecy_flags_non_fs_suite =
    let protocols =
      proto (codes "TLS 1.2") true (some (codes "TLS_RSA_WITH_AES_128_GCM_SHA256")) ∷ [] in
    not (forward_secrecy protocols).all_forward_secret

abbrev forward_secrecy_empty_is_not_vacuously_true : Bool
forward_secrecy_empty_is_not_vacuously_true =
    not (forward_secrecy []).all_forward_secret
    && not (forward_secrecy (proto (codes "TLS 1.2") false none ∷ [])).all_forward_secret

secrecy_tests : All Passes (
    tls13_is_always_forward_secret ∷ tls12_forward_secrecy_keys_off_suite_name
    ∷ forward_secrecy_ignores_unsupported_protocols ∷ forward_secrecy_flags_non_fs_suite
    ∷ forward_secrecy_empty_is_not_vacuously_true ∷ [])
unfolding str_eq contains starts_with is_forward_secret collect forward_secrecy
secrecy_tests = (refl, (refl, (refl, (refl, (refl, tt)))))

abbrev hsts_absent_header : Bool
hsts_absent_header =
    let h = parse_hsts none in
    not h.present && option_eq h.max_age none && not h.include_subdomains && not h.preload

abbrev hsts_full_directive_set : Bool
hsts_full_directive_set =
    let h = parse_hsts (some (codes "max-age=31536000; includeSubDomains; preload")) in
    h.present && option_eq h.max_age (some 31536000) && h.include_subdomains && h.preload

abbrev hsts_max_age_only_case_insensitive : Bool
hsts_max_age_only_case_insensitive =
    let h = parse_hsts (some (codes "Max-Age=600")) in
    option_eq h.max_age (some 600) && not h.include_subdomains && not h.preload

abbrev hsts_quoted_and_spaced_max_age : Bool
hsts_quoted_and_spaced_max_age =
    let h = parse_hsts (some (codes "max-age=\"7776000\" ; IncludeSubDomains")) in
    option_eq h.max_age (some 7776000) && h.include_subdomains

abbrev hsts_malformed_max_age_is_none_but_present : Bool
hsts_malformed_max_age_is_none_but_present =
    let h = parse_hsts (some (codes "max-age=oops; preload")) in
    h.present && option_eq h.max_age none && h.preload

hsts_tests : All Passes (
    hsts_absent_header ∷ hsts_full_directive_set ∷ hsts_max_age_only_case_insensitive
    ∷ hsts_quoted_and_spaced_max_age ∷ hsts_malformed_max_age_is_none_but_present ∷ [])
unfolding read_tokens parse_hsts split split_by split_once trim trim_matches is_whitespace
    eq_ignore_ascii_case from_str_radix
hsts_tests = (refl, (refl, (refl, (refl, (refl, tt)))))

module _ (parse : Bytes → Parsed) (is_ip : Str → Bool) where
  abbrev outcome_is : Str → Option Bytes → NoSni → Str → Bool
  outcome_is host with_leaf no_sni outcome =
      let b = classify_sni parse is_ip host with_leaf no_sni in str_eq b.outcome outcome

  abbrev sni_ip_target_is_not_applicable : Bool
  sni_ip_target_is_not_applicable =
      outcome_is (codes "192.0.2.1") none rejected (codes "not-applicable")

  abbrev sni_rejected_without_sni : Bool
  sni_rejected_without_sni =
      outcome_is (codes "example.com") (some (codes "leaf-der")) rejected
        (codes "rejected-without-sni")

  abbrev sni_unavailable_when_unresolved : Bool
  sni_unavailable_when_unresolved =
      outcome_is (codes "example.com") (some (codes "leaf-der")) unavailable (codes "unknown")

  abbrev sni_same_and_different_certificate : Bool
  sni_same_and_different_certificate =
      outcome_is (codes "example.com") (some (codes "identical-der")) (leaf (codes "identical-der"))
        (codes "same-certificate")
      && outcome_is (codes "example.com") (some (codes "sni-der")) (leaf (codes "default-der"))
          (codes "different-certificate")

  sni_tests :
      is_ip (codes "192.0.2.1") ≡ true
      → is_ip (codes "example.com") ≡ false
      → All Passes (
          sni_ip_target_is_not_applicable ∷ sni_rejected_without_sni
          ∷ sni_unavailable_when_unresolved ∷ sni_same_and_different_certificate ∷ [])
  unfolding str_eq classify_sni
  sni_tests address name = (rw address refl, (rw name refl, (rw name refl, (rw name refl, tt))))
