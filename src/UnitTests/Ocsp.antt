-- ===== src/UnitTests/Ocsp.antt =====
-- The unit tests of scanner/ocsp.rs.
use ru_ssl.Prelude.{refl, Bool, true, false, ◌&&◌, [], ◌∷◌, ◌++◌, ◌==◌, All}
use ru_ssl.Text.{Bytes, codes, str_eq, strip_prefix, rsplit_once, find_char, from_str_radix}
use ru_ssl.Error.{Result}
use ru_ssl.Der.{
  algid_sha1, push_bytes, encode_len, tlv, sequence, octet_string, integer, fold_len, read_len,
  read_tlv, children_loop, children,
}
use ru_ssl.Ocsp.{
  CertStatus, good, revoked, unknown, responder_error, status_of_tag, single_status, parse_status,
  parse_rest, parse_url,
}
use ru_ssl.UnitTests.{Passes, unwrapped_ok, is_err, filled}

-- The tests' response with a status, which passes through each level of the walk.
abbrev the_date : Bytes
the_date = codes "20240101000000Z"

abbrev single_response : Bytes → Bytes
single_response cert_status =
    let cert_id = sequence (
      algid_sha1
      ++ octet_string (filled 20 0xaa)
      ++ octet_string (filled 20 0xbb)
      ++ integer (1 ∷ [])) in
    sequence (cert_id ++ cert_status ++ tlv 0x18 the_date)

abbrev response_data : Bytes → Bytes
response_data cert_status =
    let responder_id = tlv 0xa2 (octet_string (filled 20 0xcc)) in
    let produced_at = tlv 0x18 the_date in
    sequence (responder_id ++ produced_at ++ sequence (single_response cert_status))

abbrev synth_response : Bytes → Bytes
synth_response cert_status =
    let signature = tlv 3 (0 ∷ 0xde ∷ 0xad ∷ []) in
    let basic = sequence (response_data cert_status ++ algid_sha1 ++ signature) in
    let oid_basic = tlv 6 (0x2b ∷ 6 ∷ 1 ∷ 5 ∷ 5 ∷ 7 ∷ 0x30 ∷ 1 ∷ 1 ∷ []) in
    let response_bytes = tlv 0xa0 (sequence (oid_basic ++ octet_string basic)) in
    sequence (tlv 0x0a (0 ∷ []) ++ response_bytes)

-- `matches!(r, Ok(CertStatus::..))`.
abbrev same_status : CertStatus → CertStatus → Bool
same_status good good = true
same_status revoked revoked = true
same_status unknown unknown = true
same_status responder_error responder_error = true
same_status _ _ = false

abbrev is_ok_with : CertStatus → Result CertStatus → Bool
is_ok_with status r = unwrapped_ok r (same_status status)

abbrev parses_good : Bool
parses_good = is_ok_with good (parse_status (synth_response (0x80 ∷ 0 ∷ [])))

abbrev parses_revoked : Bool
parses_revoked = is_ok_with revoked (parse_status (synth_response (tlv 0xa1 (tlv 0x18 the_date))))

abbrev parses_unknown : Bool
parses_unknown = is_ok_with unknown (parse_status (synth_response (0x82 ∷ 0 ∷ [])))

abbrev responder_error_when_status_nonzero : Bool
responder_error_when_status_nonzero =
    is_ok_with responder_error (parse_status (sequence (tlv 0x0a (3 ∷ []))))

abbrev url_parsing : Bool
url_parsing =
    unwrapped_ok (parse_url (codes "http://ocsp.example.com/path")) (λ (_, host, port, path).
      str_eq host (codes "ocsp.example.com") && (port == 80) && str_eq path (codes "/path"))
    && unwrapped_ok (parse_url (codes "http://r3.o.lencr.org")) (λ (_, host, port, path).
      str_eq host (codes "r3.o.lencr.org") && (port == 80) && str_eq path (codes "/"))
    && unwrapped_ok (parse_url (codes "https://ocsp.example.com:8443/x"))
        (λ (_, host, port, _). str_eq host (codes "ocsp.example.com") && (port == 8443))
    && is_err (parse_url (codes "ftp://nope"))

ocsp_tests : All Passes (
    parses_good ∷ parses_revoked ∷ parses_unknown ∷ responder_error_when_status_nonzero
    ∷ url_parsing ∷ [])
unfolding str_eq strip_prefix rsplit_once find_char from_str_radix push_bytes encode_len tlv
    sequence octet_string integer fold_len read_len read_tlv children_loop children status_of_tag
    single_status parse_status parse_rest parse_url
ocsp_tests = (refl, (refl, (refl, (refl, (refl, tt)))))
