-- ===== src/Tests/Revocation.antt =====
-- The theorems on OCSP at concrete inputs: small responses, the URLs of responders, and scans with
-- a responder that answers or is silent.
use ru_ssl.Net.{Net}
use ru_ssl.Async.{with_timeout, done}
use ru_ssl.Ocsp.{
  ocsp_url, first_responder, status_of_tag, parse_status, parse_url, build_request, cert_id,
}
use ru_ssl.Prelude.{List, Option, ℕ, ◌*◌, ◌≤◌, ◌≡◌, refl, [], ◌∷◌, none, some, arith}
use ru_ssl.Prelude.Int.{pos}
use ru_ssl.Text.{Str, Bytes, codes, str_eq}
use ru_ssl.Error.{ok}
use ru_ssl.Tests.Demo.{quiet_net, chain_net}
use ru_ssl.X509.{Certificate, Parsed, parsed, uri, authority_info_access}
use ru_ssl.Http.{Scheme, HttpResponse}
use ru_ssl.Der.{tlv, encode_len, sequence, octet_string, integer}
use ru_ssl.Der.RoundTrip.{FitsReader}
use ru_ssl.Ocsp.Status.{
  Response, encode_response, response_content, top_elements, bytes_elements, basic_elements,
  data_elements, responses_elements, single_elements, parse_status-encode_response,
}
use ru_ssl.Ocsp.Request.{Identifies, build_request-Identifies}
use ru_ssl.Ocsp.Urls.{print_url, parse_url-print_url}
use ru_ssl.Ocsp.Check.{request_headers, read_answer, ask, query, check}
use ru_ssl.Ocsp.Soundness.{Vouched, check-Vouched}
use ru_ssl.Http.Request.{send, request}
use ru_ssl.Http.HeaderBlock.{print_response}
use ru_ssl.Http.Response.{parse_response-print_response}
use ru_ssl.Ocsp.Advisory.{check_total}

abbrev pub revoked_response : Response
revoked_response = record {
  top_rest = [];
  response_type = (0x06, 1 ∷ []);
  bytes_rest = [];
  basic_rest = (0x03, 0 ∷ []) ∷ [];
  before_responses = (0xa2, 7 ∷ []) ∷ (0x18, 9 ∷ []) ∷ [];
  after_responses = [];
  more_singles = [];
  certificate = (0x30, 5 ∷ []);
  cert_status = (0xa1, []);
  single_rest = [];
}

revoked_read : parse_status (encode_response revoked_response) ≡ ok (status_of_tag 0xa1)
unfolding response_content top_elements bytes_elements basic_elements data_elements
    responses_elements single_elements tlv encode_len
revoked_read =
    parse_status-encode_response revoked_response (omega arith) (omega arith, (omega arith, tt))

abbrev pub demo_leaf : Certificate
demo_leaf = record {
  subject = codes "CN=example.com";
  issuer = codes "CN=Demo CA";
  issuer_raw = 0x30 ∷ 0 ∷ [];
  raw_serial = 0x81 ∷ 0x02 ∷ [];
  not_before = pos 1700000000;
  not_after = pos 1800000000;
  not_before_text = codes "2023";
  not_after_text = codes "2027";
  subject_alternative_name = none;
  key_oid = codes "1.2.840.113549.1.1.1";
  key_size = some 1024;
  public_key_bits = 3 ∷ 4 ∷ [];
  signature_oid = codes "1.2.840.113549.1.1.11";
  extensions =
      authority_info_access (
        record {
          access_method = codes "1.3.6.1.5.5.7.48.1";
          access_location = uri (codes "http://ocsp.demo/x");
        }
        ∷ [])
      ∷ [];
  organizations = [];
}

-- Stands for a digest.
abbrev pub demo_sha1 : Bytes → Bytes
demo_sha1 bytes = 0xaa ∷ bytes

request_read :
    Identifies
      (build_request demo_sha1 demo_leaf demo_leaf)
      (0xaa ∷ 0x30 ∷ 0 ∷ [])
      (0xaa ∷ 3 ∷ 4 ∷ [])
      (0x81 ∷ 0x02 ∷ [])
unfolding build_request cert_id sequence octet_string integer tlv encode_len
request_read =
    build_request-Identifies demo_sha1 demo_leaf demo_leaf (omega arith, (omega arith, tt))
      (omega arith)

url_read :
    parse_url (print_url Scheme.https (codes "ocsp.demo") (some 8080) (codes "/x"))
    ≡ ok (Scheme.https, codes "ocsp.demo", 8080, codes "/x")
url_read =
    parse_url-print_url Scheme.https (codes "ocsp.demo") (codes "/x") (some 8080) (omega arith)
      (omega arith) (omega arith) refl

abbrev good_response : Response
good_response = record revoked_response { cert_status = (0x80, []) }

abbrev good_answer : HttpResponse
good_answer = record { status = 200; headers = []; body = encode_response good_response }

good_fits : FitsReader (response_content good_response)
unfolding response_content top_elements bytes_elements basic_elements data_elements
    responses_elements single_elements tlv encode_len
good_fits = omega arith

abbrev pub demo_parse : Bytes → Parsed
demo_parse bytes = parsed demo_leaf

silent_responder :
    (t : ℕ) × (status : Str) × (check quiet_net demo_parse demo_sha1 3 ((1 ∷ []) ∷ (2 ∷ []) ∷ [])
      ≡ done t (ok status))
    × (t ≤ 3 * 1000)
silent_responder =
    check_total quiet_net demo_parse demo_sha1 3 (omega arith) ((1 ∷ []) ∷ (2 ∷ []) ∷ [])

-- A network on which the responder answers with `good_response`.
abbrev pub responder_net : Net
responder_net = record chain_net {
  exchange =
      λ tcp req. done 30 (ok (print_response 200 (codes "OK") [] (encode_response good_response)));
}

demo_address :
    parse_url (codes "http://ocsp.demo/x") ≡ ok (Scheme.http, codes "ocsp.demo", 80, codes "/x")
demo_address =
    unfold print_url in
    parse_url-print_url Scheme.http (codes "ocsp.demo") (codes "/x") none (omega arith)
      (omega arith) tt refl

responder_answers :
    (headers : List (Str × Str)) (body : Option Bytes)
    → request responder_net Scheme.http
        (codes "ocsp.demo")
        80
        (codes "POST")
        (codes "/x")
        headers
        body
      ≡ done 35 (ok good_answer)
unfolding request send
responder_answers headers body =
    rw
      (parse_response-print_response 200 (codes "OK") [] (encode_response good_response)
        (omega arith) (omega arith) tt)
      refl

pub leaf_responder : ocsp_url demo_leaf.extensions ≡ some (codes "http://ocsp.demo/x")
unfolding ocsp_url first_responder str_eq
leaf_responder = refl

good_read : read_answer good_answer ≡ ok (codes "Good")
unfolding read_answer status_of_tag
good_read =
    rw (parse_status-encode_response good_response good_fits (omega arith, (omega arith, tt))) refl

pub good_check :
    check responder_net demo_parse demo_sha1 3 ((1 ∷ []) ∷ (2 ∷ []) ∷ [])
    ≡ done 35 (ok (codes "Good"))
unfolding check query ask with_timeout
good_check = rw (leaf_responder, demo_address, responder_answers request_headers, good_read) refl

good_chain : Vouched responder_net demo_parse demo_sha1 3 ((1 ∷ []) ∷ (2 ∷ []) ∷ [])
good_chain =
    check-Vouched responder_net demo_parse demo_sha1 3 ((1 ∷ []) ∷ (2 ∷ []) ∷ []) 35 good_check
