-- ===== src/Tests/Responder.antt =====
-- A responder that has one certificate on its list of revoked ones, and the requests that it reads.
use ru_ssl.Prelude.{
  ℕ, ◌+◌, ◌≡◌, inl, inr, refl, Bool-cases, [], ◌∷◌, none, some, arith, ◌==◌, if◌then◌else◌, true,
  false,
}
use ru_ssl.Text.{codes, to_string, trim, is_whitespace, Bytes}
use ru_ssl.Error.{ok}
use ru_ssl.Async.{Future, done, with_timeout}
use ru_ssl.Net.{Net}
use ru_ssl.Tests.Demo.{
  chain_net, demo_target, empty_array, last_waits, presented, hanging-IsSemaphore,
}
use ru_ssl.Tests.Revocation.{revoked_response, demo_leaf, demo_sha1, demo_parse, leaf_responder}
use mathlib.Core.List.{Memᴰ}
use ru_ssl.Prelude.Int.{pos}
use ru_ssl.Target.{ScanOpts}
use ru_ssl.Cert.Verifier.{captured, verify, verify_server_cert}
use ru_ssl.Cert.Inspect.{capture_chain}
use ru_ssl.Scan.{ScanResult, run_scan}
use ru_ssl.Output.Pretty.Rows.{cert_rows}
use ru_ssl.Output.Pretty.Listed.{run_scan-listed}
use ru_ssl.Http.{Scheme, request_bytes}
use ru_ssl.Http.Request.{send}
use ru_ssl.Http.HeaderBlock.{IsField, written-IsField}
use ru_ssl.Http.Injection.{smuggled}
use ru_ssl.Ocsp.Injection.{parse_url-smuggled}
use ru_ssl.Http.RequestHead.{sent_fields, read_request, read_request-request_bytes}
use ru_ssl.Der.{tlv, encode_len, sequence, octet_string, integer}
use ru_ssl.Der.RoundTrip.{FitsReader}
use ru_ssl.Ocsp.{parse_url, build_request, cert_id, status_of_tag}
use ru_ssl.Ocsp.Urls.{print_url}
use ru_ssl.Ocsp.Check.{check, request_headers}
use ru_ssl.Ocsp.Responder.{CertId, Responder, Address, Reachable, serve, check-listed}
use ru_ssl.Ocsp.Status.{
  Response, Element, response_content, top_elements, bytes_elements, basic_elements, data_elements,
  responses_elements, single_elements,
}

demo_host : IsField (codes "Host", codes "ocsp.demo")
unfolding trim is_whitespace
demo_host =
    written-IsField (codes "Host") (codes "ocsp.demo") (omega arith) (omega arith) (omega arith)
      refl refl

post_read :
    read_request
      (request_bytes (codes "POST") (codes "/x") (codes "ocsp.demo") [] (some (1 ∷ 13 ∷ 10 ∷ [])))
    ≡ some (
      codes "POST /x HTTP/1.1",
      (
        (codes "Host", codes "ocsp.demo")
            ∷ (codes "User-Agent", codes "russl/0.1")
            ∷ (codes "Connection", codes "close")
            ∷ (codes "Content-Length", codes "3")
            ∷ [],
        1 ∷ 13 ∷ 10 ∷ [],
      ),
    )
unfolding to_string
post_read =
    read_request-request_bytes (codes "POST") (codes "/x") (codes "ocsp.demo") []
      (some (1 ∷ 13 ∷ 10 ∷ [])) (omega arith) (omega arith) demo_host tt

-- The status of a serial number.
abbrev status_of : ℕ → Element
status_of serial = if serial == 0x8102 then (0xa1, []) else (0x80, [])

abbrev demo_list : CertId → Response
demo_list id = record revoked_response { cert_status = status_of id.1.1 }

demo_list-fits : (id : CertId) → FitsReader (response_content (demo_list id))
unfolding response_content top_elements bytes_elements basic_elements data_elements
    responses_elements single_elements tlv encode_len
demo_list-fits id = elim (Bool-cases (id.1.1 == 0x8102)) [
  | inl listed ↦ rw listed (omega arith)
  | inr other ↦ rw other (omega arith)
]

abbrev demo_responder : Responder
demo_responder = record {
  list = demo_list;
  fields = [];
  list_fits = demo_list-fits;
  list_plain = λ id. (omega arith, (omega arith, tt));
  fields_well = tt;
  not_chunked = refl;
}

abbrev demo_address : Address
demo_address = record {
  scheme = Scheme.http;
  host = codes "ocsp.demo";
  port = none;
  path = codes "/x";
  host_field = demo_host;
  host_lacks_colon = omega arith;
  host_lacks_slash = omega arith;
  port_fits = tt;
  path_is = refl;
  path_plain = (omega arith, omega arith);
}

-- A network on which the responder answers.
abbrev answers : Unit {0} → Bytes → Future Bytes
answers tcp req = done 30 (ok (serve demo_responder req))

abbrev list_net : Net
list_net = record chain_net { exchange = answers }

abbrev there : Reachable list_net demo_responder demo_address
unfolding send
there = record { tcp = tt; connects = 5; answers = 30; connected = refl; answered = λ req. refl }

leaf_listed :
    check list_net demo_parse demo_sha1 3 ((1 ∷ []) ∷ (2 ∷ []) ∷ [])
    ≡ done (5 + 30) (ok (codes "Revoked"))
unfolding build_request cert_id sequence octet_string integer tlv encode_len status_of_tag print_url
    there
leaf_listed =
    check-listed list_net demo_responder demo_address there demo_sha1 demo_leaf demo_leaf
      (omega arith, (omega arith, tt)) (omega arith) 3 (inr (omega arith)) demo_parse (1 ∷ [])
      (2 ∷ []) [] refl refl leaf_responder

smuggled_header :
    let path = smuggled (codes "/x") (codes "Evil", codes "1") (codes "Via", codes "me") in
    (parse_url (print_url Scheme.http (codes "ocsp.demo") none path)
      ≡ ok (Scheme.http, codes "ocsp.demo", 80, path))
    × (read_request
          (request_bytes (codes "POST") path (codes "ocsp.demo") request_headers (some (1 ∷ [])))
        ≡ some (
          codes "POST /x HTTP/1.1",
          (
            (codes "Evil", codes "1")
                ∷ (codes "Via", codes "me HTTP/1.1")
                ∷ sent_fields (codes "ocsp.demo") request_headers (some (1 ∷ [])),
            1 ∷ [],
          ),
        ))
unfolding trim is_whitespace
smuggled_header =
    parse_url-smuggled Scheme.http (codes "ocsp.demo") (codes "x") none (codes "Evil", codes "1")
      (codes "Via", codes "me") (1 ∷ []) (omega arith) (omega arith) tt demo_host
      (omega arith, omega arith)
      (written-IsField (codes "Evil") (codes "1") (omega arith) (omega arith) (omega arith) refl
        refl)
      (written-IsField (codes "Via") (codes "me HTTP/1.1") (omega arith) (omega arith) (omega arith)
        refl refl)

abbrev all_checks : ScanOpts
all_checks = record {
  enumerate_ciphers = true;
  check_vulns = true;
  check_ocsp = true;
  check_ct = true;
  check_connection = true;
  timeout_secs = 10;
}

revoked_printed :
    (t : ℕ) × (s : ScanResult) × (run_scan list_net demo_parse demo_sha1 empty_array
        (pos 1750000000)
        (λ host. false)
        last_waits
        demo_target
        all_checks
      ≡ done t (ok s))
    × Memᴰ (codes "OCSP Status" ∷ codes "Revoked" ∷ []) (cert_rows s.certificate)
unfolding build_request cert_id sequence octet_string integer tlv encode_len status_of_tag print_url
    there capture_chain with_timeout captured verify verify_server_cert
revoked_printed =
    run_scan-listed list_net demo_responder demo_address there demo_parse demo_sha1 empty_array
      (pos 1750000000) (λ host. false) last_waits demo_target all_checks demo_leaf demo_leaf
      (1 ∷ []) (2 ∷ []) [] 12 20 (omega arith) refl
      (hanging-IsSemaphore (λ name tcp. done 7 (ok presented)) answers) (omega arith) refl refl refl
      leaf_responder (omega arith, (omega arith, tt)) (omega arith) (omega arith)
