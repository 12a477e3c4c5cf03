-- ===== src/Ocsp/Responder.antt =====
-- The revocation check against a responder that reads its requests: what `check` of
-- scanner/ocsp.rs asks, what the responder has on its list, and what `check` then reports.
use ru_ssl.Prelude.{
  ℕ, ◌+◌, ◌≡◌, ◌≢◌, refl, ap, ◌∙◌, false, List, [], ◌∷◌, Option, none, some, arith, All,
}
use ru_ssl.Text.{Str, Bytes, AllBytes, codes, Lacks, trim, is_whitespace}
use ru_ssl.Error.{ok}
use ru_ssl.Async.{done}
use ru_ssl.X509.{Certificate, Parsed, parsed}
use ru_ssl.Net.{Net}
use ru_ssl.Http.{Scheme, request_bytes}
use ru_ssl.Http.Request.{request}
use ru_ssl.Http.Answers.{Answers, InTime, request-Answers, with_timeout-InTime}
use ru_ssl.Http.HeaderBlock.{IsPlain, IsField, written-IsField, any_chunked, print_response}
use ru_ssl.Http.RequestHead.{Request, read_request, read_request-request_bytes}
use ru_ssl.Http.Response.{response, parse_response-print_response}
use ru_ssl.Der.{Tlv, tlv, children}
use ru_ssl.Der.Integer.{unsigned}
use ru_ssl.Der.RoundTrip.{FitsReader}
use ru_ssl.Der.Children.{concat_tlvs}
use ru_ssl.Ocsp.{ocsp_url, build_request, status_of_tag}
use ru_ssl.Ocsp.Status.{
  Response, Element, encode_response, response_content, parse_status-encode_response,
}
use ru_ssl.Ocsp.Request.{descend, Identifies, build_request-Identifies}
use ru_ssl.Ocsp.Urls.{print_url, port_of, IsPort, IsUrlPath, requested_path, parse_url-print_url}
use ru_ssl.Ocsp.Check.{status_text, request_headers, read_answer, ask, query, check}

-- The certificate that a request is about: the digests of its issuer's name and key, and its
-- serial number.
abbrev pub CertId : Type 0
CertId = Bytes × (Bytes × ℕ)

abbrev id_of_parts : List Tlv → Option CertId
id_of_parts (algorithm ∷ name_hash ∷ key_hash ∷ serial ∷ []) =
    some (name_hash.content, (key_hash.content, unsigned serial.content))
id_of_parts _ = none

abbrev id_of_content : Option Bytes → Option CertId
id_of_content none = none
id_of_content (some id) = id_of_parts (children id)

-- What stands in the body of a request.
abbrev pub requested_id : Bytes → Option CertId
requested_id body = id_of_content (descend 5 body)

abbrev pub id_of : (Bytes → Bytes) → Certificate → Certificate → CertId
id_of sha1 leaf issuer =
    (sha1 leaf.issuer_raw, (sha1 issuer.public_key_bits, unsigned leaf.raw_serial))

Identifies-requested_id :
    (body name_hash key_hash raw_serial : Bytes)
    → Identifies body name_hash key_hash raw_serial
    → requested_id body ≡ some (name_hash, (key_hash, unsigned raw_serial))
Identifies-requested_id body name_hash key_hash raw_serial (id, serial, found, parts, _, value) =
    rw (found, parts, value) refl

-- A responder: the response on its list for each certificate, and the header fields that it sends.
-- Its responses are laid out as `parse_status` can read them, and no field announces chunks.
pub record Responder : Type 0 where
  pub list : CertId → Response
  pub fields : List (Str × Str)
  pub list_fits : (id : CertId) → FitsReader (response_content (list id))
  pub list_plain : (id : CertId) → All (λ (e : Element). e.0 ≢ 0x30) (list id).before_responses
  pub fields_well : All IsField fields
  pub not_chunked : any_chunked fields ≡ false

abbrev answer : Responder → Option CertId → Bytes
answer r none = tlv 0x30 (concat_tlvs ((0x0a, 1 ∷ []) ∷ []))
answer r (some id) = encode_response (r.list id)

abbrev answer_request : Responder → Option Request → Bytes
answer_request r none = print_response 400 (codes "Bad Request") r.fields []
answer_request r (some (line, (headers, body))) =
    print_response 200 (codes "OK") r.fields (answer r (requested_id body))

-- What the responder sends back for these bytes.
abbrev pub serve : Responder → Bytes → Bytes
serve r raw = answer_request r (read_request raw)

-- Where a certificate says that its responder is: parts that make up a URL and a request.
pub record Address : Type 0 where
  pub scheme : Scheme
  pub host : Str
  pub port : Option ℕ
  pub path : Str
  pub host_field : IsField (codes "Host", host)
  pub host_lacks_colon : Lacks b':' host
  pub host_lacks_slash : Lacks b'/' host
  pub port_fits : IsPort port
  pub path_is : IsUrlPath path
  pub path_plain : IsPlain (requested_path path)

abbrev pub url_of : Address → Str
url_of a = print_url a.scheme a.host a.port a.path

-- On this network the responder is there, and answers each request.
abbrev pub Reachable : Net → Responder → Address → Type 0
Reachable net r a = Answers net a.scheme a.host (port_of a.scheme a.port) (serve r)

pub request_headers-IsField : All IsField request_headers
unfolding trim is_whitespace
request_headers-IsField = (
  written-IsField (codes "Content-Type") (codes "application/ocsp-request") (omega arith)
      (omega arith) (omega arith) refl refl,
  (
    written-IsField (codes "Accept") (codes "application/ocsp-response") (omega arith) (omega arith)
        (omega arith) refl refl,
    tt,
  ),
)

module _ (net : Net) (r : Responder) (a : Address) (there : Reachable net r a) where
  open r use {list, fields, list_fits, list_plain, fields_well, not_chunked}
  open a use {
    scheme, host, port, path, host_field, host_lacks_colon, host_lacks_slash, port_fits, path_is,
    path_plain,
  }
  open there use {connects, answers}

  module _ (sha1 : Bytes → Bytes) (leaf issuer : Certificate)
      (serial_bytes : AllBytes leaf.raw_serial)
      (fits : FitsReader (build_request sha1 leaf issuer)) where
    abbrev listed : Response
    listed = list (id_of sha1 leaf issuer)

    abbrev post : Bytes
    post = build_request sha1 leaf issuer

    serve-request_bytes :
        serve r
          (request_bytes (codes "POST") (requested_path path) host request_headers (some post))
        ≡ print_response 200 (codes "OK") fields (encode_response listed)
    serve-request_bytes =
        rw
          (
            read_request-request_bytes (codes "POST") (requested_path path) host request_headers
                (some post) (omega arith) path_plain host_field request_headers-IsField,
            Identifies-requested_id post (sha1 leaf.issuer_raw) (sha1 issuer.public_key_bits)
                leaf.raw_serial (build_request-Identifies sha1 leaf issuer serial_bytes fits),
          )
          refl

    request_answered :
        request net scheme host
          (port_of scheme port)
          (codes "POST")
          (requested_path path)
          request_headers
          (some post)
        ≡ done (connects + (answers + 0)) (ok (response 200 fields (encode_response listed)))
    request_answered =
        request-Answers there (codes "POST") (requested_path path) request_headers (some post)
        ∙ rw
            (
              serve-request_bytes,
              parse_response-print_response 200 (codes "OK") fields (encode_response listed)
                  (omega arith) (omega arith) fields_well,
              not_chunked,
            )
            refl

    reports : Str
    reports = status_text (status_of_tag listed.cert_status.0)

    listed_read : read_answer (response 200 fields (encode_response listed)) ≡ ok reports
    unfolding read_answer reports
    listed_read =
        let id = id_of sha1 leaf issuer in
        rw (parse_status-encode_response listed (list_fits id) (list_plain id)) refl

    module _ (secs : ℕ) (in_time : InTime there secs) (parse : Bytes → Parsed) where
      ask-listed :
          ask net parse sha1 secs leaf issuer (some (url_of a))
          ≡ done (connects + answers) (ok reports)
      unfolding ask
      ask-listed =
          rw
            (
              parse_url-print_url scheme host path port host_lacks_colon host_lacks_slash port_fits
                  path_is,
              request_answered,
              with_timeout-InTime there secs (ok (response 200 fields (encode_response listed)))
                  in_time,
              listed_read,
            )
            (ap (λ (t : ℕ). done t (ok reports)) (omega arith))

      -- For a responder that reads each request, looks the certificate that it identifies up in
      -- its list, and answers over plain HTTP or HTTPS with well-formed fields, no chunked coding
      -- and a well-formed response for it: under no limit, or if connecting and the answer take
      -- no longer than it, `check` of a chain of a leaf and an issuer that parse, where the leaf
      -- names the responder by a well-formed URL, its serial number is made of bytes and the
      -- request is shorter than 2^32 bytes, completes when the responder has answered, with the
      -- text of the status that the list has for the digests of the issuer's name and key and the
      -- value of the leaf's serial number.
      pub check-listed :
          (first second : Bytes) (rest : List Bytes)
          → parse first ≡ parsed leaf
          → parse second ≡ parsed issuer
          → ocsp_url leaf.extensions ≡ some (url_of a)
          → check net parse sha1 secs (first ∷ second ∷ rest)
            ≡ done (connects + answers) (ok (status_text (status_of_tag listed.cert_status.0)))
      unfolding check query reports
      check-listed first second rest leaf_read issuer_read names =
          rw (leaf_read, issuer_read, names, ask-listed)
            (ap (λ (t : ℕ). done t (ok reports)) (omega arith))
