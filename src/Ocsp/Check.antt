-- ===== src/Ocsp/Check.antt =====
-- `query` and `check`: the whole revocation check, from the captured chain to the status line.
use ru_ssl.Prelude.{ℕ, not, List, [], ◌∷◌, ◌++◌, Option, none, some, ◌==◌, if◌then◌else◌}
use ru_ssl.Text.{Str, Bytes, codes, to_string}
use ru_ssl.Error.{ScanError, Result, ok, err, display}
use ru_ssl.Async.{Future, now, settle, ◌>>=◌, with_timeout}
use ru_ssl.X509.{Certificate, Parsed, parsed, refused}
use ru_ssl.Net.{Net}
use ru_ssl.Http.{HttpResponse}
use ru_ssl.Http.Request.{request}
use ru_ssl.Ocsp.{
  CertStatus, good, revoked, unknown, responder_error, parse_status, parse_url, ocsp_url,
  build_request,
}

-- `.map_err(|e| ScanError::CertParse(e.to_string()))`.
abbrev pub certificate_or_error : Parsed → Result Certificate
certificate_or_error (parsed c) = ok c
certificate_or_error (refused e) = err (ScanError.cert_parse e)

abbrev pub status_text : CertStatus → Str
status_text good = codes "Good"
status_text revoked = codes "Revoked"
status_text unknown = codes "Unknown"
status_text responder_error = codes "Responder error"

abbrev pub request_headers : List (Str × Str)
request_headers =
    (codes "Content-Type", codes "application/ocsp-request")
    ∷ (codes "Accept", codes "application/ocsp-response")
    ∷ []

abbrev pub answer_text : Result CertStatus → Result Str
answer_text (ok s) = ok (status_text s)
answer_text (err e) = err e

-- What the responder's answer says.
unfoldable pub read_answer : HttpResponse → Result Str
read_answer response =
    if not (response.status == 200)
    then ok (codes "Responder returned HTTP " ++ to_string response.status)
    else answer_text (parse_status response.body)

abbrev pub degraded : Result Str → Str
degraded (ok status) = status
degraded (err e) = codes "Check failed: " ++ display e

-- `net`, the certificate parser and the digest are those of other crates.
module _ (net : Net) (parse : Bytes → Parsed) (sha1 : Bytes → Bytes) (timeout_secs : ℕ) where
  unfoldable pub ask : Certificate → Certificate → Option Str → Future Str
  ask leaf issuer none = now (ok (codes "No OCSP responder in certificate"))
  ask leaf issuer (some url) = do
    let req = build_request sha1 leaf issuer
    (scheme, host, port, path) ← now (parse_url url)
    response ←
        with_timeout timeout_secs
          (request net scheme host port (codes "POST") path request_headers (some req))
    now (read_answer response)

  unfoldable pub query : List Bytes → Future Str
  query [] = now (ok (codes "No issuer certificate in chain"))
  query (_ ∷ []) = now (ok (codes "No issuer certificate in chain"))
  query (first ∷ second ∷ _) = do
    leaf ← now (certificate_or_error (parse first))
    issuer ← now (certificate_or_error (parse second))
    ask leaf issuer (ocsp_url leaf.extensions)

  -- Failures degrade to a message: the future has a text, never an error.
  unfoldable pub check : List Bytes → Future Str
  check certs = do r ← settle (query certs); now (ok (degraded r))
