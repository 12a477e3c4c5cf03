-- ===== src/Ocsp/Injection.antt =====
-- What a responder URL with line ends in it does to the request of scanner/ocsp.rs: `parse_url` takes
-- the path from the certificate as it is, and `request` of scanner/http.rs writes it as it is.
use ru_ssl.Prelude.{ℕ, ◌≡◌, refl, ◌∷◌, Option, some, arith}
use ru_ssl.Text.{Str, Bytes, codes, Lacks}
use ru_ssl.Error.{ok}
use ru_ssl.Http.{Scheme, request_bytes}
use ru_ssl.Http.HeaderBlock.{IsPlain, IsField}
use ru_ssl.Http.RequestHead.{request_line, sent_fields, read_request}
use ru_ssl.Http.Injection.{smuggled, completed, read_request-smuggled}
use ru_ssl.Ocsp.{parse_url}
use ru_ssl.Ocsp.Check.{request_headers}
use ru_ssl.Ocsp.Urls.{print_url, port_of, IsPort, parse_url-print_url}
use ru_ssl.Ocsp.Responder.{request_headers-IsField}

-- For a responder URL with a plain host, an optional port and a path that holds a line end, a
-- header line of its own and the start of another, `parse_url` accepts the path as it stands, and
-- a server reads the request for it as one for the path before the line end, with those two
-- headers in front of the ones that the code sends.
pub parse_url-smuggled :
    (scheme : Scheme) (host p : Str) (port : Option ℕ) (h last : Str × Str) (post : Bytes)
    → Lacks b':' host
    → Lacks b'/' host
    → IsPort port
    → IsField (codes "Host", host)
    → IsPlain p
    → IsField h
    → IsField (completed last)
    → let path = smuggled (b'/' ∷ p) h last in
      (parse_url (print_url scheme host port path) ≡ ok (scheme, host, port_of scheme port, path))
      × (read_request (request_bytes (codes "POST") path host request_headers (some post))
          ≡ some (
            request_line (codes "POST") (b'/' ∷ p),
            (h ∷ completed last ∷ sent_fields host request_headers (some post), post),
          ))
parse_url-smuggled scheme host p port h last post no_colon no_slash fits hh hp hf hl =
    let path = smuggled (b'/' ∷ p) h last in
    (
      parse_url-print_url scheme host path port no_colon no_slash fits refl,
      read_request-smuggled (codes "POST") (b'/' ∷ p) host h last request_headers (some post)
          (omega arith) ((omega arith, omega arith), hp) hf hl hh request_headers-IsField,
    )
