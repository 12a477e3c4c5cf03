-- ===== src/Http/Injection.antt =====
-- The request of scanner/http.rs for a path with line ends in it, as a server reads it.
use ru_ssl.Prelude.{◌≡◌, List, ◌∷◌, ◌++◌, Option, some, append_assoc, All}
use ru_ssl.Text.{Str, Bytes, codes}
use ru_ssl.Http.{crlf, body_bytes, request_bytes}
use ru_ssl.Http.HeaderBlock.{IsPlain, IsField, field_line, field_lines, join_lines}
use ru_ssl.Http.RequestHead.{
  request_line, sent_fields, read_request, request_line-IsPlain, sent_fields-IsField, head-IsAscii,
  request_bytes-join_lines, read_request-join_lines,
}

-- A path with the rest of a request line, a header line and the start of another in it.
abbrev pub smuggled : Str → Str × Str → Str × Str → Str
smuggled path h last =
    path ++ (codes " HTTP/1.1" ++ (crlf ++ (field_line h ++ (crlf ++ field_line last))))

-- The last header that it brings in: what `request` writes behind the path ends its value.
abbrev pub completed : Str × Str → Str × Str
completed (k, v) = (k, v ++ codes " HTTP/1.1")

join_lines-smuggled :
    (method path : Str) (h last : Str × Str) (first : Str × Str) (rest : List (Str × Str))
    → join_lines (request_line method (smuggled path h last)) (field_lines (first ∷ rest))
      ≡ join_lines (request_line method path) (field_lines (h ∷ completed last ∷ first ∷ rest))
unfolding join_lines
join_lines-smuggled method path h (k, v) first rest = simp append_assoc

-- A server reads the request for the path alone, with the two headers in front of those of the code.
pub read_request-smuggled :
    (method path host : Str) (h last : Str × Str) (extra_headers : List (Str × Str))
    (body : Option Bytes)
    → IsPlain method
    → IsPlain path
    → IsField h
    → IsField (completed last)
    → IsField (codes "Host", host)
    → All IsField extra_headers
    → read_request (request_bytes method (smuggled path h last) host extra_headers body)
      ≡ some (
        request_line method path,
        (h ∷ completed last ∷ sent_fields host extra_headers body, body_bytes body),
      )
read_request-smuggled method path host h last extra_headers body hm hp hh hl host_field hs =
    let line = request_line method path in
    let sent = sent_fields host extra_headers body in
    let fields = h ∷ completed last ∷ sent in
    let plain = request_line-IsPlain method path hm hp in
    let well_formed : All IsField fields =
      (hh, (hl, sent_fields-IsField host extra_headers body host_field hs)) in
    rw
      (
        request_bytes-join_lines method (smuggled path h last) host extra_headers body (
            rw (join_lines-smuggled method path h last)
              (head-IsAscii line fields plain well_formed)),
        join_lines-smuggled method path h last,
      )
      (read_request-join_lines line fields (body_bytes body) plain well_formed)
