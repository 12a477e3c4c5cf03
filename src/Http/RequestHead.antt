-- ===== src/Http/RequestHead.antt =====
-- The bytes that `request` of scanner/http.rs sends, as a server reads them.
use ru_ssl.Prelude.{
  ℕ, ◌+◌, ◌≡◌, refl, sym, ap, ◌∙◌, Bool, false, List, [], ◌∷◌, ◌++◌, Option, none, some, arith,
  length, take, drop, append_assoc, All, All-append, take-append, drop-append_add,
}
use ru_ssl.Text.RoundTrip.{to_string-visible}
use ru_ssl.Text.Utf8.{IsAscii, as_bytes-ascii}
use ru_ssl.Text.{Str, Bytes, codes, trim, trim-none, is_whitespace, to_string, split_crlf}
use ru_ssl.Http.{
  crlf, header_lines, content_length, body_bytes, request_head, request_bytes, find_subsequence,
  read_lines,
}
use ru_ssl.Http.HeaderBlock.{
  IsPlain, to_string-IsPlain, IsField, written-IsField, field_line, field_lines, join_lines, blank,
  read_lines-field_lines, find-join_lines, split_crlf-join_lines, join_lines-All, IsPlain-line,
  field_lines-IsLine, field_lines-IsAscii,
}

abbrev pub request_line : Str → Str → Str
request_line method path = method ++ (codes " " ++ (path ++ codes " HTTP/1.1"))

abbrev pub length_fields : Option Bytes → List (Str × Str)
length_fields none = []
length_fields (some b) = (codes "Content-Length", to_string (length b)) ∷ []

-- The fields of a request, with the length of the body if there is one.
abbrev pub sent_fields : Str → List (Str × Str) → Option Bytes → List (Str × Str)
sent_fields host extra_headers body =
    (codes "Host", host)
    ∷ (codes "User-Agent", codes "russl/0.1")
    ∷ (codes "Connection", codes "close")
    ∷ (extra_headers ++ length_fields body)

header_lines-append :
    (hs : List (Str × Str)) (body : Option Bytes)
    → header_lines (hs ++ length_fields body) ++ crlf
      ≡ header_lines hs ++ (content_length body ++ crlf)
unfolding header_lines
header_lines-append [] none = refl
header_lines-append [] (some b) = refl
header_lines-append ((k, v) ∷ hs) body = simp (append_assoc, header_lines-append hs body)

header_lines-join_lines :
    (line : Str) (hs : List (Str × Str))
    → line ++ (crlf ++ (header_lines hs ++ crlf))
      ≡ join_lines line (field_lines hs) ++ (crlf ++ crlf)
unfolding header_lines join_lines
header_lines-join_lines line [] = refl
header_lines-join_lines line ((k, v) ∷ hs) =
    let field = field_line (k, v) in
    let rest = header_lines hs in
    let regroup : (k ++ (codes ": " ++ (v ++ (crlf ++ rest)))) ++ crlf
        ≡ field ++ (crlf ++ (rest ++ crlf)) =
      simp append_assoc in
    ap (λ (t : Str). line ++ (crlf ++ t)) (regroup ∙ header_lines-join_lines field hs)
    ∙ sym (append_assoc line (crlf ++ join_lines field (field_lines hs)) (crlf ++ crlf))

-- What `request` writes before the body is a request line, the fields and a blank line.
request_head-join_lines :
    (method path host : Str) (extra_headers : List (Str × Str)) (body : Option Bytes)
    → request_head method path host extra_headers body
      ≡ join_lines (request_line method path) (field_lines (sent_fields host extra_headers body))
        ++ (crlf ++ crlf)
unfolding request_head header_lines
request_head-join_lines method path host extra_headers body =
    let fields = sent_fields host extra_headers body in
    let line = request_line method path in
    let regroup : request_head method path host extra_headers body
        ≡ line ++ (crlf ++ (header_lines fields ++ crlf)) =
      simp (append_assoc, header_lines-append extra_headers body) in
    regroup ∙ header_lines-join_lines line fields

-- A request as a server reads it: the request line, the fields and what follows the blank line.
abbrev pub Request : Type 0
Request = Str × (List (Str × Str) × Bytes)

abbrev read_parts : List Str → Bytes → Option Request
read_parts [] body = none
read_parts (line ∷ lines) body = some (line, ((read_lines lines ([], false)).0, body))

abbrev read_at : Bytes → Option ℕ → Option Request
read_at raw none = none
read_at raw (some split) = read_parts (split_crlf (take split raw)) (drop (split + 4) raw)

abbrev pub read_request : Bytes → Option Request
read_request raw = read_at raw (find_subsequence raw blank)

length-IsField : (n : ℕ) → IsField (codes "Content-Length", to_string n)
length-IsField n = record {
  name_plain = omega arith;
  value_plain = to_string-IsPlain (n);
  name_lacks_colon = omega arith;
  name_trimmed = unfold trim in unfold is_whitespace in refl;
  value_trimmed = trim-none (to_string n) (to_string-visible n);
}

length_fields-IsField : (body : Option Bytes) → All IsField (length_fields body)
length_fields-IsField none = tt
length_fields-IsField (some b) = (length-IsField (length b), tt)

agent-IsField : IsField (codes "User-Agent", codes "russl/0.1")
unfolding trim is_whitespace
agent-IsField =
    written-IsField (codes "User-Agent") (codes "russl/0.1") (omega arith) (omega arith)
      (omega arith) refl refl

close-IsField : IsField (codes "Connection", codes "close")
unfolding trim is_whitespace
close-IsField =
    written-IsField (codes "Connection") (codes "close") (omega arith) (omega arith) (omega arith)
      refl refl

pub sent_fields-IsField :
    (host : Str) (extra_headers : List (Str × Str)) (body : Option Bytes)
    → IsField (codes "Host", host)
    → All IsField extra_headers
    → All IsField (sent_fields host extra_headers body)
sent_fields-IsField host extra_headers body h hs = (
  h,
  (
    agent-IsField,
    (
      close-IsField,
      All-append IsField extra_headers (length_fields body) hs (length_fields-IsField body),
    ),
  ),
)

pub request_line-IsPlain :
    (method path : Str) → IsPlain method → IsPlain path → IsPlain (request_line method path)
request_line-IsPlain method path hm hp =
    All-append _ method (codes " " ++ (path ++ codes " HTTP/1.1")) hm
      ((omega arith, omega arith), All-append _ path (codes " HTTP/1.1") hp (omega arith))

pub request_bytes-join_lines :
    (method path host : Str) (extra_headers : List (Str × Str)) (body : Option Bytes)
    → let head =
        join_lines (request_line method path) (field_lines (sent_fields host extra_headers body)) in
      All IsAscii head
      → request_bytes method path host extra_headers body
        ≡ head ++ (crlf ++ (crlf ++ body_bytes body))
unfolding request_bytes
request_bytes-join_lines method path host extra_headers body ascii =
    let head =
      join_lines (request_line method path) (field_lines (sent_fields host extra_headers body)) in
    rw
      (
        request_head-join_lines method path host extra_headers body,
        as_bytes-ascii (head ++ (crlf ++ crlf))
            (All-append IsAscii head (crlf ++ crlf) ascii (omega arith)),
      )
      (append_assoc head (crlf ++ crlf) (body_bytes body))

-- A request line, fields and a body, laid out as a request, are read back.
pub read_request-join_lines :
    (line : Str) (fields : List (Str × Str)) (body : Bytes)
    → IsPlain line
    → All IsField fields
    → read_request (join_lines line (field_lines fields) ++ (crlf ++ (crlf ++ body)))
      ≡ some (line, (fields, body))
unfolding blank
read_request-join_lines line fields body plain well_formed =
    let head = join_lines line (field_lines fields) in
    let lacks = (IsPlain-line line plain).1 in
    let lines = field_lines-IsLine fields well_formed in
    rw
      (
        find-join_lines line (field_lines fields) body lacks lines,
        take-append head (crlf ++ (crlf ++ body)),
        drop-append_add head (crlf ++ (crlf ++ body)) 4,
        split_crlf-join_lines line (field_lines fields) lacks lines,
      )
      (ap (λ (hs : List (Str × Str)). some (line, (hs, body)))
        (ap (λ (t : List (Str × Str) × Bool). t.0)
          (read_lines-field_lines fields [] false well_formed)))

pub head-IsAscii :
    (line : Str) (fields : List (Str × Str))
    → IsPlain line
    → All IsField fields
    → All IsAscii (join_lines line (field_lines fields))
head-IsAscii line fields plain well_formed =
    join_lines-All IsAscii line (field_lines fields) (omega arith, omega arith)
      (IsPlain-line line plain).0 (field_lines-IsAscii fields well_formed)

-- A server that splits a request at its first blank line reads, for a plain method and path, a
-- well-formed host and well-formed extra fields, the request line, the fields in order, with the
-- length of the body if there is one, and the body, byte for byte.
pub read_request-request_bytes :
    (method path host : Str) (extra_headers : List (Str × Str)) (body : Option Bytes)
    → IsPlain method
    → IsPlain path
    → IsField (codes "Host", host)
    → All IsField extra_headers
    → read_request (request_bytes method path host extra_headers body)
      ≡ some (request_line method path, (sent_fields host extra_headers body, body_bytes body))
read_request-request_bytes method path host extra_headers body hm hp hh hs =
    let line = request_line method path in
    let fields = sent_fields host extra_headers body in
    let plain = request_line-IsPlain method path hm hp in
    let well_formed = sent_fields-IsField host extra_headers body hh hs in
    rw
      (request_bytes-join_lines method path host extra_headers body
        (head-IsAscii line fields plain well_formed))
      (read_request-join_lines line fields (body_bytes body) plain well_formed)
