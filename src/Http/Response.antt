-- ===== src/Http/Response.antt =====
-- `parse_response` on a response that a server wrote: status, header fields and body.
use ru_ssl.Prelude.{
  or_false, ℕ, ◌≤◌, ◌≡◌, ap, ◌∙◌, false, List, [], ◌∷◌, ◌++◌, some, arith, if◌then◌else◌, length,
  take-append, drop-append_add, All,
}
use ru_ssl.Text.Utf8.{from_utf8_lossy, from_utf8_lossy-ascii, IsAscii}
use ru_ssl.Text.{Str, Bytes, split_crlf, u16_max}
use ru_ssl.Error.{Result, ok, ◌>>=◌}
use ru_ssl.Http.{HttpResponse, crlf, find_subsequence, read_head, parse_response, decode_chunked}
use ru_ssl.Http.StatusLine.{read_status-status_line, status_line-IsPlain}
use ru_ssl.Http.HeaderBlock.{
  IsPlain, field_lines, join_lines, status_line, print_response, any_chunked,
  read_lines-field_lines, blank, find-join_lines, split_crlf-join_lines, join_lines-All,
  IsPlain-line, field_lines-IsLine, field_lines-IsAscii, IsField,
}

-- The body as the transfer coding of the header says.
abbrev pub decode_body : List (Str × Str) → Bytes → Result Bytes
decode_body headers body = if any_chunked headers then decode_chunked body else ok body

abbrev pub response : ℕ → List (Str × Str) → Bytes → HttpResponse
response status headers body = record { status = status; headers = headers; body = body }

read_head-lines :
    (status : ℕ) (reason : Str) (headers : List (Str × Str)) (body : Bytes)
    → status ≤ u16_max
    → All IsField headers
    → read_head (status_line status reason ∷ field_lines headers) body
      ≡ (decode_body headers body >>= λ content. ok (response status headers content))
unfolding read_head
read_head-lines status reason headers body fits fields =
    rw (read_status-status_line status reason fits, read_lines-field_lines headers [] false fields)
      (rw (or_false (any_chunked headers)))

parse_response-head :
    (head body : Bytes)
    → find_subsequence (head ++ (crlf ++ (crlf ++ body))) blank ≡ some (length head)
    → from_utf8_lossy head ≡ head
    → parse_response (head ++ (crlf ++ (crlf ++ body))) ≡ read_head (split_crlf head) body
unfolding parse_response blank
parse_response-head head body found text =
    rw (found, take-append head (crlf ++ (crlf ++ body)), text)
      (ap (read_head (split_crlf head)) (drop-append_add head (crlf ++ (crlf ++ body)) 4))

-- A response printed with a status of at most 65535, a plain reason and well-formed header fields
-- is read back: the status, the fields in order, and the body, decoded if a field announces the
-- chunked coding; an error of that decoding is the result.
pub parse_response-print_response :
    (status : ℕ) (reason : Str) (headers : List (Str × Str)) (body : Bytes)
    → status ≤ u16_max
    → IsPlain reason
    → All IsField headers
    → parse_response (print_response status reason headers body)
      ≡ (decode_body headers body >>= λ content. ok (response status headers content))
parse_response-print_response status reason headers body fits plain fields =
    let first = status_line status reason in
    let head = join_lines first (field_lines headers) in
    let (ascii, lacks) = IsPlain-line first (status_line-IsPlain status reason plain) in
    let lines = field_lines-IsLine headers fields in
    let head_ascii =
      join_lines-All IsAscii first (field_lines headers) (omega arith, omega arith) ascii
        (field_lines-IsAscii headers fields) in
    parse_response-head head body (find-join_lines first (field_lines headers) body lacks lines)
      (from_utf8_lossy-ascii head head_ascii)
    ∙ rw (split_crlf-join_lines first (field_lines headers) lacks lines)
        (read_head-lines status reason headers body fits fields)
