-- ===== src/Http/Extent.antt =====
-- What `parse_response` of scanner/http.rs returns, on any bytes.
use ru_ssl.Prelude.{
  ℕ, zero, suc, ◌+◌, ◌≤◌, ◌≡◌, sym, ◌∙◌, [], ◌∷◌, ◌++◌, arith, ltb, ◌==◌, Bool-cases, inl, inr,
  length, take, drop, All-take, All-drop, All-append, length-append, length-take, length-drop, Bool,
  true, false, if◌then◌else◌, List, get_elem?, Option-cases,
}
use ru_ssl.Text.{Str, Bytes, AllBytes, codes, u16_max, parse_u16, split_crlf, split_whitespace}
use ru_ssl.Text.Range.{from_str_radix_le}
use ru_ssl.Text.Utf8.{from_utf8_lossy}
use ru_ssl.Error.{ScanError, Result, ok, >>=-eq-ok}
use ru_ssl.Http.Chunked.{round, decode_loop_step, ok_or-eq-ok, chunk_header_shorter}
use ru_ssl.Http.{
  HttpResponse, find_subsequence, crlf, ok_or, chunk_size, chunk_header, skip_crlf, decode_loop,
  decode_chunked, read_status, read_head, read_lines, parse_response,
}

-- Bytes, as many as `room` at most.
abbrev Holds : ℕ → Bytes → Type 0
Holds room s = AllBytes s × (length s ≤ room)

chunk_header-AllBytes :
    (input rest : Bytes) (size : ℕ)
    → AllBytes input
    → chunk_header input ≡ ok (size, rest)
    → AllBytes rest
unfolding chunk_header
chunk_header-AllBytes input rest size h e =
    let (nl, found, e₁) = >>=-eq-ok (ok_or (find_subsequence input crlf) _) _ e in
    let (n, number, e₂) = >>=-eq-ok (chunk_size (take nl input)) _ e₁ in
    let behind : drop (nl + 2) input ≡ rest = ground arith in
    rw behind at (All-drop _ (nl + 2) input h)

skip_crlf-Holds : (s : Bytes) → AllBytes s → Holds (length s) (skip_crlf s)
skip_crlf-Holds s h = elim (Bool-cases (ltb (length s) 2)) [
  | inl short ↦ rw short (h, omega arith)
  | inr long ↦ rw long (All-drop _ 2 s h, omega (arith, length-drop 2 s))
]

-- Some of a chunk that was there.
round-Holds :
    (again : Bytes → Bytes → Result Bytes) (out rest body : Bytes) (size : ℕ)
    → ((i o : Bytes)
        → AllBytes i
        → AllBytes o
        → again i o ≡ ok body
        → Holds (length o + length i) body)
    → AllBytes out
    → AllBytes rest
    → round again out (size, rest) ≡ ok body
    → Holds (length out + length rest) body
round-Holds again out rest body size later ho hr e = elim (Bool-cases (size == 0)) [
  | inl last ↦ let same : out ≡ body = ground arith in rw (← same) (ho, omega arith)
  | inr more ↦ elim (Bool-cases (ltb (length rest) size)) [
    | inl cut ↦ ground arith
    | inr whole ↦
        let (skipped, fewer) = skip_crlf-Holds (drop size rest) (All-drop _ size rest hr) in
        let (bytes, fits) =
          later (skip_crlf (drop size rest)) (out ++ take size rest) skipped
            (All-append _ out (take size rest) ho (All-take _ size rest hr)) (ground arith) in
        (
          bytes,
          omega (
            arith,
            fits,
            fewer,
            length-append out (take size rest),
            length-take size rest,
            length-drop size rest,
          ),
        )
  ]
]

decode_loop-Holds :
    (fuel : ℕ) (input out body : Bytes)
    → AllBytes input
    → AllBytes out
    → decode_loop fuel input out ≡ ok body
    → Holds (length out + length input) body
decode_loop-Holds zero input out body hi ho e =
    let same : out ≡ body = unfold decode_loop in ground arith in rw (← same) (ho, omega arith)
decode_loop-Holds (suc fuel) input out body hi ho e =
    let ((size, rest), header, e₁) =
      >>=-eq-ok (chunk_header input) (round (decode_loop fuel) out)
        (sym (decode_loop_step fuel input out) ∙ e) in
    let (bytes, fits) =
      round-Holds (decode_loop fuel) out rest body size (λ i o. decode_loop-Holds fuel i o body) ho
        (chunk_header-AllBytes input rest size hi header) e₁ in
    (bytes, omega (arith, fits, chunk_header_shorter input rest size header))

decode_chunked-Holds :
    (input body : Bytes)
    → AllBytes input
    → decode_chunked input ≡ ok body
    → Holds (length input) body
unfolding decode_chunked
decode_chunked-Holds input body h e =
    let (bytes, fits) = decode_loop-Holds (suc (length input)) input [] body h tt e in
    (bytes, omega (arith, fits))

read_status_le : (line : Str) (status : ℕ) → read_status line ≡ ok status → status ≤ u16_max
unfolding read_status
read_status_le line status e = elim (Option-cases (get_elem? (split_whitespace line) 1)) [
  | inl missing ↦ ground arith
  | inr (word, found) ↦ from_str_radix_le 10 u16_max word status (
      ok_or-eq-ok (parse_u16 word) (ScanError.http (codes "bad status line: " ++ line))
        (ground arith))
]

-- A response of the type: the status is a `u16`, and the body is bytes, as many as `room` at most.
abbrev pub IsResponse : ℕ → HttpResponse → Type 0
IsResponse room r = (r.status ≤ u16_max) × Holds room r.body

coded-Holds :
    (chunked : Bool) (rest body : Bytes)
    → AllBytes rest
    → (if chunked then decode_chunked rest else ok rest) ≡ ok body
    → Holds (length rest) body
coded-Holds true rest body h e = decode_chunked-Holds rest body h e
coded-Holds false rest body h e =
    let same : rest ≡ body = ground arith in rw (← same) (h, omega arith)

read_head-IsResponse :
    (lines : List Str) (rest : Bytes) (r : HttpResponse)
    → AllBytes rest
    → read_head lines rest ≡ ok r
    → IsResponse (length rest) r
unfolding read_head
read_head-IsResponse [] rest r h e = ground arith
read_head-IsResponse (line ∷ lines) rest r h e =
    let fields = read_lines lines ([], false) in
    let (status, number, e₁) = >>=-eq-ok (read_status line) _ e in
    let (body, content, e₂) = >>=-eq-ok (if fields.1 then decode_chunked rest else ok rest) _ e₁ in
    let (bytes, fits) = coded-Holds fields.1 rest body h content in
    let made : record { status = status; headers = fields.0; body = body } ≡ r = cc in
    rw (← made) (read_status_le line status number, (bytes, fits))

-- For a response made of bytes, whatever it is, that `parse_response` accepts, the status is at
-- most 65535 and the body consists of bytes, no more of them than the response has, also if it is
-- decoded from chunks.
pub parse_response-IsResponse :
    (raw : Bytes) (r : HttpResponse)
    → AllBytes raw
    → parse_response raw ≡ ok r
    → IsResponse (length raw) r
unfolding parse_response
parse_response-IsResponse raw r h e =
    let (split, found, e₁) = >>=-eq-ok (ok_or (find_subsequence raw (crlf ++ crlf)) _) _ e in
    let (status, (bytes, fits)) =
      read_head-IsResponse (split_crlf (from_utf8_lossy (take split raw))) (drop (split + 4) raw) r
        (All-drop _ (split + 4) raw h) e₁ in
    (status, (bytes, omega (arith, fits, length-drop (split + 4) raw)))
