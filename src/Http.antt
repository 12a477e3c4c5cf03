-- ===== src/Http.antt =====
-- scanner/http.rs: the request text, the response parser and the chunked decoder. Bytes are lists of
-- numbers below 256; the header block is decoded to characters as `from_utf8_lossy` does.
pub mod Search
pub mod Chunked
pub mod ChunkedCoding
pub mod HeaderBlock
pub mod Injection
pub mod StatusLine
pub mod Response
pub mod RequestHead
pub mod Extent
pub mod Truncation
pub mod CutResponse
pub mod Slices
pub mod Request
pub mod Answers
use mathlib.Core.Option
use ru_ssl.Prelude.{
  ℕ, zero, suc, ◌+◌, Bool, true, false, ◌&&◌, ◌||◌, List, [], ◌∷◌, ◌++◌, Option, none, some, ltb,
  ◌==◌, if◌then◌else◌, length, take, drop, any, find, get_elem?, head?,
}
use ru_ssl.Text.{
  Str, Bytes, codes, eq_ignore_ascii_case, starts_with, trim, split, split_whitespace, split_crlf,
  split_once, to_string, parse_u16, from_str_radix, usize_max,
}
use ru_ssl.Text.Utf8.{from_utf8, from_utf8_lossy, as_bytes}
use ru_ssl.Error.{ScanError, Result, ok, err, ◌>>=◌}

pub data Scheme : Type 0 where
  http https : Scheme

pub record HttpResponse : Type 0 where
  pub status : ℕ
  pub headers : List (Str × Str)
  pub body : Bytes

-- `HttpResponse::header`.
unfoldable pub header : HttpResponse → Str → Option Str
unfolding eq_ignore_ascii_case
header r name =
    Option.map (λ (h : Str × Str). h.1) (find (λ h. eq_ignore_ascii_case h.0 name) r.headers)

abbrev pub crlf : Str
crlf = 13 ∷ 10 ∷ []

-- One line for each of `extra_headers`.
unfoldable pub header_lines : List (Str × Str) → Str
header_lines [] = []
header_lines ((k, v) ∷ hs) = k ++ (codes ": " ++ (v ++ (crlf ++ header_lines hs)))

abbrev pub content_length : Option Bytes → Str
content_length none = []
content_length (some b) = codes "Content-Length: " ++ (to_string (length b) ++ crlf)

abbrev pub body_bytes : Option Bytes → Bytes
body_bytes none = []
body_bytes (some b) = b

-- The head of the request that `request` writes, before the body.
unfoldable pub request_head : Str → Str → Str → List (Str × Str) → Option Bytes → Str
request_head method path host extra_headers body =
    method
    ++ (codes " "
        ++ (path
            ++ (codes " HTTP/1.1\r\n"
                ++ (codes "Host: "
                    ++ (host
                        ++ (codes "\r\nUser-Agent: russl/0.1\r\nConnection: close\r\n"
                            ++ (header_lines extra_headers ++ (content_length body ++ crlf))))))))

unfoldable pub request_bytes : Str → Str → Str → List (Str × Str) → Option Bytes → Bytes
request_bytes method path host extra_headers body =
    as_bytes (request_head method path host extra_headers body) ++ body_bytes body

-- The position of the first window of `haystack` that equals `needle`, which is not empty.
unfoldable pub find_subsequence : Bytes → Bytes → Option ℕ
unfolding starts_with
find_subsequence [] needle = none
find_subsequence (b ∷ s) needle =
    if starts_with (b ∷ s) needle then some 0 else Option.map suc (find_subsequence s needle)

abbrev pub ok_or {ℓ} : {A : Type ℓ} → Option A → ScanError → Result A
ok_or none e = err e
ok_or (some a) e = ok a

abbrev and_then {ℓ κ} : {A : Type ℓ} {B : Type κ} → Option A → (A → Option B) → Option B
and_then none f = none
and_then (some a) f = f a

-- `split(..).next().unwrap_or("")`.
abbrev pub first_or_empty : List Str → Str
first_or_empty [] = []
first_or_empty (s ∷ ss) = s

-- The size that a size line states; extensions behind `;` are discarded.
unfoldable pub chunk_size : Bytes → Result ℕ
chunk_size line = do
  size_line ← ok_or (from_utf8 line) (ScanError.http (codes "non-utf8 chunk size"))
  let size_hex = trim (first_or_empty (split size_line b';'))
  ok_or (from_str_radix 16 usize_max size_hex)
      (ScanError.http (codes "bad chunk size: " ++ size_hex))

-- The size of the next chunk, and the input behind its size line.
unfoldable pub chunk_header : Bytes → Result (ℕ × Bytes)
chunk_header input = do
  nl ← ok_or (find_subsequence input crlf) (ScanError.http (codes "malformed chunk header"))
  size ← chunk_size (take nl input)
  ok (size, drop (nl + 2) input)

-- "Each chunk is followed by CRLF": two bytes are skipped if there are two.
abbrev pub skip_crlf : Bytes → Bytes
skip_crlf input = if ltb (length input) 2 then input else drop 2 input

-- One round of `loop` on what is left of `data`; the fuel bounds the rounds.
unfoldable pub decode_loop : ℕ → Bytes → Bytes → Result Bytes
decode_loop zero input out = ok out
decode_loop (suc fuel) input out = do
  (size, rest) ← chunk_header input
  let again = decode_loop fuel (skip_crlf (drop size rest)) (out ++ take size rest)
  if size == 0
      then ok out
      else if ltb (length rest) size
      then err (ScanError.http (codes "truncated chunk body"))
      else again

-- Each round takes two bytes at least, so one more than the length is fuel enough.
unfoldable pub decode_chunked : Bytes → Result Bytes
decode_chunked input = decode_loop (suc (length input)) input []

-- The loop over the header lines, on `headers` and `chunked`.
abbrev pub is_chunked : Str → Str → Bool
is_chunked k v =
    eq_ignore_ascii_case k (codes "transfer-encoding")
    && any (λ t. eq_ignore_ascii_case (trim t) (codes "chunked")) (split v b',')

abbrev pub Fields : Type 0
Fields = List (Str × Str) × Bool

abbrev pub read_line : Option (Str × Str) → Fields → Fields
read_line none fields = fields
read_line (some (k, v)) (headers, chunked) =
    (headers ++ ((trim k, trim v) ∷ []), is_chunked (trim k) (trim v) || chunked)

unfoldable pub read_lines : List Str → Fields → Fields
read_lines [] fields = fields
read_lines (line ∷ lines) fields = read_lines lines (read_line (split_once line b':') fields)

unfoldable pub read_status : Str → Result ℕ
read_status status_line =
    ok_or (and_then (get_elem? (split_whitespace status_line) 1) parse_u16)
      (ScanError.http (codes "bad status line: " ++ status_line))

-- The lines of the header block with the body behind it.
unfoldable pub read_head : List Str → Bytes → Result HttpResponse
read_head [] rest = err (ScanError.http (codes "empty response"))
read_head (status_line ∷ lines) rest = do
  status ← read_status status_line
  let fields = read_lines lines ([], false)
  body ← if fields.1 then decode_chunked rest else ok rest
  ok (record { status = status; headers = fields.0; body = body })

unfoldable pub parse_response : Bytes → Result HttpResponse
parse_response raw = do
  end ←
      ok_or (find_subsequence raw (crlf ++ crlf))
        (ScanError.http (codes "response missing header terminator"))
  read_head (split_crlf (from_utf8_lossy (take end raw))) (drop (end + 4) raw)
