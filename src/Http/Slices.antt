-- ===== src/Http/Slices.antt =====
-- `parse_response` and `decode_chunked` of scanner/http.rs with every slice checked: `&s[..n]` and
-- `&s[n..]` panic when `n` is out of range.
pub mod InRange
use ru_ssl.Prelude.{
  ℕ, zero, suc, ◌+◌, ◌≤◌, ◌≡◌, refl, ap, ◌∙◌, Bool, true, false, List, [], ◌∷◌, ◌++◌, Option, none,
  some, arith, ltb, leb, ◌==◌, if◌then◌else◌, length, take, drop, length-take, length-drop,
  Bool-cases, Option-cases, inl, inr,
}
use ru_ssl.Text.{Str, Bytes, codes, split_crlf, starts_with}
use ru_ssl.Text.Slice.{slice_to, slice_from, ◌>>=◌}
use ru_ssl.Text.Utf8.{from_utf8_lossy}
use ru_ssl.Error.{ScanError, Result, ok, err}
use ru_ssl.Http.{
  HttpResponse, crlf, find_subsequence, ok_or, chunk_size, chunk_header, skip_crlf, decode_loop,
  decode_chunked, read_lines, read_status, read_head, parse_response,
}

-- What a call comes to: `none` is a panic.
abbrev pub Ran {ℓ} : Type ℓ → Type ℓ
Ran A = Option (Result A)

-- The `?` of a function that may also panic.
abbrev pub or_return {ℓ κ} : {A : Type ℓ} {B : Type κ} → Result A → (A → Ran B) → Ran B
or_return (err e) next = some (err e)
or_return (ok a) next = next a

unfoldable pub chunk_header_sliced : Bytes → Ran (ℕ × Bytes)
chunk_header_sliced input =
    or_return
      (ok_or (find_subsequence input crlf) (ScanError.http (codes "malformed chunk header")))
      λ nl. do
        line ← slice_to nl input
        or_return (chunk_size line)
            λ size. do rest ← slice_from (nl + 2) input; some (ok (size, rest))

abbrev pub skip_sliced : Bytes → Option Bytes
skip_sliced input = if ltb (length input) 2 then some input else slice_from 2 input

abbrev pub round_sliced : (Bytes → Bytes → Ran Bytes) → Bytes → ℕ × Bytes → Ran Bytes
round_sliced again out (size, rest) =
    if size == 0
    then some (ok out)
    else if ltb (length rest) size
    then some (err (ScanError.http (codes "truncated chunk body")))
    else do
      chunk ← slice_to size rest
      behind ← slice_from size rest
      input ← skip_sliced behind
      again input (out ++ chunk)

unfoldable pub decode_loop_sliced : ℕ → Bytes → Bytes → Ran Bytes
decode_loop_sliced zero input out = some (ok out)
decode_loop_sliced (suc fuel) input out = do
  header ← chunk_header_sliced input
  or_return header λ h. round_sliced (decode_loop_sliced fuel) out h

abbrev pub body_sliced : Bool → Bytes → Ran Bytes
body_sliced chunked rest =
    if chunked then decode_loop_sliced (suc (length rest)) rest [] else some (ok rest)

unfoldable pub read_head_sliced : List Str → Bytes → Ran HttpResponse
read_head_sliced [] rest = some (err (ScanError.http (codes "empty response")))
read_head_sliced (status_line ∷ lines) rest = or_return (read_status status_line) λ status. do
  let fields = read_lines lines ([], false)
  content ← body_sliced fields.1 rest
  or_return content λ body. some (ok (record { status = status; headers = fields.0; body = body }))

unfoldable pub parse_response_sliced : Bytes → Ran HttpResponse
parse_response_sliced raw =
    or_return
      (ok_or (find_subsequence raw (crlf ++ crlf))
        (ScanError.http (codes "response missing header terminator")))
      λ split. do
        head ← slice_to split raw
        body ← slice_from (split + 4) raw
        read_head_sliced (split_crlf (from_utf8_lossy head)) body
