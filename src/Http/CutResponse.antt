-- ===== src/Http/CutResponse.antt =====
-- `parse_response` of scanner/http.rs on a response that the connection cut short.
use mathlib.Core.Option
use ru_ssl.Prelude.{
  ℕ, zero, suc, ◌+◌, ◌≤◌, ◌<◌, ◌≡◌, inl, inr, refl, ap, ◌∙◌, Bool-cases, true, false, List, [], ◌∷◌,
  ◌++◌, none, some, arith, length, take, length-append, length-take_le, take-append_add, All,
}
use ru_ssl.Text.{Str, Bytes, codes, starts_with, u16_max}
use ru_ssl.Error.{ScanError}
use ru_ssl.Http.{find_subsequence, crlf, parse_response}
use ru_ssl.Http.StatusLine.{status_line-IsPlain}
use ru_ssl.Http.HeaderBlock.{
  IsPlain, IsField, field_lines, join_lines, status_line, print_response, any_chunked, blank,
  find-join_lines, IsPlain-line, field_lines-IsLine,
}
use ru_ssl.Http.Response.{parse_response-print_response}
use ru_ssl.Http.ChunkedCoding.{Chunk, IsChunk, IsExtension, encode_chunked}
use ru_ssl.Http.Truncation.{Fails, cut_cases, decode_chunked-cut}

starts_with-short : (s needle : Bytes) → length s < length needle → starts_with s needle ≡ false
unfolding starts_with
starts_with-short s [] h = absurd (omega arith)
starts_with-short [] (p ∷ ps) h = refl
starts_with-short (c ∷ s) (p ∷ ps) h = ground (arith, starts_with-short s ps (omega arith))

find-short : (s needle : Bytes) → length s < length needle → find_subsequence s needle ≡ none
unfolding find_subsequence
find-short [] needle h = refl
find-short (c ∷ s) needle h =
    rw (starts_with-short (c ∷ s) needle h, find-short s needle (omega arith)) refl

-- What is not at the start of a text is not at the start of a piece of it.
starts_with-take :
    (k : ℕ) (s needle : Bytes)
    → starts_with s needle ≡ false
    → starts_with (take k s) needle ≡ false
unfolding starts_with
starts_with-take k s [] h = cc
starts_with-take zero s (p ∷ ps) h = refl
starts_with-take (suc k) [] (p ∷ ps) h = refl
starts_with-take (suc k) (c ∷ s) (p ∷ ps) h = ground (arith, starts_with-take k s ps)

-- A needle whose first occurrence does not end before the cut is not found.
find-take :
    (k j : ℕ) (s needle : Bytes)
    → find_subsequence s needle ≡ some j
    → k < j + length needle
    → find_subsequence (take k s) needle ≡ none
unfolding find_subsequence
find-take zero j s needle e h = refl
find-take (suc k) j [] needle e h = refl
find-take (suc k) j (c ∷ s) needle e h = elim (Bool-cases (starts_with (c ∷ s) needle)) [
  | inl here ↦
      let found : some 0 ≡ some j = rw here at e in
      let at_start : 0 ≡ j = cc in
      find-short (take (suc k) (c ∷ s)) needle
        (omega (arith, at_start, length-take_le (suc k) (c ∷ s)))
  | inr later ↦
      let (i, found, next) =
        (Option.map-eq-some_iff suc (find_subsequence s needle)).0 (rw later at e) in
      rw
        (
          starts_with-take (suc k) (c ∷ s) needle later,
          find-take k i s needle found (omega (arith, next)),
        )
        refl
]

head_cut :
    (head body : Bytes) (k : ℕ)
    → find_subsequence (head ++ (crlf ++ (crlf ++ body))) blank ≡ some (length head)
    → k < length head + 4
    → Fails (parse_response (take k (head ++ (crlf ++ (crlf ++ body)))))
unfolding parse_response blank
head_cut head body k found h =
    let missing = find-take k (length head) (head ++ (crlf ++ (crlf ++ body))) blank found h in
    (ScanError.http (codes "response missing header terminator"), rw missing refl)

take_head :
    (head body : Bytes) (j : ℕ)
    → take (length head + 4 + j) (head ++ (crlf ++ (crlf ++ body)))
      ≡ head ++ (crlf ++ (crlf ++ take j body))
take_head head body j =
    let e : length head + 4 + j ≡ length head + (4 + j) = omega arith in
    rw
      (
        e,
        take-append_add head (crlf ++ (crlf ++ body)) (4 + j),
        take-append_add (crlf ++ crlf) body j,
      )
      refl

-- A response with a status of at most 65535, a plain reason, well-formed header fields of which
-- one announces the chunked coding, and a body in chunks of at least one byte and fewer than
-- 2^64, each size line with an ASCII extension or none, is refused by `parse_response` if it is
-- cut anywhere before the end of its last size line: no truncated chunked response is taken for a
-- whole one.
pub parse_response-cut :
    (status : ℕ) (reason : Str) (headers : List (Str × Str)) (cs : List Chunk) (extension : Str)
    (k : ℕ)
    → status ≤ u16_max
    → IsPlain reason
    → All IsField headers
    → any_chunked headers ≡ true
    → All IsChunk cs
    → IsExtension extension
    → let whole = print_response status reason headers (encode_chunked cs extension []) in
      k < length whole → Fails (parse_response (take k whole))
parse_response-cut status reason headers cs extension k fits plain fields chunked chunks ext lt =
    let first = status_line status reason in
    let head = join_lines first (field_lines headers) in
    let body = encode_chunked cs extension [] in
    let lacks = (IsPlain-line first (status_line-IsPlain status reason plain)).1 in
    elim (cut_cases k (length head + 4)) [
      | inl in_head ↦
          head_cut head body k
            (find-join_lines first (field_lines headers) body lacks
              (field_lines-IsLine headers fields))
            in_head
      | inr (j, behind) ↦
          let (e, fails) =
            decode_chunked-cut cs extension j chunks ext
              (omega (arith, length-append head (crlf ++ (crlf ++ body)))) in
          (
            e,
            rw behind (ap parse_response (take_head head body j))
                ∙ parse_response-print_response status reason headers (take j body) fits plain
                    fields
                ∙ rw (chunked, fails) refl,
          )
    ]
