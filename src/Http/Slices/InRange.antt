-- ===== src/Http/Slices/InRange.antt =====
-- No slice of the response parser is out of range.
use ru_ssl.Prelude.{
  ℕ, zero, suc, ◌+◌, ◌≤◌, ◌≡◌, refl, Bool, true, false, List, [], ◌∷◌, ◌++◌, some, arith, ltb, ◌==◌,
  if◌then◌else◌, length, take, drop, Bool-cases, Option-cases, inl, inr,
}
use ru_ssl.Text.{Str, Bytes, split_crlf, starts_with}
use ru_ssl.Text.Slice.{slice_to-fits, slice_from-fits}
use ru_ssl.Text.Utf8.{from_utf8_lossy}
use ru_ssl.Error.{Result, ok, err, ◌>>=◌}
use ru_ssl.Http.{
  crlf, find_subsequence, chunk_size, chunk_header, skip_crlf, decode_loop, decode_chunked,
  read_lines, read_status, read_head, parse_response,
}
use ru_ssl.Http.Chunked.{round, decode_loop_step}
use ru_ssl.Http.Slices.{
  Ran, or_return, skip_sliced, round_sliced, body_sliced, chunk_header_sliced, decode_loop_sliced,
  read_head_sliced, parse_response_sliced,
}

starts_with_le : (s needle : Bytes) → starts_with s needle ≡ true → length needle ≤ length s
unfolding starts_with
starts_with_le s [] h = omega arith
starts_with_le [] (p ∷ ps) h = ground arith
starts_with_le (x ∷ s) (p ∷ ps) h = ground (arith, starts_with_le s ps)

-- What is found lies inside with its whole length.
found_window :
    (s : Bytes) (p : ℕ) (ps : Bytes) (i : ℕ)
    → find_subsequence s (p ∷ ps) ≡ some i
    → i + length (p ∷ ps) ≤ length s
unfolding find_subsequence
found_window [] p ps i e = ground arith
found_window (b ∷ s) p ps i e = elim (Bool-cases (starts_with (b ∷ s) (p ∷ ps))) [
  | inl here ↦ let fits = starts_with_le (b ∷ s) (p ∷ ps) here in ground arith
  | inr later ↦ elim (Option-cases (find_subsequence s (p ∷ ps))) [
    | inl nowhere ↦ ground arith
    | inr (j, found) ↦ let fits = found_window s p ps j found in ground arith
  ]
]

-- If the rest never panics, neither does what returns early in front of it.
or_return-some :
    {A B : Type 0} (r : Result A) (next : A → Ran B) (total : A → Result B)
    → ((a : A) → next a ≡ some (total a))
    → or_return r next ≡ some (r >>= total)
or_return-some (err e) next total h = refl
or_return-some (ok a) next total h = h a

chunk_header-InRange : (input : Bytes) → chunk_header_sliced input ≡ some (chunk_header input)
unfolding chunk_header_sliced chunk_header
chunk_header-InRange input = elim (Option-cases (find_subsequence input crlf)) [
  | inl nowhere ↦ rw nowhere refl
  | inr (nl, found) ↦
      let window = found_window input 13 (10 ∷ []) nl found in
      rw (found, slice_to-fits nl input (omega arith))
        (or_return-some (chunk_size (take nl input)) _ _
          (λ size. rw (slice_from-fits (nl + 2) input (omega arith)) refl))
]

skip_sliced-InRange : (s : Bytes) → skip_sliced s ≡ some (skip_crlf s)
skip_sliced-InRange s = ground arith

round-InRange :
    (again : Bytes → Bytes → Ran Bytes) (total : Bytes → Bytes → Result Bytes) (out : Bytes)
    → ((i o : Bytes) → again i o ≡ some (total i o))
    → (h : ℕ × Bytes) → round_sliced again out h ≡ some (round total out h)
round-InRange again total out same (size, rest) = elim (Bool-cases (size == 0)) [
  | inl last ↦ rw last refl
  | inr more ↦ elim (Bool-cases (ltb (length rest) size)) [
    | inl cut ↦ rw (more, cut) refl
    | inr whole ↦
        let fits : size ≤ length rest = ground arith in
        rw
          (
            more,
            whole,
            slice_to-fits size rest fits,
            slice_from-fits size rest fits,
            skip_sliced-InRange (drop size rest),
          )
          (same (skip_crlf (drop size rest)) (out ++ take size rest))
  ]
]

decode_loop-InRange :
    (fuel : ℕ) (input out : Bytes)
    → decode_loop_sliced fuel input out ≡ some (decode_loop fuel input out)
unfolding decode_loop_sliced
decode_loop-InRange zero input out = unfold decode_loop in refl
decode_loop-InRange (suc fuel) input out =
    rw (chunk_header-InRange input, decode_loop_step fuel input out)
      (or_return-some (chunk_header input) _ _
        (round-InRange (decode_loop_sliced fuel) (decode_loop fuel) out (decode_loop-InRange fuel)))

body-InRange :
    (chunked : Bool) (rest : Bytes)
    → body_sliced chunked rest ≡ some (if chunked then decode_chunked rest else ok rest)
unfolding decode_chunked
body-InRange true rest = decode_loop-InRange (suc (length rest)) rest []
body-InRange false rest = refl

read_head-InRange :
    (lines : List Str) (rest : Bytes) → read_head_sliced lines rest ≡ some (read_head lines rest)
unfolding read_head_sliced read_head
read_head-InRange [] rest = refl
read_head-InRange (line ∷ lines) rest =
    let fields = read_lines lines ([], false) in
    or_return-some (read_status line) _ _ λ status.
      rw (body-InRange fields.1 rest)
        (or_return-some (if fields.1 then decode_chunked rest else ok rest) _ _ (λ body. refl))

-- On any bytes no slice that `parse_response` takes, those of the chunked decoder included, is
-- out of range: with every slice checked, and a panic where it is not in range, the result is the
-- same response or error.
pub parse_response-InRange : (raw : Bytes) → parse_response_sliced raw ≡ some (parse_response raw)
unfolding parse_response_sliced parse_response
parse_response-InRange raw = elim (Option-cases (find_subsequence raw (crlf ++ crlf))) [
  | inl nowhere ↦ rw nowhere refl
  | inr (split, found) ↦
      let window = found_window raw 13 (10 ∷ crlf) split found in
      rw
        (
          found,
          slice_to-fits split raw (omega arith),
          slice_from-fits (split + 4) raw (omega arith),
        )
        (read_head-InRange (split_crlf (from_utf8_lossy (take split raw))) (drop (split + 4) raw))
]
