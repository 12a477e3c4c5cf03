-- ===== src/Http/Truncation.antt =====
-- `decode_chunked` of scanner/http.rs on a body that was cut short.
use ru_ssl.Prelude.{
  ℕ, zero, suc, ◌+◌, ◌≤◌, ◌<◌, ◌≡◌, ◌⊎◌, inl, inr, refl, ◌∙◌, List, [], ◌∷◌, ◌++◌, none, arith,
  length, take, length-append, take-append_add, length-take_le, All,
}
use ru_ssl.Text.{Bytes, Str, codes, Lacks}
use ru_ssl.Error.{ScanError, Result, err}
use ru_ssl.Http.{find_subsequence, crlf, skip_crlf, chunk_header, decode_chunked}
use ru_ssl.Http.Chunked.{round, decode_from, decode_from_lem}
use ru_ssl.Http.ChunkedCoding.{
  Chunk, IsChunk, IsExtension, size_line, size_line-Lacks, chunk_header-size_line, skip_crlf-crlf,
  round-payload, encode_chunked,
}

abbrev pub Fails {ℓ} : {A : Type ℓ} → Result A → Type ℓ
Fails r = (e : ScanError) × (r ≡ err e)

-- A cut lies in the first part or behind it.
pub cut_cases : (k n : ℕ) → (k < n) ⊎ ((j : ℕ) × (k ≡ n + j))
cut_cases k zero = inr (k, omega arith)
cut_cases zero (suc n) = inl (omega arith)
cut_cases (suc k) (suc n) = elim (cut_cases k n) [
  | inl h ↦ inl (omega arith)
  | inr (j, e) ↦ inr (j, omega arith)
]

-- No line end is found in a line whose own was cut.
find-cut :
    (line rest : Bytes) (k : ℕ)
    → Lacks 13 line
    → k < length line + 2
    → find_subsequence (take k (line ++ (crlf ++ rest))) crlf ≡ none
unfolding find_subsequence
find-cut line rest zero lacks h = refl
find-cut [] rest (suc zero) lacks h = refl
find-cut [] rest (suc (suc k)) lacks h = absurd (omega arith)
find-cut (c ∷ line) rest (suc k) (hc, lacks) h =
    ground (arith, find-cut line rest k lacks (omega arith))

decode_from-no_line :
    (input out : Bytes) → find_subsequence input crlf ≡ none → Fails (decode_from input out)
unfolding chunk_header
decode_from-no_line input out h =
    let e = ScanError.http (codes "malformed chunk header") in
    (e, decode_from_lem input out ∙ rw h refl)

-- What is left of the line end of a chunk is no size line.
line_end_cut :
    (i : ℕ) (rest out : Bytes) → i < 2 → Fails (decode_from (skip_crlf (take i (crlf ++ rest))) out)
unfolding find_subsequence
line_end_cut zero rest out h = decode_from-no_line [] out refl
line_end_cut (suc zero) rest out h = decode_from-no_line (13 ∷ []) out refl
line_end_cut (suc (suc i)) rest out h = absurd (omega arith)

payload_cut :
    (again : Bytes → Bytes → Result Bytes) (out input : Bytes) (size j : ℕ)
    → j < size
    → Fails (round again out (size, take j input))
payload_cut again out input size j h =
    (ScanError.http (codes "truncated chunk body"), ground (arith, length-take_le j input))

-- A chunk that is cut behind its size line, if what follows it fails wherever that is cut.
round_cut :
    (payload rest out : Bytes) (j : ℕ)
    → 1 ≤ length payload
    → ((m : ℕ) → m < length rest → Fails (decode_from (take m rest) (out ++ payload)))
    → j < length payload + (2 + length rest)
    → Fails (round decode_from out (length payload, take j (payload ++ (crlf ++ rest))))
round_cut payload rest out j lo later h = elim (cut_cases j (length payload)) [
  | inl in_payload ↦
      payload_cut decode_from out (payload ++ (crlf ++ rest)) (length payload) j in_payload
  | inr (i, at) ↦
      rw
        (
          at,
          take-append_add payload (crlf ++ rest) i,
          round-payload decode_from out payload (take i (crlf ++ rest)) lo,
        )
        (elim (cut_cases i 2) [
          | inl in_line_end ↦ line_end_cut i rest (out ++ payload) in_line_end
          | inr (m, behind) ↦
              rw (behind, take-append_add crlf rest m, skip_crlf-crlf (take m rest))
                (later m (omega arith))
        ])
]

take_line :
    (line rest : Bytes) (j : ℕ)
    → take (length line + 2 + j) (line ++ (crlf ++ rest)) ≡ line ++ (crlf ++ take j rest)
take_line line rest j =
    let e : length line + 2 + j ≡ length line + (2 + j) = omega arith in
    rw (e, take-append_add line (crlf ++ rest) (2 + j), take-append_add crlf rest j) refl

decode_from-cut :
    (cs : List Chunk) (extension : Str) (out : Bytes) (k : ℕ)
    → All IsChunk cs
    → IsExtension extension
    → k < length (encode_chunked cs extension [])
    → Fails (decode_from (take k (encode_chunked cs extension [])) out)
unfolding encode_chunked
decode_from-cut [] extension out k h e lt = decode_from-no_line _ out (
    find-cut (size_line 0 extension) [] k (size_line-Lacks 0 extension e)
      (omega (arith, length-append (size_line 0 extension) (crlf ++ []))))
decode_from-cut (c ∷ cs) extension out k ((ext, lo, hi), h) e lt =
    let size = length c.payload in
    let line = size_line size c.extension in
    let rest = encode_chunked cs extension [] in
    let later = c.payload ++ (crlf ++ rest) in
    let before_end : k < length (line ++ (crlf ++ later)) = lt in
    elim (cut_cases k (length line + 2)) [
      | inl in_line ↦
          decode_from-no_line _ out
            (find-cut line later k (size_line-Lacks size c.extension ext) in_line)
      | inr (j, at) ↦
          let split : take k (line ++ (crlf ++ later)) ≡ line ++ (crlf ++ take j later) =
            rw at (take_line line later j) in
          let (x, fails) =
            round_cut c.payload rest out j lo
              (λ m lt'. decode_from-cut cs extension (out ++ c.payload) m h e lt')
              (omega (
                arith,
                before_end,
                length-append line (crlf ++ later),
                length-append c.payload (crlf ++ rest),
              )) in
          (
            x,
            decode_from_lem _ out
                ∙ rw (split, chunk_header-size_line size c.extension (take j later) hi ext) fails,
          )
    ]

-- A body in chunks that is cut anywhere before the end of its last size line is refused.
pub decode_chunked-cut :
    (cs : List Chunk) (extension : Str) (k : ℕ)
    → All IsChunk cs
    → IsExtension extension
    → k < length (encode_chunked cs extension [])
    → Fails (decode_chunked (take k (encode_chunked cs extension [])))
unfolding decode_chunked
decode_chunked-cut cs extension k h e lt =
    unfold decode_from in decode_from-cut cs extension [] k h e lt
