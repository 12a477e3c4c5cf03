-- ===== src/Http/ChunkedCoding.antt =====
-- The chunked transfer coding as a sender writes it, and `decode_chunked` on it.
use ru_ssl.Prelude.{
  ℕ, ◌^◌, ◌≤◌, ◌<◌, ◌≡◌, ◌≢◌, refl, sym, ap, ◌∙◌, false, List, [], ◌∷◌, ◌++◌, arith, length,
  length-append, take-append, drop-append, drop-append_add, append_assoc, append-nil, All,
  All-append,
}
use ru_ssl.Text.RoundTrip.{to_hex, from_str_radix-to_hex, to_hex-All, IsHexDigit}
use ru_ssl.Text.Utf8.{from_utf8-ascii, IsAscii}
use ru_ssl.Text.{
  Str, Bytes, trim-none, is_whitespace, split, split-Lacks, split-append, All-map, usize_max, Lacks,
}
use ru_ssl.Error.{Result, ok}
use ru_ssl.Http.Search.{find_subsequence-crlf}
use ru_ssl.Http.Chunked.{round, decode_from, decode_from_lem}
use ru_ssl.Http.{crlf, first_or_empty, chunk_size, chunk_header, skip_crlf, decode_chunked}

-- A chunk extension: nothing, or `;` and ASCII text, on the size line.
abbrev pub IsExtension : Str → Type 0
IsExtension [] = Unit
IsExtension (c ∷ s) = (c ≡ b';') × All (λ d. (d < 128) × (d ≢ 13)) s

pub record Chunk : Type 0 where
  pub extension : Str
  pub payload : Bytes

abbrev pub IsChunk : Chunk → Type 0
IsChunk c = IsExtension c.extension × (1 ≤ length c.payload) × (length c.payload < 2 ^ 64)

abbrev pub size_line : ℕ → Str → Bytes
size_line size extension = to_hex size ++ extension

-- The chunks, the last chunk with its extension, and whatever follows it.
unfoldable pub encode_chunked : List Chunk → Str → Bytes → Bytes
encode_chunked [] extension trailer = size_line 0 extension ++ (crlf ++ trailer)
encode_chunked (c ∷ cs) extension trailer =
    size_line (length c.payload) c.extension
    ++ (crlf ++ (c.payload ++ (crlf ++ encode_chunked cs extension trailer)))

abbrev pub payloads : List Chunk → Bytes
payloads [] = []
payloads (c ∷ cs) = c.payload ++ payloads cs

hex_plain : (c : ℕ) → IsHexDigit c → (c < 128) × (c ≢ 13)
hex_plain c h = omega arith

hex-visible : (c : ℕ) → IsHexDigit c → is_whitespace c ≡ false
unfolding is_whitespace
hex-visible c h = ground arith

extension-plain : (s : Str) → IsExtension s → All (λ d. (d < 128) × (d ≢ 13)) s
extension-plain [] h = tt
extension-plain (c ∷ s) (e, h) = ((omega arith, omega arith), h)

size_line-plain :
    (size : ℕ) (extension : Str)
    → IsExtension extension
    → All (λ d. (d < 128) × (d ≢ 13)) (size_line size extension)
size_line-plain size extension h =
    All-append (λ d. (d < 128) × (d ≢ 13)) (to_hex size) extension
      (All-map IsHexDigit _ hex_plain (to_hex size) (to_hex-All size)) (extension-plain extension h)

first-split :
    (s extension : Str)
    → Lacks b';' s
    → IsExtension extension
    → first_or_empty (split (s ++ extension) b';') ≡ s
first-split s [] lacks h =
    ap (λ (t : Str). first_or_empty (split t b';')) (append-nil s)
    ∙ ap first_or_empty (split-Lacks s b';' lacks)
first-split s (c ∷ e) lacks (is_semicolon, h) =
    ap (λ (d : ℕ). first_or_empty (split (s ++ (d ∷ e)) b';')) is_semicolon
    ∙ ap first_or_empty (split-append s e b';' lacks)

-- A size line states its size, whatever extension stands behind it.
pub chunk_size-size_line :
    (size : ℕ) (extension : Str)
    → size < 2 ^ 64
    → IsExtension extension
    → chunk_size (size_line size extension) ≡ ok size
unfolding chunk_size
chunk_size-size_line size extension fits h =
    let plain = size_line-plain size extension h in
    let ascii = All-map _ IsAscii (λ c p. p.0) (size_line size extension) plain in
    let digits = to_hex-All size in
    let lacks : Lacks b';' (to_hex size) =
      All-map IsHexDigit _ (λ c d. omega arith) (to_hex size) digits in
    let visible = All-map IsHexDigit _ hex-visible (to_hex size) digits in
    rw
      (
        from_utf8-ascii _ ascii,
        first-split (to_hex size) extension lacks h,
        trim-none (to_hex size) visible,
      )
      (rw (from_str_radix-to_hex usize_max size (omega arith)))

pub size_line-Lacks :
    (size : ℕ) (extension : Str) → IsExtension extension → Lacks 13 (size_line size extension)
size_line-Lacks size extension h =
    All-map _ _ (λ c p. p.1) (size_line size extension) (size_line-plain size extension h)

-- The header of a chunk, with anything behind the line end.
pub chunk_header-size_line :
    (size : ℕ) (extension rest : Bytes)
    → size < 2 ^ 64
    → IsExtension extension
    → chunk_header (size_line size extension ++ (crlf ++ rest)) ≡ ok (size, rest)
unfolding chunk_header
chunk_header-size_line size extension rest fits h =
    let line = size_line size extension in
    let lacks = size_line-Lacks size extension h in
    rw
      (
        find_subsequence-crlf line rest lacks,
        take-append line (crlf ++ rest),
        chunk_size-size_line size extension fits h,
      )
      (ap (λ (t : Bytes). ok (size, t)) (drop-append_add line (crlf ++ rest) 2))

pub skip_crlf-crlf : (rest : Bytes) → skip_crlf (crlf ++ rest) ≡ rest
skip_crlf-crlf rest = ground arith

-- One round on a chunk: the payload joins the output, and the line end behind it is skipped.
pub round-payload :
    (again : Bytes → Bytes → Result Bytes) (out payload rest : Bytes)
    → 1 ≤ length payload
    → round again out (length payload, payload ++ rest) ≡ again (skip_crlf rest) (out ++ payload)
round-payload again out payload rest lo =
    rw (drop-append payload rest, take-append payload rest)
      (ground (arith, length-append payload rest))

decode_from-encode_chunked :
    (cs : List Chunk) (extension : Str) (trailer out : Bytes)
    → All IsChunk cs
    → IsExtension extension
    → decode_from (encode_chunked cs extension trailer) out ≡ ok (out ++ payloads cs)
unfolding encode_chunked
decode_from-encode_chunked [] extension trailer out h e =
    decode_from_lem _ out
    ∙ rw (chunk_header-size_line 0 extension trailer (omega arith) e) (ap ok (sym (append-nil out)))
decode_from-encode_chunked (c ∷ cs) extension trailer out ((ext, lo, hi), h) e =
    decode_from_lem _ out
    ∙ rw (chunk_header-size_line (length c.payload) c.extension _ hi ext) (
        round-payload decode_from out c.payload _ lo
        ∙ rw (skip_crlf-crlf (encode_chunked cs extension trailer)) refl
        ∙ decode_from-encode_chunked cs extension trailer (out ++ c.payload) h e
        ∙ ap ok (append_assoc out c.payload (payloads cs)))

-- For chunks with a payload of at least one byte and fewer than 2^64, each size line with an
-- ASCII extension or none, `decode_chunked` returns the payloads joined, whatever follows the
-- last chunk.
pub decode_chunked-encode_chunked :
    (cs : List Chunk) (extension : Str) (trailer : Bytes)
    → All IsChunk cs
    → IsExtension extension
    → decode_chunked (encode_chunked cs extension trailer) ≡ ok (payloads cs)
unfolding decode_chunked
decode_chunked-encode_chunked cs extension trailer h e =
    unfold decode_from in decode_from-encode_chunked cs extension trailer [] h e
