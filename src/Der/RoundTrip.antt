-- ===== src/Der/RoundTrip.antt =====
-- Reading back what the encoder wrote: one TLV, and a sequence of them.
use ru_ssl.Prelude.{
  ℕ, ◌+◌, ◌^◌, ◌≤◌, ◌<◌, ◌≡◌, sym, ap, ◌∙◌, [], ◌∷◌, ◌++◌, none, some, arith, ltb, Bool-cases, inl,
  inr, length, length-append, take-append, drop-append, append-nil, append_assoc,
}
use ru_ssl.Der.Length.{
  read_len-encode_len, read_len_wide, encode_len_short, encode_len_long, octets, length-octets_lt,
  length-octets_le,
}
use ru_ssl.Der.{Tlv, encode_len, tlv, read_len, read_tlv}
use ru_ssl.Text.{Bytes}

-- What `tlv` encodes, as the reader presents it.
abbrev pub view : ℕ → Bytes → Tlv
view tag content = record { tag = tag; content = content; total_len = length (tlv tag content) }

-- Lengths of four octets are read; longer ones are refused.
abbrev pub FitsReader : Bytes → Type 0
FitsReader content = length content < 2 ^ 32

length-tlv :
    (tag : ℕ) (content : Bytes)
    → length (tlv tag content) ≡ 1 + length (encode_len (length content)) + length content
unfolding tlv
length-tlv tag content = omega (arith, length-append (encode_len (length content)) content)

read_tlv-header :
    (tag first : ℕ) (more content rest : Bytes)
    → read_len first (more ++ (content ++ rest)) ≡ some (length content, 2 + length more)
    → length more + length content < 2 ^ 33
    → read_tlv (tag ∷ first ∷ (more ++ (content ++ rest)))
      ≡ some (record { tag = tag; content = content; total_len = 2 + length more + length content })
unfolding read_tlv
read_tlv-header tag first more content rest e fits = rw e (
    ground (
      arith,
      length-append more (content ++ rest),
      length-append content rest,
      drop-append more (content ++ rest),
      take-append content rest,
    ))

length-encode_len_le : (len : ℕ) → len < 2 ^ 32 → length (encode_len len) ≤ 5
length-encode_len_le len fits = elim (Bool-cases (ltb len 128)) [
  | inl short ↦ rw (encode_len_short len (ground arith)) (omega arith)
  | inr long ↦
      rw (encode_len_long len (ground arith) (omega arith))
        (omega (arith, length-octets_le 4 len fits))
]

tlv_split :
    (tag : ℕ) (content rest : Bytes) {first : ℕ} {more : Bytes}
    → encode_len (length content) ≡ first ∷ more
    → tlv tag content ++ rest ≡ tag ∷ first ∷ (more ++ (content ++ rest))
unfolding tlv
tlv_split tag content rest {first} {more} e =
    rw e (ap (λ (s : Bytes). tag ∷ first ∷ s) (append_assoc more content rest))

-- For every tag, every content shorter than 2^32 bytes and any bytes behind it, `read_tlv`
-- returns what `tlv` wrote: the tag, the content, and the exact encoded size.
pub read_tlv-tlv :
    (tag : ℕ) (content rest : Bytes)
    → FitsReader content
    → read_tlv (tlv tag content ++ rest) ≡ some (view tag content)
read_tlv-tlv tag content rest fits =
    let (first, more, e, r) = read_len-encode_len (length content) (content ++ rest) fits in
    let short : length more ≤ 4 =
      omega (arith, length-encode_len_le (length content) fits, ap length e) in
    let header : read_len first (more ++ (content ++ rest))
        ≡ some (length content, 2 + length more) =
      r ∙ ap (λ (k : ℕ). some (length content, k)) (omega (arith, ap length e)) in
    let total : length (tlv tag content) ≡ 2 + length more + length content =
      omega (arith, length-tlv tag content, ap length e) in
    rw total (
      ap read_tlv (tlv_split tag content rest e)
      ∙ read_tlv-header tag first more content rest header (omega arith))

-- A length that needs five octets or more is refused, whatever follows.
pub read_tlv_wide :
    (tag : ℕ) (content rest : Bytes)
    → 2 ^ 32 ≤ length content
    → length content < 2 ^ 64
    → read_tlv (tlv tag content ++ rest) ≡ none
read_tlv_wide tag content rest wide fits =
    let e = encode_len_long (length content) (omega arith) fits in
    let n = length (octets (length content)) in
    let lo = length-octets_lt 4 (length content) wide (omega arith) in
    let hi = length-octets_le 8 (length content) fits in
    let refused = read_len_wide n (octets (length content) ++ (content ++ rest)) lo (omega arith) in
    ap read_tlv (tlv_split tag content rest e) ∙ unfold read_tlv in rw refused

pub read_tlv-alone :
    (tag : ℕ) (content : Bytes)
    → FitsReader content
    → read_tlv (tlv tag content) ≡ some (view tag content)
read_tlv-alone tag content fits =
    ap read_tlv (sym (append-nil (tlv tag content))) ∙ read_tlv-tlv tag content [] fits

-- A content is shorter than its TLV, so it fits where the TLV does.
pub FitsReader-content :
    (tag : ℕ) (content : Bytes) → FitsReader (tlv tag content) → FitsReader content
FitsReader-content tag content h = omega (arith, length-tlv tag content)
