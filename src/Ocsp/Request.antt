-- ===== src/Ocsp/Request.antt =====
-- `build_request` read back: five nested sequences around the parts of `CertID`.
use ru_ssl.Prelude.{
  ℕ, zero, suc, ◌≡◌, refl, sym, ap, ◌∙◌, List, [], ◌∷◌, ◌++◌, Option, none, some, ◌==◌,
  if◌then◌else◌, append-nil,
}
use ru_ssl.Text.{Bytes, AllBytes}
use ru_ssl.Der.Integer.{integer-EncodesInteger, IsNonNegative, unsigned}
use ru_ssl.Der.RoundTrip.{FitsReader, read_tlv-alone, FitsReader-content}
use ru_ssl.Der.Children.{concat_tlvs, views, children-fitting}
use ru_ssl.Der.{tlv, encode_len, sequence, octet_string, integer, algid_sha1, read_tlv, children}
use ru_ssl.X509.{Certificate}
use ru_ssl.Ocsp.{cert_id, build_request}

-- The content behind so many nested TLVs, all with the tag SEQUENCE.
abbrev pub descend : ℕ → Bytes → Option Bytes
descend zero input = some input
descend (suc depth) input = elim (read_tlv input) [
  | none ↦ none
  | some t ↦ if t.tag == 0x30 then descend depth t.content else none
]

descend-tlv :
    (depth : ℕ) (content : Bytes)
    → FitsReader content
    → descend (suc depth) (tlv 0x30 content) ≡ descend depth content
descend-tlv depth content fits = rw (read_tlv-alone 0x30 content fits, descend)

-- The SHA-1 algorithm identifier is itself a TLV.
abbrev algid_element : ℕ × Bytes
algid_element = (0x30, 0x06 ∷ 0x05 ∷ 0x2b ∷ 0x0e ∷ 0x03 ∷ 0x02 ∷ 0x1a ∷ 0x05 ∷ 0x00 ∷ [])

-- The parts of `CertID`, with the serial number as an INTEGER of this content.
abbrev pub id_elements : Bytes → Bytes → Bytes → List (ℕ × Bytes)
id_elements name_hash key_hash serial =
    algid_element ∷ (0x04, name_hash) ∷ (0x04, key_hash) ∷ (0x02, serial) ∷ []

algid_sha1-tlv : tlv 0x30 algid_element.1 ≡ algid_sha1
unfolding tlv encode_len
algid_sha1-tlv = refl

cert_id-concat_tlvs :
    (name_hash key_hash serial content : Bytes)
    → integer serial ≡ tlv 0x02 content
    → cert_id name_hash key_hash serial ≡ concat_tlvs (id_elements name_hash key_hash content)
unfolding cert_id octet_string
cert_id-concat_tlvs name_hash key_hash serial content e =
    rw (e, append-nil)
      (ap (λ (a : Bytes). a ++ (tlv 0x04 name_hash ++ (tlv 0x04 key_hash ++ tlv 0x02 content)))
        (sym algid_sha1-tlv))

-- Nested sequences, from the inside.
nest : ℕ → Bytes → Bytes
nest zero content = content
nest (suc depth) content = tlv 0x30 (nest depth content)

descend-nest :
    (depth : ℕ) (content : Bytes)
    → FitsReader (nest depth content)
    → descend depth (nest depth content) ≡ some content
unfolding nest
descend-nest zero content h = refl
descend-nest (suc depth) content h =
    let fits = FitsReader-content 0x30 (nest depth content) h in
    descend-tlv depth (nest depth content) fits ∙ descend-nest depth content fits

nest-inner : (depth : ℕ) (content : Bytes) → FitsReader (nest depth content) → FitsReader content
unfolding nest
nest-inner zero content h = h
nest-inner (suc depth) content h =
    nest-inner depth content (FitsReader-content 0x30 (nest depth content) h)

-- What a responder reads out of a request: at depth five the digests of the issuer's name and key,
-- and the serial number as a non-negative INTEGER of the same value.
abbrev pub Identifies : Bytes → Bytes → Bytes → Bytes → Type 0
Identifies request name_hash key_hash raw_serial =
    (id : Bytes) × (serial : Bytes) × (descend 5 request ≡ some id)
    × (children id ≡ views (id_elements name_hash key_hash serial))
    × IsNonNegative serial
    × (unsigned serial ≡ unsigned raw_serial)

build_request-nest :
    (sha1 : Bytes → Bytes) (leaf issuer : Certificate)
    → build_request sha1 leaf issuer
      ≡ nest 5 (cert_id (sha1 leaf.issuer_raw) (sha1 issuer.public_key_bits) leaf.raw_serial)
unfolding build_request sequence nest
build_request-nest sha1 leaf issuer = refl

-- For a serial number made of bytes and a request whose encoding is shorter than 2^32 bytes, a
-- reader finds at depth five the SHA-1 algorithm identifier, the digests of the leaf's issuer
-- name and of the issuer's key bits, and a non-negative INTEGER of the value of the serial
-- number.
pub build_request-Identifies :
    (sha1 : Bytes → Bytes) (leaf issuer : Certificate)
    → AllBytes leaf.raw_serial
    → FitsReader (build_request sha1 leaf issuer)
    → Identifies
        (build_request sha1 leaf issuer)
        (sha1 leaf.issuer_raw)
        (sha1 issuer.public_key_bits)
        leaf.raw_serial
build_request-Identifies sha1 leaf issuer bytes fits =
    let name_hash = sha1 leaf.issuer_raw in
    let key_hash = sha1 issuer.public_key_bits in
    let (serial, e, positive, same, short) = integer-EncodesInteger leaf.raw_serial bytes in
    let id = cert_id name_hash key_hash leaf.raw_serial in
    let shape = build_request-nest sha1 leaf issuer in
    let fits' : FitsReader (nest 5 id) = rw shape at fits in
    let elements = cert_id-concat_tlvs name_hash key_hash leaf.raw_serial serial e in
    (
      id,
      serial,
      rw shape (descend-nest 5 id fits'),
      rw elements (
          children-fitting (id_elements name_hash key_hash serial)
            (rw elements at (nest-inner 5 id fits'))),
      positive,
      same,
    )
