-- ===== src/Der/Integer.antt =====
-- `integer`, and the number that octets spell.
use ru_ssl.Prelude.{
  ℕ, ◌+◌, ◌*◌, ◌≤◌, ◌<◌, ◌≡◌, inl, inr, refl, [], ◌∷◌, arith, length, bit_and, ◌==◌, Bool-cases,
}
use ru_ssl.Prelude.Bits.{bit_and_0x80}
use ru_ssl.Der.{tlv, integer}
use ru_ssl.Text.{Bytes, AllBytes}

-- The number that octets spell, highest first.
abbrev pub unsigned_from : ℕ → Bytes → ℕ
unsigned_from n [] = n
unsigned_from n (b ∷ bs) = unsigned_from (n * 256 + b) bs

abbrev pub unsigned : Bytes → ℕ
unsigned = unsigned_from 0

-- As a DER INTEGER: there is an octet, and the highest bit, its sign, is clear.
abbrev pub IsNonNegative : Bytes → Type 0
IsNonNegative [] = ⊥
IsNonNegative (b ∷ bs) = b < 128

-- Some content octets that stay positive and spell the same number, under the tag INTEGER.
abbrev pub EncodesInteger : Bytes → Type 0
EncodesInteger value =
    (content : Bytes) × (integer value ≡ tlv 0x02 content)
    × IsNonNegative content
    × (unsigned content ≡ unsigned value)
    × (length content ≤ length value + 1)

-- On value octets that are bytes, `integer` is a TLV of tag 2 with a content that is not empty,
-- has its sign bit clear, has the same unsigned value, and is at most one byte longer.
pub integer-EncodesInteger : (value : Bytes) → AllBytes value → EncodesInteger value
unfolding integer
integer-EncodesInteger [] h = (0 ∷ [], refl, omega arith, refl, omega arith)
integer-EncodesInteger (b ∷ value) (hb, _) = elim (Bool-cases (bit_and b 0x80 == 0)) [
  | inl clear ↦ (b ∷ value, rw clear, ground (arith, bit_and_0x80 b hb), refl, omega arith)
  | inr negative ↦ (0 ∷ b ∷ value, rw negative, omega arith, refl, omega arith)
]
