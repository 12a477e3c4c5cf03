-- ===== src/Der.antt =====
-- scanner/der.rs: the DER encoder and the TLV reader. A byte slice is a list of bytes; a view into
-- the buffer is the list of the bytes that it covers. `usize` has 64 bits.
pub mod Length
pub mod Reader
pub mod Integer
pub mod Children
pub mod RoundTrip
pub mod Bounds
pub mod Slices
use mathlib.Core.List.{reverse}
use ru_ssl.Prelude.{
  ℕ, zero, suc, ◌+◌, ◌*◌, ◌/◌, ◌%◌, ◌^◌, ◌-◌, Bool, ◌||◌, List, [], ◌∷◌, ◌++◌, Option, none, some,
  arith, ltb, leb, ◌==◌, not, if◌then◌else◌, bit_and, bit_or, length, take, drop,
}
use ru_ssl.Text.{Bytes, usize_max}

abbrev pub algid_sha1 : Bytes
algid_sha1 = 0x30 ∷ 0x09 ∷ 0x06 ∷ 0x05 ∷ 0x2b ∷ 0x0e ∷ 0x03 ∷ 0x02 ∷ 0x1a ∷ 0x05 ∷ 0x00 ∷ []

-- `while n > 0 { be.push(n & 0xff); n >>= 8 }`; the fuel only has to reach the number of bytes.
unfoldable pub push_bytes : ℕ → ℕ → Bytes → Bytes
push_bytes zero n be = be
push_bytes (suc fuel) n be =
    let rest = push_bytes fuel (n / 256) (be ++ (n % 256 ∷ [])) in if n == 0 then be else rest

unfoldable pub encode_len : ℕ → Bytes
unfolding push_bytes
encode_len len =
    if ltb len 0x80
    then len % 256 ∷ []
    else let be = reverse (push_bytes 8 len []) in bit_or 0x80 (length be % 256) ∷ be

unfoldable pub tlv : ℕ → Bytes → Bytes
tlv tag content = tag ∷ (encode_len (length content) ++ content)

unfoldable pub sequence : Bytes → Bytes
sequence content = tlv 0x30 content

unfoldable pub octet_string : Bytes → Bytes
octet_string content = tlv 0x04 content

unfoldable pub integer : Bytes → Bytes
integer [] = tlv 0x02 (0 ∷ [])
integer (b ∷ value) =
    if not (bit_and b 0x80 == 0) then tlv 0x02 (0 ∷ b ∷ value) else tlv 0x02 (b ∷ value)

pub record Tlv : Type 0 where
  pub tag : ℕ
  pub content : Bytes
  pub total_len : ℕ

-- `len = (len << 8) | b` over the octets of a long length.
unfoldable pub fold_len : Bytes → ℕ → ℕ
fold_len [] len = len
fold_len (b ∷ bs) len = fold_len bs (bit_or (len * 256 % 2 ^ 64) b)

-- The content length and the header length; `none` where the source returns `None`.
unfoldable pub read_len : ℕ → Bytes → Option (ℕ × ℕ)
unfolding fold_len
read_len first more =
    if ltb first 0x80
    then some (first, 2)
    else let n = bit_and first 0x7f in
      if n == 0 || ltb 4 n || ltb (2 + length more) (2 + n)
      then none
      else some (fold_len (take n more) 0, 2 + n)

-- `header_len.checked_add(content_len)`.
abbrev pub checked_add : ℕ → ℕ → Option ℕ
checked_add a b = if ltb usize_max (a + b) then none else some (a + b)

abbrev pub slice_to : Bytes → ℕ → ℕ → ℕ → Option Tlv
slice_to bytes tag header_len end =
    if ltb (length bytes) end
    then none
    else some (record {
      tag = tag;
      content = take (end - header_len) (drop header_len bytes);
      total_len = end;
    })

abbrev pub with_lengths : Bytes → ℕ → Option (ℕ × ℕ) → Option Tlv
with_lengths bytes tag none = none
with_lengths bytes tag (some (content_len, header_len)) =
    elim (checked_add header_len content_len) [
      | none ↦ none
      | some end ↦ slice_to bytes tag header_len end
    ]

unfoldable pub read_tlv : Bytes → Option Tlv
unfolding read_len
read_tlv [] = none
read_tlv (tag ∷ []) = none
read_tlv (tag ∷ first ∷ more) = with_lengths (tag ∷ first ∷ more) tag (read_len first more)

-- `while let Some(t) = read_tlv(rest)`; the fuel bounds the rounds.
unfoldable pub children_loop : ℕ → Bytes → List Tlv → List Tlv
children_loop zero rest out = out
children_loop (suc fuel) rest out = elim (read_tlv rest) [
  | none ↦ out
  | some t ↦
      let again = children_loop fuel (drop t.total_len rest) (out ++ (t ∷ [])) in
      if t.total_len == 0 || ltb (length rest) t.total_len then out ++ (t ∷ []) else again
]

-- Each round takes two bytes at least, so the length of the content is fuel enough.
unfoldable pub children : Bytes → List Tlv
unfolding children_loop
children content = children_loop (length content) content []
