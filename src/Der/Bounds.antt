-- ===== src/Der/Bounds.antt =====
-- The length that `read_tlv` reads: its value, and the ranges that keep it from wrapping.
use ru_ssl.Prelude.{
  ℕ, zero, suc, ◌+◌, ◌*◌, ◌^◌, ◌%◌, ◌≤◌, ◌<◌, ◌≡◌, refl, ap, ◌∙◌, [], ◌∷◌, some, arith, ltb, bit_or,
  length, take, All-take, length-take, Bool-cases, inl, inr,
}
use native.Mathlib.Nat.{pow-suc}
use ru_ssl.Prelude.Bits.{bit_or_byte, bit_and_0x7f}
use ru_ssl.Text.{Bytes, AllBytes, usize_max}
use ru_ssl.Der.Integer.{unsigned_from, unsigned}
use ru_ssl.Der.{fold_len, read_len}

unsigned_from_lt :
    (bs : Bytes) (k len : ℕ)
    → AllBytes bs
    → len < 256 ^ k
    → unsigned_from len bs < 256 ^ (length bs + k)
unsigned_from_lt [] k len h lt = let none_left : 0 + k ≡ k = omega arith in rw none_left lt
unsigned_from_lt (b ∷ bs) k len (hb, hs) lt =
    let lt' : len * 256 + b < 256 ^ suc k = rw (pow-suc 256 k) (omega arith) in
    let shift : length bs + suc k ≡ suc (length bs) + k = omega arith in
    rw shift at (unsigned_from_lt bs (suc k) (len * 256 + b) hs lt')

-- Below 2 ^ 56 the shift loses no bit.
fold_len_small :
    (b len : ℕ) → len < 2 ^ 56 → b < 256 → bit_or (len * 256 % 2 ^ 64) b ≡ len * 256 + b
fold_len_small b len hl hb = ap (λ (t : ℕ). bit_or t b) (omega arith) ∙ bit_or_byte len b hb

pow_256_le : (k : ℕ) → k ≤ 4 → 256 ^ k ≤ 2 ^ 32
pow_256_le zero h = omega arith
pow_256_le (suc zero) h = omega arith
pow_256_le (suc (suc zero)) h = omega arith
pow_256_le (suc (suc (suc zero))) h = omega arith
pow_256_le (suc (suc (suc (suc k)))) h = let last : k ≡ 0 = omega arith in rw last (omega arith)

pub fold_len-unsigned_from :
    (bs : Bytes) (k len : ℕ)
    → AllBytes bs
    → length bs + k ≤ 4
    → len < 256 ^ k
    → fold_len bs len ≡ unsigned_from len bs
unfolding fold_len
fold_len-unsigned_from [] k len h fits lt = refl
fold_len-unsigned_from (b ∷ bs) k len (hb, hs) fits lt =
    let small : len < 2 ^ 32 = omega (arith, pow_256_le k (omega arith)) in
    let lt' : len * 256 + b < 256 ^ suc k = rw (pow-suc 256 k) (omega arith) in
    ap (fold_len bs) (fold_len_small b len (omega arith) hb)
    ∙ fold_len-unsigned_from bs (suc k) (len * 256 + b) hs (omega arith) lt'

-- What a length that was read satisfies, on the octet and the bytes that it was read from.
pub record IsLength (first : ℕ) (more : Bytes) (len header_len : ℕ) : Type 0 where
  pub len_fits : len < 2 ^ 32
  pub header_min : 2 ≤ header_len
  pub header_max : header_len ≤ 6
  pub header_inside : header_len ≤ 2 + length more
  pub no_overflow : header_len + len ≤ usize_max
  pub short_form : first < 128 → (len ≡ first) × (header_len ≡ 2)
  pub long_form :
      128 ≤ first → (header_len ≡ 2 + first % 128) × (len ≡ unsigned (take (first % 128) more))

read_len_long_form :
    (first : ℕ) (more : Bytes) {l h : ℕ}
    → 128 ≤ first
    → first < 256
    → read_len first more ≡ some (l, h)
    → (first % 128 ≤ 4)
      × (first % 128 ≤ length more)
      × (1 ≤ first % 128)
      × (h ≡ 2 + first % 128)
      × (l ≡ fold_len (take (first % 128) more) 0)
unfolding read_len
read_len_long_form first more lo hi e = ground (arith, bit_and_0x7f first hi)

read_len_short_form :
    (first : ℕ) (more : Bytes) {l h : ℕ}
    → first < 128
    → read_len first more ≡ some (l, h)
    → (l ≡ first) × (h ≡ 2)
unfolding read_len
read_len_short_form first more lo e = ground arith

len_lt :
    (first : ℕ) (more : Bytes)
    → AllBytes more
    → first % 128 ≤ 4
    → unsigned (take (first % 128) more) < 2 ^ 32
len_lt first more h hi =
    let some_octets = take (first % 128) more in
    let count = length-take (first % 128) more in
    let lt = unsigned_from_lt some_octets 0 0 (All-take _ (first % 128) more h) (omega arith) in
    omega (arith, lt, count, pow_256_le (length some_octets + 0) (omega (arith, count)))

len_eq :
    (first : ℕ) (more : Bytes)
    → AllBytes more
    → first % 128 ≤ 4
    → fold_len (take (first % 128) more) 0 ≡ unsigned (take (first % 128) more)
len_eq first more h hi =
    fold_len-unsigned_from (take (first % 128) more) 0 0 (All-take _ (first % 128) more h)
      (omega (arith, length-take (first % 128) more)) (omega arith)

-- A length that is read from bytes is below 2^32, with a header of two to six bytes that lies in
-- the input, and neither the shifts nor the sum of the two lose a bit: the short form is the
-- octet itself, and the long form is the unsigned value of the octets counted.
pub read_len-IsLength :
    (first : ℕ) (more : Bytes) (len header_len : ℕ)
    → first < 256
    → AllBytes more
    → read_len first more ≡ some (len, header_len)
    → IsLength first more len header_len
read_len-IsLength first more l h byte bytes e = elim (Bool-cases (ltb first 128)) [
  | inl short ↦
      let (l_eq, h_eq) = read_len_short_form first more (ground arith) e in
      record {
        len_fits = ground arith;
        header_min = omega arith;
        header_max = omega arith;
        header_inside = omega arith;
        no_overflow = ground arith;
        short_form = λ _. (l_eq, h_eq);
        long_form = λ lo. ground arith;
      }
  | inr long ↦
      let (hi, inside, lo, h_eq, l_eq) = read_len_long_form first more (ground arith) byte e in
      let value = l_eq ∙ len_eq first more bytes hi in
      let fits : l < 2 ^ 32 = omega (arith, value, len_lt first more bytes hi) in
      record {
        len_fits = fits;
        header_min = omega arith;
        header_max = omega arith;
        header_inside = omega arith;
        no_overflow = omega arith;
        short_form = λ lt. ground arith;
        long_form = λ _. (h_eq, value);
      }
]
