-- ===== src/Der/Length.antt =====
-- The length octets: what `encode_len` writes and `read_len` reads.
use mathlib.Core.List.{reverse, reverse-append}
use ru_ssl.Prelude.{
  ℕ, zero, suc, ◌+◌, ◌*◌, ◌/◌, ◌%◌, ◌^◌, ◌≤◌, ◌<◌, ◌≡◌, refl, sym, ap, ◌∙◌, [], ◌∷◌, ◌++◌, none,
  some, arith, ltb, ◌==◌, if◌then◌else◌, bit_or, length, take, length-append, take-append,
  append-nil, append_assoc, All, Bool-cases, inl, inr,
}
use native.Mathlib.Nat.{pow-suc}
use ru_ssl.Prelude.Bits.{bit_or_byte, bit_or_0x80, bit_and_0x7f}
use ru_ssl.Text.{Bytes}
use ru_ssl.Der.{push_bytes, encode_len, fold_len, read_len}

-- The octets of a number, lowest first, without an accumulator.
abbrev le_bytes : ℕ → ℕ → Bytes
le_bytes zero n = []
le_bytes (suc fuel) n = let rest = le_bytes fuel (n / 256) in if n == 0 then [] else n % 256 ∷ rest

push_bytes-le_bytes : (fuel n : ℕ) (be : Bytes) → push_bytes fuel n be ≡ be ++ le_bytes fuel n
unfolding push_bytes
push_bytes-le_bytes zero n be = sym (append-nil be)
push_bytes-le_bytes (suc fuel) n be = ground (
  arith,
  push_bytes-le_bytes fuel (n / 256) (be ++ (n % 256 ∷ [])),
  append_assoc be (n % 256 ∷ []) (le_bytes fuel (n / 256)),
  append-nil be,
)

-- Reading the octets back, highest first, from any start: below 2 ^ 64 nothing is shifted out.
fold_len-append : (a b : Bytes) (len : ℕ) → fold_len (a ++ b) len ≡ fold_len b (fold_len a len)
unfolding fold_len
fold_len-append [] b len = refl
fold_len-append (x ∷ a) b len = fold_len-append a b _

fold_len-byte : (len b : ℕ) → len < 2 ^ 56 → b < 256 → fold_len (b ∷ []) len ≡ len * 256 + b
unfolding fold_len
fold_len-byte len b hl hb = ap (λ (t : ℕ). bit_or t b) (omega arith) ∙ bit_or_byte len b hb

-- A number of this many octets loses its lowest when it is divided.
tail_octets : (fuel n : ℕ) → n < 256 ^ suc fuel → n / 256 < 256 ^ fuel
tail_octets fuel n h = let h' : n < 256 ^ fuel * 256 = rw (← pow-suc 256 fuel) h in omega arith

pub fold_len-le_bytes :
    (fuel n : ℕ) → n < 256 ^ fuel → n < 2 ^ 64 → fold_len (reverse (le_bytes fuel n)) 0 ≡ n
fold_len-le_bytes zero n h fits = unfold fold_len in omega arith
fold_len-le_bytes (suc fuel) n h fits = elim (Bool-cases (n == 0)) [
  | inl none_left ↦ rw none_left (unfold fold_len in ground arith)
  | inr more ↦ rw more (
      ap (λ (t : Bytes). fold_len t 0) (reverse-append (n % 256 ∷ []) (le_bytes fuel (n / 256)))
      ∙ fold_len-append (reverse (le_bytes fuel (n / 256))) (n % 256 ∷ []) 0
      ∙ ap (fold_len (n % 256 ∷ []))
          (fold_len-le_bytes fuel (n / 256) (tail_octets fuel n h) (omega arith))
      ∙ fold_len-byte (n / 256) (n % 256) (omega arith) (omega arith)
      ∙ omega arith)
]

length-le_bytes_le : (fuel k n : ℕ) → n < 256 ^ k → length (le_bytes fuel n) ≤ k
length-le_bytes_le zero k n h = omega arith
length-le_bytes_le (suc fuel) zero n h = ground arith
length-le_bytes_le (suc fuel) (suc k) n h =
    ground (arith, length-le_bytes_le fuel k (n / 256) (tail_octets k n h))

pow_256-pos : (k : ℕ) → 0 < 256 ^ k
pow_256-pos zero = omega arith
pow_256-pos (suc k) = rw (pow-suc 256 k) (omega (arith, pow_256-pos k))

length-le_bytes_lt : (fuel k n : ℕ) → 256 ^ k ≤ n → k < fuel → k < length (le_bytes fuel n)
length-le_bytes_lt zero k n h lt = absurd (omega arith)
length-le_bytes_lt (suc fuel) zero n h lt = ground arith
length-le_bytes_lt (suc fuel) (suc k) n h lt =
    let h' : 256 ^ k * 256 ≤ n = rw (← pow-suc 256 k) h in
    ground (arith, length-le_bytes_lt fuel k (n / 256) (omega arith) (omega arith), pow_256-pos k)

le_bytes-IsByte : (fuel n : ℕ) → All (λ b. b < 256) (le_bytes fuel n)
le_bytes-IsByte zero n = tt
le_bytes-IsByte (suc fuel) n = ground (arith, le_bytes-IsByte fuel (n / 256))

-- The octets of a long length, as `encode_len` orders them.
pub octets : ℕ → Bytes
octets len = reverse (le_bytes 8 len)

length-reverse : (s : Bytes) → length (reverse s) ≡ length s
length-reverse [] = refl
length-reverse (b ∷ s) =
    ap length (reverse-append (b ∷ []) s)
    ∙ length-append (reverse s) (b ∷ [])
    ∙ omega (arith, length-reverse s)

pub length-octets_le : (k len : ℕ) → len < 256 ^ k → length (octets len) ≤ k
unfolding octets
length-octets_le k len h = rw (length-reverse (le_bytes 8 len)) (length-le_bytes_le 8 k len h)

pub length-octets_lt : (k len : ℕ) → 256 ^ k ≤ len → k < 8 → k < length (octets len)
unfolding octets
length-octets_lt k len h lt = rw (length-reverse (le_bytes 8 len)) (length-le_bytes_lt 8 k len h lt)

fold_len-octets : (len : ℕ) → len < 2 ^ 64 → fold_len (octets len) 0 ≡ len
unfolding octets
fold_len-octets len fits = fold_len-le_bytes 8 len fits fits

-- The number of octets in the first byte, and back.
flag_octets : (n : ℕ) → n < 128 → bit_or 0x80 (n % 256) ≡ 128 + n
flag_octets n h = ap (bit_or 0x80) (omega arith) ∙ bit_or_0x80 n h

encode_len_raw :
    (len : ℕ) → 128 ≤ len → encode_len len ≡ bit_or 0x80 (length (octets len) % 256) ∷ octets len
unfolding encode_len octets
encode_len_raw len h = rw (← push_bytes-le_bytes 8 len []) (ground arith)

-- The two forms of a length.
pub encode_len_short : (len : ℕ) → len < 128 → encode_len len ≡ len ∷ []
unfolding encode_len
encode_len_short len h = ground arith

pub encode_len_long :
    (len : ℕ) → 128 ≤ len → len < 2 ^ 64 → encode_len len ≡ (128 + length (octets len)) ∷ octets len
encode_len_long len h fits =
    encode_len_raw len h
    ∙ ap (λ (b : ℕ). b ∷ octets len)
        (flag_octets (length (octets len)) (omega (arith, length-octets_le 8 len fits)))

read_len_long :
    (n : ℕ) (be rest : Bytes)
    → 1 ≤ n
    → n ≤ 4
    → length be ≡ n
    → read_len (128 + n) (be ++ rest) ≡ some (fold_len be 0, 2 + n)
unfolding read_len
read_len_long n be rest lo hi e = ground (
  arith,
  bit_and_0x7f (128 + n) (omega arith),
  length-append be rest,
  ap (λ (k : ℕ). take k (be ++ rest)) (sym e) ∙ take-append be rest,
)

-- More than four octets are refused, whatever follows.
pub read_len_wide : (n : ℕ) (more : Bytes) → 4 < n → n < 128 → read_len (128 + n) more ≡ none
unfolding read_len
read_len_wide n more lo hi = ground (arith, bit_and_0x7f (128 + n) (omega arith))

read_len_short : (len : ℕ) (more : Bytes) → len < 128 → read_len len more ≡ some (len, 2)
unfolding read_len
read_len_short len more h = ground arith

-- `read_len` on what `encode_len` wrote, with any bytes behind it.
abbrev pub ReadsBack : ℕ → Bytes → Type 0
ReadsBack len rest =
    (first : ℕ) × (more : Bytes) × (encode_len len ≡ first ∷ more)
    × (read_len first (more ++ rest) ≡ some (len, 1 + length (encode_len len)))

pub read_len-encode_len : (len : ℕ) (rest : Bytes) → len < 2 ^ 32 → ReadsBack len rest
read_len-encode_len len rest fits = elim (Bool-cases (ltb len 128)) [
  | inl short ↦
      let e = encode_len_short len (ground arith) in
      (len, [], e, rw e (read_len_short len rest (ground arith)))
  | inr long ↦
      let n = length (octets len) in
      let e = encode_len_long len (ground arith) (omega arith) in
      let lo = length-octets_lt 0 len (ground arith) (omega arith) in
      let hi = length-octets_le 4 len fits in
      (
        128 + n,
        octets len,
        e,
        rw e (
            read_len_long n (octets len) rest lo hi refl
            ∙ ap (λ (l : ℕ). some (l, 2 + n)) (fold_len-octets len (omega arith))
            ∙ ap (λ (k : ℕ). some (len, k)) (omega arith)),
      )
]
