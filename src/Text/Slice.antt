-- ===== src/Text/Slice.antt =====
-- Slices of bytes as the source writes them: one that is out of range panics, which is `none` here.
use ru_ssl.Prelude.{
  ℕ, ◌-◌, ◌≤◌, ◌≡◌, ◌&&◌, Option, none, some, arith, leb, if◌then◌else◌, length, take, drop,
}
use ru_ssl.Text.Chars.{Bytes}

-- What may panic, in front of what comes after it.
infixl 5 ◌>>=◌
abbrev pub ◌>>=◌ {ℓ κ} : {A : Type ℓ} {B : Type κ} → Option A → (A → Option B) → Option B
none >>= next = none
some a >>= next = next a

-- `&s[..n]`, `&s[n..]` and `&s[a..b]`.
abbrev pub slice_to : ℕ → Bytes → Option Bytes
slice_to n s = if leb n (length s) then some (take n s) else none

abbrev pub slice_from : ℕ → Bytes → Option Bytes
slice_from n s = if leb n (length s) then some (drop n s) else none

abbrev pub slice : ℕ → ℕ → Bytes → Option Bytes
slice a b s = if leb a b && leb b (length s) then some (take (b - a) (drop a s)) else none

pub slice_to-fits : (n : ℕ) (s : Bytes) → n ≤ length s → slice_to n s ≡ some (take n s)
slice_to-fits n s h = ground arith

pub slice_from-fits : (n : ℕ) (s : Bytes) → n ≤ length s → slice_from n s ≡ some (drop n s)
slice_from-fits n s h = ground arith

pub slice-fits :
    (a b : ℕ) (s : Bytes) → a ≤ b → b ≤ length s → slice a b s ≡ some (take (b - a) (drop a s))
slice-fits a b s h k = ground arith
