-- ===== src/Text/Number.antt =====
-- Numbers from texts and back: `from_str_radix` and `parse` of the unsigned types, and `to_string`.
use ru_ssl.Prelude.{
  ℕ, zero, suc, ◌+◌, ◌-◌, ◌*◌, ◌/◌, ◌%◌, ◌^◌, [], ◌∷◌, Option, none, some, ltb, ◌==◌, if◌then◌else◌,
}
use ru_ssl.Text.Chars.{Str, within}

abbrev pub u16_max : ℕ
u16_max = 2 ^ 16 - 1

abbrev pub u64_max : ℕ
u64_max = 2 ^ 64 - 1

-- The target's `usize` has 64 bits.
abbrev pub usize_max : ℕ
usize_max = 2 ^ 64 - 1

-- The value of a character as a digit; at least 36 if it is none.
abbrev pub digit_value : ℕ → ℕ
digit_value c =
    if within b'0' b'9' c
    then c - b'0'
    else if within b'a' b'z' c
    then c - b'a' + 10
    else if within b'A' b'Z' c
    then c - b'A' + 10
    else 36

-- Digit by digit, with the checked multiplication and addition of the type with this maximum.
unfoldable pub scan_digits : ℕ → ℕ → Str → ℕ → Option ℕ
scan_digits radix max [] n = some n
scan_digits radix max (c ∷ s) n =
    let d = digit_value c in
    let n' = n * radix + d in
    let rest = scan_digits radix max s n' in
    if ltb d radix then (if ltb max n' then none else rest) else none

-- One `+` may stand in front; no digits is an error.
unfoldable pub from_str_radix : ℕ → ℕ → Str → Option ℕ
unfolding scan_digits
from_str_radix radix max [] = none
from_str_radix radix max (c ∷ []) = scan_digits radix max (c ∷ []) 0
from_str_radix radix max (c ∷ d ∷ s) =
    if c == b'+' then scan_digits radix max (d ∷ s) 0 else scan_digits radix max (c ∷ d ∷ s) 0

abbrev pub parse_u16 : Str → Option ℕ
parse_u16 = from_str_radix 10 u16_max

abbrev pub parse_u64 : Str → Option ℕ
parse_u64 = from_str_radix 10 u64_max

-- The digits of a number in a radix, lowest last; `n + 1` rounds are enough for radix 2 and up.
unfoldable pub digits_onto : (ℕ → ℕ) → ℕ → ℕ → ℕ → Str → Str
digits_onto glyph radix zero n out = out
digits_onto glyph radix (suc fuel) n out =
    let more = digits_onto glyph radix fuel (n / radix) (glyph (n % radix) ∷ out) in
    if ltb n radix then glyph n ∷ out else more

-- `n.to_string()`.
unfoldable pub to_string : ℕ → Str
unfolding digits_onto
to_string n = digits_onto (λ d. b'0' + d) 10 (suc n) n []
