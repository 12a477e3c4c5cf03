-- ===== src/Text/RoundTrip.antt =====
-- Numbers written as digits, and read from them, in any radix.
use ru_ssl.Prelude.{
  ℕ, zero, suc, ◌+◌, ◌-◌, ◌*◌, ◌/◌, ◌%◌, ◌≤◌, ◌<◌, ◌≡◌, refl, ap, if◌then◌else◌, ◌∙◌, ◌≢◌, [], ◌∷◌,
  false, some, arith, ltb, All, ◌⊎◌, Bool-cases, inl, inr,
}
use native.Mathlib.Nat.{div-add-mod', div-le_self, div-lt_self, mod-lt}
use ru_ssl.Text.Chars.{Str, is_whitespace}
use ru_ssl.Text.Split.{All-map}
use ru_ssl.Text.Number.{digit_value, scan_digits, from_str_radix, digits_onto, to_string}

from_str_radix-scan :
    (radix max c : ℕ) (s : Str)
    → c ≢ b'+'
    → from_str_radix radix max (c ∷ s) ≡ scan_digits radix max (c ∷ s) 0
unfolding from_str_radix
from_str_radix-scan radix max c [] h = refl
from_str_radix-scan radix max c (d ∷ s) h = ground arith

module _ (glyph : ℕ → ℕ) (radix max : ℕ) (wide : 2 ≤ radix)
    (reads : (d : ℕ) → d < radix → digit_value (glyph d) ≡ d) where
  scan-glyph :
      (d n : ℕ) (out : Str)
      → d < radix
      → n * radix + d ≤ max
      → scan_digits radix max (glyph d ∷ out) n ≡ scan_digits radix max out (n * radix + d)
  unfolding scan_digits
  scan-glyph d n out h fits = rw (reads d h) (ground arith)

  scan-digits_onto :
      (fuel n : ℕ) (out : Str)
      → n < fuel
      → n ≤ max
      → scan_digits radix max (digits_onto glyph radix fuel n out) 0 ≡ scan_digits radix max out n
  unfolding digits_onto
  scan-digits_onto zero n out h fits = absurd (omega arith)
  scan-digits_onto (suc fuel) n out h fits = elim (Bool-cases (ltb n radix)) [
    | inl last ↦ rw last (
        scan-glyph n 0 out (ground arith) (omega arith)
        ∙ ap (scan_digits radix max out) (omega arith))
    | inr more ↦
        let whole : n / radix * radix + n % radix ≡ n = div-add-mod' n radix in
        rw more (
          scan-digits_onto fuel (n / radix) (glyph (n % radix) ∷ out)
            (omega (arith, div-lt_self {n = n} (ground arith) wide))
            (omega (arith, div-le_self n radix))
          ∙ scan-glyph (n % radix) (n / radix) out (mod-lt n (omega arith)) (omega arith)
          ∙ ap (scan_digits radix max out) whole)
  ]

  digits_onto-head :
      (fuel n : ℕ) (out : Str)
      → n < fuel
      → (d : ℕ) × (s : Str) × (d < radix) × (digits_onto glyph radix fuel n out ≡ glyph d ∷ s)
  unfolding digits_onto
  digits_onto-head zero n out h = absurd (omega arith)
  digits_onto-head (suc fuel) n out h = elim (Bool-cases (ltb n radix)) [
    | inl last ↦ (n, out, ground arith, rw last)
    | inr more ↦
        let (d, s, lt, e) =
          digits_onto-head fuel (n / radix) (glyph (n % radix) ∷ out)
            (omega (arith, div-lt_self {n = n} (ground arith) wide)) in
        (d, s, lt, rw more e)
  ]

  digits_onto-All :
      (P : ℕ → Type 0)
      → ((d : ℕ) → d < radix → P (glyph d))
      → (fuel n : ℕ) (out : Str) → n < fuel
      → All P out
      → All P (digits_onto glyph radix fuel n out)
  unfolding digits_onto
  digits_onto-All P each zero n out h rest = absurd (omega arith)
  digits_onto-All P each (suc fuel) n out h rest = elim (Bool-cases (ltb n radix)) [
    | inl last ↦ rw last (each n (ground arith), rest)
    | inr more ↦ rw more (
        digits_onto-All P each fuel (n / radix) (glyph (n % radix) ∷ out)
          (omega (arith, div-lt_self {n = n} (ground arith) wide))
          (each (n % radix) (mod-lt n (omega arith)), rest))
  ]

  from_str_radix-digits_onto :
      (n : ℕ)
      → n ≤ max
      → ((d : ℕ) → d < radix → glyph d ≢ b'+')
      → from_str_radix radix max (digits_onto glyph radix (suc n) n []) ≡ some n
  from_str_radix-digits_onto n fits plain =
      let (d, s, lt, e) = digits_onto-head (suc n) n [] (omega arith) in
      rw e (
        from_str_radix-scan radix max (glyph d) s (plain d lt)
        ∙ rw (← e) (scan-digits_onto (suc n) n [] (omega arith) fits ∙ unfold scan_digits in refl))

digit_value-decimal : (d : ℕ) → d < 10 → digit_value (b'0' + d) ≡ d
digit_value-decimal d h = ground arith

-- `parse` of an unsigned type reads back what `to_string` prints.
pub parse-to_string : (max n : ℕ) → n ≤ max → from_str_radix 10 max (to_string n) ≡ some n
unfolding to_string
parse-to_string max n fits =
    from_str_radix-digits_onto (λ d. b'0' + d) 10 max (omega arith) digit_value-decimal n fits
      (λ d h. omega arith)

abbrev pub hex_glyph : ℕ → ℕ
hex_glyph d = if ltb d 10 then b'0' + d else b'a' + (d - 10)

-- The lower-case hexadecimal digits of a number.
unfoldable pub to_hex : ℕ → Str
unfolding digits_onto
to_hex n = digits_onto hex_glyph 16 (suc n) n []

digit_value-hex : (d : ℕ) → d < 16 → digit_value (hex_glyph d) ≡ d
digit_value-hex d h = ground arith

pub from_str_radix-to_hex : (max n : ℕ) → n ≤ max → from_str_radix 16 max (to_hex n) ≡ some n
unfolding to_hex
from_str_radix-to_hex max n fits =
    from_str_radix-digits_onto hex_glyph 16 max (omega arith) digit_value-hex n fits
      (λ d h. ground arith)

abbrev pub IsDecimalDigit : ℕ → Type 0
IsDecimalDigit c = (b'0' ≤ c) × (c ≤ b'9')

abbrev pub IsHexDigit : ℕ → Type 0
IsHexDigit c = IsDecimalDigit c ⊎ ((b'a' ≤ c) × (c ≤ b'f'))

pub to_string-All : (n : ℕ) → All IsDecimalDigit (to_string n)
unfolding to_string
to_string-All n =
    digits_onto-All (λ d. b'0' + d) 10 0 (omega arith) digit_value-decimal IsDecimalDigit
      (λ d h. omega arith) (suc n) n [] (omega arith) tt

digit-visible : (c : ℕ) → IsDecimalDigit c → is_whitespace c ≡ false
unfolding is_whitespace
digit-visible c h = ground arith

pub to_string-visible : (n : ℕ) → All (λ c. is_whitespace c ≡ false) (to_string n)
to_string-visible n = All-map IsDecimalDigit _ digit-visible (to_string n) (to_string-All n)

hex_glyph-IsHexDigit : (d : ℕ) → d < 16 → IsHexDigit (hex_glyph d)
hex_glyph-IsHexDigit d h = elim (Bool-cases (ltb d 10)) [
  | inl low ↦ rw low (inl (omega arith, ground arith))
  | inr high ↦ rw high (inr (omega arith, omega arith))
]

pub to_hex-All : (n : ℕ) → All IsHexDigit (to_hex n)
unfolding to_hex
to_hex-All n =
    digits_onto-All hex_glyph 16 0 (omega arith) digit_value-hex IsHexDigit hex_glyph-IsHexDigit
      (suc n) n [] (omega arith) tt

pub to_string-cons : (n : ℕ) → (d : ℕ) × (s : Str) × (to_string n ≡ d ∷ s)
unfolding to_string
to_string-cons n =
    let (d, s, lt, e) =
      digits_onto-head (λ d. b'0' + d) 10 0 (omega arith) digit_value-decimal (suc n) n []
        (omega arith) in
    (b'0' + d, s, e)
