-- ===== src/Text/Range.antt =====
-- A number that `from_str_radix` or `parse` reads is one of its type.
use ru_ssl.Prelude.{ℕ, ◌+◌, ◌*◌, ◌≤◌, ◌≡◌, [], ◌∷◌, some, arith}
use ru_ssl.Text.Chars.{Str}
use ru_ssl.Text.Number.{digit_value, scan_digits, from_str_radix}

scan_digits_le :
    (radix max : ℕ) (s : Str) (from n : ℕ)
    → from ≤ max
    → scan_digits radix max s from ≡ some n
    → n ≤ max
unfolding scan_digits
scan_digits_le radix max [] from n h e = ground arith
scan_digits_le radix max (c ∷ s) from n h e =
    ground (arith, scan_digits_le radix max s (from * radix + digit_value c) n)

pub from_str_radix_le :
    (radix max : ℕ) (s : Str) (n : ℕ) → from_str_radix radix max s ≡ some n → n ≤ max
unfolding from_str_radix
from_str_radix_le radix max [] n e = ground arith
from_str_radix_le radix max (c ∷ []) n e = scan_digits_le radix max (c ∷ []) 0 n (omega arith) e
from_str_radix_le radix max (c ∷ d ∷ s) n e = ground (
  arith,
  scan_digits_le radix max (d ∷ s) 0 n (omega arith),
  scan_digits_le radix max (c ∷ d ∷ s) 0 n (omega arith),
)
