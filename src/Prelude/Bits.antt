-- ===== src/Prelude/Bits.antt =====
-- The bit operations of the source as arithmetic: a mask and a flag on one byte by a table, and
-- the join of a byte below a shifted number by the digit recursion.
use Prim.Native.Nat.{
  ℕ, zero, suc, ◌+◌, ◌*◌, ◌/◌, ◌%◌, ◌≤◌, ◌<◌, max, bit_and, bit_or, digits, bit_or-bitwise,
}
use mathlib.Core.Path.{◌≡◌, refl, ◌∙◌}
use mathlib.Core.Bool.{Bool, true, ◌&&◌}
use native.Mathlib.Omega.{arith}
use ru_ssl.Prelude.Tests.{◌==◌}

agrees_below : (ℕ → ℕ) → (ℕ → ℕ) → ℕ → Bool
agrees_below f g zero = true
agrees_below f g (suc n) = f n == g n && agrees_below f g n

agrees_below_sound : (f g : ℕ → ℕ) (n x : ℕ) → agrees_below f g n ≡ true → x < n → f x ≡ g x
unfolding agrees_below
agrees_below_sound f g zero x h lt = absurd (omega arith)
agrees_below_sound f g (suc n) x h lt = ground (arith, agrees_below_sound f g n x)

pub bit_and_0x7f : (b : ℕ) → b < 256 → bit_and b 0x7f ≡ b % 128
unfolding agrees_below
bit_and_0x7f b h = agrees_below_sound (λ b. bit_and b 0x7f) (λ b. b % 128) 256 b refl h

pub bit_and_0x80 : (b : ℕ) → b < 256 → bit_and b 0x80 ≡ b / 128 * 128
unfolding agrees_below
bit_and_0x80 b h = agrees_below_sound (λ b. bit_and b 0x80) (λ b. b / 128 * 128) 256 b refl h

pub bit_or_0x80 : (b : ℕ) → b < 128 → bit_or 0x80 b ≡ 128 + b
unfolding agrees_below
bit_or_0x80 b h = agrees_below_sound (λ b. bit_or 0x80 b) (λ b. 128 + b) 128 b refl h

-- The recursion that `bit_or` stands for, on fuel.
abbrev or_rounds : ℕ → ℕ → ℕ → ℕ
or_rounds fuel x y = digits (λ d. d) max fuel x y

-- Any fuel that reaches the first number gives the same digits.
or_rounds_enough :
    (x y fuel fuel' : ℕ) → x ≤ fuel → x ≤ fuel' → or_rounds fuel x y ≡ or_rounds fuel' x y
or_rounds_enough (suc x) y zero fuel' few _ = absurd (omega arith)
or_rounds_enough (suc x) y (suc fuel) zero _ few = absurd (omega arith)
or_rounds_enough (suc x) y (suc fuel) (suc fuel') enough enough' =
    let half : suc x / 2 ≤ fuel = omega arith in
    let half' : suc x / 2 ≤ fuel' = omega arith in
    omega (arith, or_rounds_enough (suc x / 2) (y / 2) fuel fuel' half half')
or_rounds_enough zero y (suc fuel) (suc fuel') _ _ = refl
or_rounds_enough zero y (suc fuel) zero _ _ = refl
or_rounds_enough zero y zero (suc fuel') _ _ = refl
or_rounds_enough zero y zero zero _ _ = refl

bit_or_step : (x y : ℕ) → bit_or x y ≡ max (x % 2) (y % 2) + 2 * bit_or (x / 2) (y / 2)
bit_or_step (suc x) y =
    let enough : or_rounds x (suc x / 2) (y / 2) ≡ or_rounds (suc x / 2) (suc x / 2) (y / 2) =
      or_rounds_enough (suc x / 2) (y / 2) x (suc x / 2) (omega arith) (omega arith) in
    omega (arith, bit_or-bitwise (suc x / 2) (y / 2), enough, bit_or-bitwise (suc x) y)
bit_or_step zero y = omega (arith, bit_or-bitwise 0 (y / 2), bit_or-bitwise 0 y)

zero_below : (bound x : ℕ) → x ≤ bound → bit_or x 0 ≡ x
zero_below bound zero le = refl
zero_below (suc bound) (suc x) le =
    let half : bit_or (suc x / 2) 0 ≡ suc x / 2 = zero_below bound (suc x / 2) (omega arith) in
    omega (arith, half, bit_or_step (suc x) 0)
zero_below zero (suc x) le = absurd (omega arith)

-- One more bit: a multiple of `m` joined with a number below `m`, both doubled.
abbrev JoinsBelow : ℕ → Type 0
JoinsBelow m = (x b : ℕ) → b < m → bit_or (x * m) b ≡ x * m + b

JoinsBelow-one : JoinsBelow 1
JoinsBelow-one x zero lt = zero_below (x * 1) (x * 1) (omega arith) ∙ omega arith
JoinsBelow-one x (suc b) lt = absurd (omega arith)

JoinsBelow-double : (m n : ℕ) → n ≡ m * 2 → JoinsBelow m → JoinsBelow n
JoinsBelow-double m n e joins x b lt =
    let half : x * n / 2 ≡ x * m = rw e (omega arith) in
    let even : x * n % 2 ≡ 0 = rw e (omega arith) in
    let twice : x * n ≡ x * m * 2 = rw e (omega arith) in
    let low : bit_or (x * n / 2) (b / 2) ≡ x * m + b / 2 =
      rw half (joins x (b / 2) (omega arith)) in
    omega (arith, bit_or_step (x * n) b)

JoinsBelow-byte : JoinsBelow 256
JoinsBelow-byte = JoinsBelow-double 128 256 refl (
    JoinsBelow-double 64 128 refl (
      JoinsBelow-double 32 64 refl (
        JoinsBelow-double 16 32 refl (
          JoinsBelow-double 8 16 refl (
            JoinsBelow-double 4 8 refl
              (JoinsBelow-double 2 4 refl (JoinsBelow-double 1 2 refl JoinsBelow-one)))))))

-- `(x << 8) | b` for a byte `b`.
pub bit_or_byte : (x b : ℕ) → b < 256 → bit_or (x * 256) b ≡ x * 256 + b
bit_or_byte = JoinsBelow-byte
