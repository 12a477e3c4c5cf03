-- ===== src/Text/Utf8.antt =====
-- UTF-8: `str::from_utf8`, `String::from_utf8_lossy` and `as_bytes`.
use ru_ssl.Prelude.{
  ℕ, zero, suc, ◌+◌, ◌-◌, ◌*◌, ◌/◌, ◌%◌, ◌≤◌, ◌<◌, ◌≡◌, refl, ap, ◌⊎◌, inl, List, [], ◌∷◌, ◌++◌,
  Option, none, some, arith, ltb, ◌==◌, if◌then◌else◌, All,
}
use mathlib.Core.Option
use ru_ssl.Text.Chars.{Str, Bytes, within}

-- Between characters, or inside one: the bytes still to come, the range of the next, the value.
pub data State : Type 0 where
  start : State
  inside : ℕ → ℕ → ℕ → ℕ → State

-- What a byte yields, `none` for an invalid sequence, and the next state.
abbrev Yield : Type 0
Yield = List (Option ℕ) × State

-- The first byte of a character.
abbrev lead : ℕ → Yield
lead b =
    if ltb b 0x80
    then (some b ∷ [], start)
    else if within 0xc2 0xdf b
    then ([], inside 0 0x80 0xbf (b - 0xc0))
    else if b == 0xe0
    then ([], inside 1 0xa0 0xbf 0)
    else if b == 0xed
    then ([], inside 1 0x80 0x9f 13)
    else if within 0xe1 0xef b
    then ([], inside 1 0x80 0xbf (b - 0xe0))
    else if b == 0xf0
    then ([], inside 2 0x90 0xbf 0)
    else if within 0xf1 0xf3 b
    then ([], inside 2 0x80 0xbf (b - 0xf0))
    else if b == 0xf4
    then ([], inside 2 0x80 0x8f 4)
    else (none ∷ [], start)

abbrev continue : ℕ → ℕ → Yield
continue zero value = (some value ∷ [], start)
continue (suc more) value = ([], inside more 0x80 0xbf value)

-- A byte out of range ends an invalid sequence, and is read again as a first byte.
abbrev step : State → ℕ → Yield
step start b = lead b
step (inside more lo hi value) b =
    if within lo hi b
    then continue more (value * 64 + (b - 0x80))
    else (none ∷ (lead b).0, (lead b).1)

unfoldable pub decode : State → Bytes → List (Option ℕ)
decode start [] = []
decode (inside more lo hi value) [] = none ∷ []
decode st (b ∷ s) = (step st b).0 ++ decode (step st b).1 s

replace_invalid : List (Option ℕ) → Str
replace_invalid [] = []
replace_invalid (none ∷ cs) = 0xfffd ∷ replace_invalid cs
replace_invalid (some c ∷ cs) = c ∷ replace_invalid cs

all_valid : List (Option ℕ) → Option Str
all_valid [] = some []
all_valid (none ∷ cs) = none
all_valid (some c ∷ cs) = Option.map (◌∷◌ c) (all_valid cs)

unfoldable pub from_utf8_lossy : Bytes → Str
unfolding decode replace_invalid
from_utf8_lossy s = replace_invalid (decode start s)

unfoldable pub from_utf8 : Bytes → Option Str
unfolding decode all_valid
from_utf8 s = all_valid (decode start s)

unfoldable pub encode_char : ℕ → Bytes
encode_char c =
    if ltb c 0x80
    then c ∷ []
    else if ltb c 0x800
    then (0xc0 + c / 64) ∷ (0x80 + c % 64) ∷ []
    else if ltb c 0x10000
    then (0xe0 + c / 4096) ∷ (0x80 + c / 64 % 64) ∷ (0x80 + c % 64) ∷ []
    else (0xf0 + c / 262144) ∷ (0x80 + c / 4096 % 64) ∷ (0x80 + c / 64 % 64) ∷ (0x80 + c % 64) ∷ []

unfoldable pub as_bytes : Str → Bytes
unfolding encode_char
as_bytes [] = []
as_bytes (c ∷ s) = encode_char c ++ as_bytes s

-- A Unicode scalar value.
abbrev pub IsScalar : ℕ → Type 0
IsScalar c = (c < 0xd800) ⊎ ((0xe000 ≤ c) × (c < 0x110000))

decode-encode_char :
    (c : ℕ) (s : Bytes) → IsScalar c → decode start (encode_char c ++ s) ≡ some c ∷ decode start s
unfolding decode encode_char
decode-encode_char c s h = ground arith

pub from_utf8-as_bytes : (s : Str) → All IsScalar s → from_utf8 (as_bytes s) ≡ some s
unfolding from_utf8 as_bytes
from_utf8-as_bytes [] h = refl
from_utf8-as_bytes (c ∷ s) (hc, hs) =
    rw (decode-encode_char c (as_bytes s) hc) (rw (from_utf8-as_bytes s hs))

pub from_utf8_lossy-as_bytes : (s : Str) → All IsScalar s → from_utf8_lossy (as_bytes s) ≡ s
unfolding from_utf8_lossy as_bytes
from_utf8_lossy-as_bytes [] h = refl
from_utf8_lossy-as_bytes (c ∷ s) (hc, hs) =
    rw (decode-encode_char c (as_bytes s) hc) (ap (◌∷◌ c) (from_utf8_lossy-as_bytes s hs))

abbrev pub IsAscii : ℕ → Type 0
IsAscii c = c < 128

pub as_bytes-ascii : (s : Str) → All IsAscii s → as_bytes s ≡ s
unfolding as_bytes
as_bytes-ascii [] h = refl
as_bytes-ascii (c ∷ s) (hc, hs) = ground (arith, as_bytes-ascii s hs)

ascii-IsScalar : (s : Str) → All IsAscii s → All IsScalar s
ascii-IsScalar [] h = tt
ascii-IsScalar (c ∷ s) (hc, hs) = (inl (omega arith), ascii-IsScalar s hs)

pub from_utf8-ascii : (s : Str) → All IsAscii s → from_utf8 s ≡ some s
from_utf8-ascii s h = rw (as_bytes-ascii s h) at (from_utf8-as_bytes s (ascii-IsScalar s h))

pub from_utf8_lossy-ascii : (s : Str) → All IsAscii s → from_utf8_lossy s ≡ s
from_utf8_lossy-ascii s h =
    rw (as_bytes-ascii s h) at (from_utf8_lossy-as_bytes s (ascii-IsScalar s h))
