-- ===== src/Text/Chars.antt =====
-- Characters and whole texts: literals, comparison, search and trimming.
use Prim.Native.Char.{code}
use Prim.Native.String.{String}
use mathlib.Core.Bool.{false≢true}
use ru_ssl.Prelude.{
  sym, ◌∙◌, ℕ, ◌+◌, ◌≡◌, ◌<◌, refl, Bool, true, false, ◌&&◌, ◌||◌, List, [], ◌∷◌, ◌++◌, Option,
  none, some, arith, leb, ◌==◌, ◌↔◌, ap, inl, inr, Bool-cases, All, if◌then◌else◌,
}

abbrev pub Str : Type 0
Str = List ℕ

abbrev pub Bytes : Type 0
Bytes = List ℕ

abbrev pub AllBytes : Bytes → Type 0
AllBytes = All (λ b. b < 256)

-- The characters of a literal.
abbrev pub codes : String → Str
codes String.[] = []
codes (String.◌∷◌ c s) = code c ∷ codes s

abbrev pub within : ℕ → ℕ → ℕ → Bool
within lo hi c = leb lo c && leb c hi

-- `u8::is_ascii_whitespace`.
unfoldable pub is_ascii_whitespace : ℕ → Bool
is_ascii_whitespace c = c == 32 || c == 9 || c == 10 || c == 12 || c == 13

-- `char::is_whitespace`, the Unicode property White_Space.
unfoldable pub is_whitespace : ℕ → Bool
is_whitespace c =
    c == 32
    || within 9 13 c
    || c == 0x85
    || c == 0xa0
    || c == 0x1680
    || within 0x2000 0x200a c
    || c == 0x2028
    || c == 0x2029
    || c == 0x202f
    || c == 0x205f
    || c == 0x3000

abbrev pub to_ascii_lowercase : ℕ → ℕ
to_ascii_lowercase c = if within b'A' b'Z' c then c + 32 else c

unfoldable pub eq_ignore_ascii_case : Str → Str → Bool
eq_ignore_ascii_case [] [] = true
eq_ignore_ascii_case (x ∷ xs) (y ∷ ys) =
    to_ascii_lowercase x == to_ascii_lowercase y && eq_ignore_ascii_case xs ys
eq_ignore_ascii_case _ _ = false

-- `==` on texts and on byte slices.
unfoldable pub str_eq : Str → Str → Bool
str_eq [] [] = true
str_eq (x ∷ xs) (y ∷ ys) = x == y && str_eq xs ys
str_eq _ _ = false

pub str_eq_iff : (s t : Str) → (str_eq s t ≡ true) ↔ (s ≡ t)
unfolding str_eq
str_eq_iff (x ∷ s) (y ∷ t) = ground (arith, str_eq_iff s t)
str_eq_iff _ _ = ground arith

pub str_eq_refl : (s : Str) → str_eq s s ≡ true
str_eq_refl s = (str_eq_iff s s).1 refl

pub str_ne : (s t : Str) → str_eq s t ≡ false → ¬ (s ≡ t)
str_ne s t h e = false≢true (sym h ∙ (str_eq_iff s t).1 e)

-- `s.starts_with(pattern)`.
unfoldable pub starts_with : Str → Str → Bool
starts_with s [] = true
starts_with [] (p ∷ ps) = false
starts_with (x ∷ xs) (p ∷ ps) = x == p && starts_with xs ps

-- `s.contains(pattern)`.
unfoldable pub contains : Str → Str → Bool
unfolding starts_with
contains [] pattern = starts_with [] pattern
contains (x ∷ xs) pattern = starts_with (x ∷ xs) pattern || contains xs pattern

-- `s.strip_prefix(prefix)`.
unfoldable pub strip_prefix : Str → Str → Option Str
strip_prefix s [] = some s
strip_prefix [] (p ∷ ps) = none
strip_prefix (x ∷ xs) (p ∷ ps) = if x == p then strip_prefix xs ps else none

unfoldable pub trim_start_matches : (ℕ → Bool) → Str → Str
trim_start_matches p [] = []
trim_start_matches p (c ∷ s) = if p c then trim_start_matches p s else c ∷ s

-- A character stands unless it matches and all behind it was cut.
abbrev keep_before : Bool → ℕ → Str → Str
keep_before true c [] = []
keep_before false c [] = c ∷ []
keep_before matches c (d ∷ s) = c ∷ d ∷ s

unfoldable pub trim_end_matches : (ℕ → Bool) → Str → Str
trim_end_matches p [] = []
trim_end_matches p (c ∷ s) = keep_before (p c) c (trim_end_matches p s)

unfoldable pub trim_matches : (ℕ → Bool) → Str → Str
unfolding trim_start_matches trim_end_matches
trim_matches p s = trim_end_matches p (trim_start_matches p s)

unfoldable pub trim : Str → Str
unfolding trim_matches is_whitespace
trim = trim_matches is_whitespace

pub strip_prefix-append : (p s : Str) → strip_prefix (p ++ s) p ≡ some s
unfolding strip_prefix
strip_prefix-append [] s = refl
strip_prefix-append (c ∷ p) s = ground (arith, strip_prefix-append p s)

-- Whatever `strip_prefix` returns stood behind the prefix.
pub strip_prefix_sound : (s p : Str) {r : Str} → strip_prefix s p ≡ some r → s ≡ p ++ r
unfolding strip_prefix
strip_prefix_sound s [] h = ground arith
strip_prefix_sound [] (p ∷ ps) h = ground arith
strip_prefix_sound (x ∷ xs) (p ∷ ps) {r} h = ground (arith, strip_prefix_sound xs ps {r = r})

pub starts_with-append : (p s : Str) → starts_with (p ++ s) p ≡ true
unfolding starts_with
starts_with-append [] s = starts_with-nil s
  where
    starts_with-nil : (s : Str) → starts_with s [] ≡ true
    starts_with-nil [] = refl
    starts_with-nil (c ∷ s) = refl
starts_with-append (c ∷ p) s = ground (arith, starts_with-append p s)

starts_with_sound : (s p : Str) → starts_with s p ≡ true → (r : Str) × (s ≡ p ++ r)
unfolding starts_with
starts_with_sound s [] h = (s, refl)
starts_with_sound [] (p ∷ ps) h = cc
starts_with_sound (x ∷ xs) (p ∷ ps) h =
    let (r, e) = starts_with_sound xs ps (ground arith) in (r, ground arith)

pub contains-append : (a p b : Str) → contains (a ++ (p ++ b)) p ≡ true
unfolding contains
contains-append [] [] [] = refl
contains-append [] [] (c ∷ b) = refl
contains-append [] (c ∷ p) b = ground (arith, starts_with-append (c ∷ p) b)
contains-append (c ∷ a) p b = ground (arith, contains-append a p b)

-- `contains` finds only what is there.
pub contains_sound : (s p : Str) → contains s p ≡ true → (a : Str) × (b : Str) × (s ≡ a ++ (p ++ b))
unfolding contains
contains_sound [] p h = let (r, e) = starts_with_sound [] p h in ([], r, e)
contains_sound (x ∷ xs) p h = elim (Bool-cases (starts_with (x ∷ xs) p)) [
  | inl here ↦ let (r, e) = starts_with_sound (x ∷ xs) p here in ([], r, e)
  | inr later ↦ let (a, b, e) = contains_sound xs p (ground arith) in (x ∷ a, b, ap (◌∷◌ x) e)
]

trim_start_matches-none :
    (p : ℕ → Bool) (s : Str) → All (λ c. p c ≡ false) s → trim_start_matches p s ≡ s
unfolding trim_start_matches
trim_start_matches-none p [] h = refl
trim_start_matches-none p (c ∷ s) (hc, hs) = rw hc

keep_before-none : (c : ℕ) (s : Str) → keep_before false c s ≡ c ∷ s
keep_before-none c [] = refl
keep_before-none c (d ∷ s) = refl

trim_end_matches-none :
    (p : ℕ → Bool) (s : Str) → All (λ c. p c ≡ false) s → trim_end_matches p s ≡ s
unfolding trim_end_matches
trim_end_matches-none p [] h = refl
trim_end_matches-none p (c ∷ s) (hc, hs) =
    rw (trim_end_matches-none p s hs) (rw hc (keep_before-none c s))

trim_end_matches-append :
    (p : ℕ → Bool) (s : Str) (q : ℕ)
    → p q ≡ true
    → All (λ c. p c ≡ false) s
    → trim_end_matches p (s ++ (q ∷ [])) ≡ s
unfolding trim_end_matches
trim_end_matches-append p [] q hq h = rw hq
trim_end_matches-append p (c ∷ s) q hq (hc, hs) =
    rw (trim_end_matches-append p s q hq hs) (rw hc (keep_before-none c s))

pub trim_matches-none : (p : ℕ → Bool) (s : Str) → All (λ c. p c ≡ false) s → trim_matches p s ≡ s
unfolding trim_matches
trim_matches-none p s h = rw (trim_start_matches-none p s h, trim_end_matches-none p s h)

-- A matching character on each side is cut.
pub trim_matches-between :
    (p : ℕ → Bool) (s : Str) (q : ℕ)
    → p q ≡ true
    → All (λ c. p c ≡ false) s
    → trim_matches p (q ∷ (s ++ (q ∷ []))) ≡ s
unfolding trim_matches trim_start_matches
trim_matches-between p [] q hq h = rw hq (unfold trim_end_matches in refl)
trim_matches-between p (c ∷ s) q hq (hc, hs) =
    rw hq (rw hc (trim_end_matches-append p (c ∷ s) q hq (hc, hs)))

-- A text with no white space is its own trimming.
pub trim-none : (s : Str) → All (λ c. is_whitespace c ≡ false) s → trim s ≡ s
unfolding trim
trim-none s h = trim_matches-none is_whitespace s h
