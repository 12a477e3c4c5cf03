-- ===== src/Http/Search.antt =====
-- `find_subsequence` against the occurrences of the needle.
use mathlib.Core.Option
use ru_ssl.Prelude.{
  ℕ, zero, suc, ◌<◌, ◌≡◌, inl, inr, refl, true, false, [], ◌∷◌, ◌++◌, Option, none, some, arith,
  length, drop, Bool-cases,
}
use ru_ssl.Text.{Bytes, starts_with, Lacks}
use ru_ssl.Http.{find_subsequence, crlf}

-- The needle stands at position `i`.
abbrev pub OccursAt : Bytes → Bytes → ℕ → Type 0
OccursAt haystack needle i = starts_with (drop i haystack) needle ≡ true

-- A position is found exactly if the needle stands there and nowhere before.
abbrev pub IsFirst : Bytes → Bytes → Option ℕ → Type 0
IsFirst haystack needle none = (i : ℕ) → ¬ OccursAt haystack needle i
IsFirst haystack needle (some i) =
    OccursAt haystack needle i
    × (i < length haystack)
    × ((j : ℕ) → j < i → ¬ OccursAt haystack needle j)

nowhere-cons :
    (b : ℕ) (s needle : Bytes)
    → starts_with (b ∷ s) needle ≡ false
    → IsFirst s needle none
    → (i : ℕ) → ¬ OccursAt (b ∷ s) needle i
nowhere-cons b s needle e h zero at = cc
nowhere-cons b s needle e h (suc i) at = h i at

not_before-cons :
    (b : ℕ) (s needle : Bytes) (i : ℕ)
    → starts_with (b ∷ s) needle ≡ false
    → ((j : ℕ) → j < i → ¬ OccursAt s needle j)
    → (j : ℕ) → j < suc i
    → ¬ OccursAt (b ∷ s) needle j
not_before-cons b s needle i e h zero lt at = cc
not_before-cons b s needle i e h (suc j) lt at = h j (omega arith) at

IsFirst-map :
    (b : ℕ) (s needle : Bytes) (o : Option ℕ)
    → starts_with (b ∷ s) needle ≡ false
    → IsFirst s needle o
    → IsFirst (b ∷ s) needle (Option.map suc o)
IsFirst-map b s needle none e h = nowhere-cons b s needle e h
IsFirst-map b s needle (some i) e (at, fits, first) =
    (at, omega arith, not_before-cons b s needle i e first)

starts_with-empty : (p : ℕ) (ps : Bytes) (i : ℕ) → ¬ OccursAt [] (p ∷ ps) i
unfolding starts_with
starts_with-empty p ps zero at = cc
starts_with-empty p ps (suc i) at = cc

-- For a needle that is not empty, `find_subsequence` returns the first position at which the
-- needle occurs, which lies inside the haystack, or nothing if it occurs nowhere.
pub find_subsequence-IsFirst :
    (haystack : Bytes) (p : ℕ) (ps : Bytes)
    → IsFirst haystack (p ∷ ps) (find_subsequence haystack (p ∷ ps))
unfolding find_subsequence
find_subsequence-IsFirst [] p ps = starts_with-empty p ps
find_subsequence-IsFirst (b ∷ s) p ps = elim (Bool-cases (starts_with (b ∷ s) (p ∷ ps))) [
  | inl here ↦ rw here (here, omega arith, λ j lt. absurd (omega arith))
  | inr later ↦ rw later (IsFirst-map b s (p ∷ ps) _ later (find_subsequence-IsFirst s p ps))
]

-- A line end is found behind text that holds no carriage return.
pub find_subsequence-crlf :
    (a rest : Bytes) → Lacks 13 a → find_subsequence (a ++ (crlf ++ rest)) crlf ≡ some (length a)
unfolding find_subsequence
find_subsequence-crlf [] [] h = refl
find_subsequence-crlf [] (r ∷ rest) h = refl
find_subsequence-crlf (b ∷ a) rest (hb, ha) = ground (arith, find_subsequence-crlf a rest ha)
