-- ===== src/Text/Split.antt =====
-- Splitting a text at characters.
use mathlib.Core.Option
use ru_ssl.Prelude.{
  ℕ, suc, ◌≡◌, refl, ap, ◌∙◌, ◌≢◌, Bool, true, false, ◌&&◌, List, [], ◌∷◌, ◌++◌, Option, none, some,
  arith, ◌==◌, if◌then◌else◌, All,
}
use ru_ssl.Text.Chars.{Str, is_whitespace}

-- The character before the parts of what follows it: a separator opens a part.
abbrev pub before_parts : Bool → ℕ → List Str → List Str
before_parts true c parts = [] ∷ parts
before_parts false c [] = (c ∷ []) ∷ []
before_parts false c (p ∷ ps) = (c ∷ p) ∷ ps

unfoldable pub split_by : (ℕ → Bool) → Str → List Str
split_by p [] = [] ∷ []
split_by p (c ∷ s) = before_parts (p c) c (split_by p s)

-- `s.split(c)` for a character `c`.
unfoldable pub split : Str → ℕ → List Str
unfolding split_by
split s c = split_by (λ d. d == c) s

abbrev pub non_empty : List Str → List Str
non_empty [] = []
non_empty ([] ∷ ps) = non_empty ps
non_empty ((c ∷ p) ∷ ps) = (c ∷ p) ∷ non_empty ps

unfoldable pub split_whitespace : Str → List Str
split_whitespace s = non_empty (split_by is_whitespace s)

-- `s.split("\r\n")`.
unfoldable pub split_crlf : Str → List Str
split_crlf [] = [] ∷ []
split_crlf (c ∷ []) = (c ∷ []) ∷ []
split_crlf (c ∷ d ∷ s) = elim (c == 13 && d == 10) [
  | true ↦ [] ∷ split_crlf s
  | false ↦ before_parts false c (split_crlf (d ∷ s))
]

-- `s.split_once(c)`: around the first `c`.
unfoldable pub split_once : Str → ℕ → Option (Str × Str)
split_once [] c = none
split_once (x ∷ s) c =
    if x == c then some ([], s) else Option.map (λ (p : Str × Str). (x ∷ p.0, p.1)) (split_once s c)

-- `s.rsplit_once(c)`: around the last `c`.
unfoldable pub rsplit_once : Str → ℕ → Option (Str × Str)
rsplit_once [] c = none
rsplit_once (x ∷ s) c = elim (rsplit_once s c) [
  | some (a, b) ↦ some (x ∷ a, b)
  | none ↦ if x == c then some ([], s) else none
]

-- `s.find(c)`: how many characters stand before the first `c`.
unfoldable pub find_char : Str → ℕ → Option ℕ
find_char [] c = none
find_char (x ∷ s) c = if x == c then some 0 else Option.map suc (find_char s c)

-- `parts.join(separator)`.
unfoldable pub join : List Str → Str → Str
join [] sep = []
join (p ∷ []) sep = p
join (p ∷ q ∷ ps) sep = p ++ (sep ++ join (q ∷ ps) sep)

abbrev pub Lacks : ℕ → Str → Type 0
Lacks c = All (λ d. d ≢ c)

pub split_once-append : (a b : Str) (c : ℕ) → Lacks c a → split_once (a ++ (c ∷ b)) c ≡ some (a, b)
unfolding split_once
split_once-append [] b c h = ground arith
split_once-append (x ∷ a) b c (hx, ha) = ground (arith, split_once-append a b c ha)

pub split_once-Lacks : (s : Str) (c : ℕ) → Lacks c s → split_once s c ≡ none
unfolding split_once
split_once-Lacks [] c h = refl
split_once-Lacks (x ∷ s) c (hx, hs) = ground (arith, split_once-Lacks s c hs)

pub rsplit_once-none : (s : Str) (c : ℕ) → Lacks c s → rsplit_once s c ≡ none
unfolding rsplit_once
rsplit_once-none [] c h = refl
rsplit_once-none (x ∷ s) c (hx, hs) = ground (arith, rsplit_once-none s c hs)

pub rsplit_once-append :
    (a b : Str) (c : ℕ) → Lacks c b → rsplit_once (a ++ (c ∷ b)) c ≡ some (a, b)
unfolding rsplit_once
rsplit_once-append [] b c h = ground (arith, rsplit_once-none b c h)
rsplit_once-append (x ∷ a) b c h = ground (arith, rsplit_once-append a b c h)

pub split-Lacks : (s : Str) (c : ℕ) → Lacks c s → split s c ≡ s ∷ []
unfolding split
split-Lacks [] c h = refl
split-Lacks (x ∷ s) c (hx, hs) = ground (arith, split-Lacks s c hs)

pub split-append : (a b : Str) (c : ℕ) → Lacks c a → split (a ++ (c ∷ b)) c ≡ a ∷ split b c
unfolding split
split-append [] b c h = ground arith
split-append (x ∷ a) b c (hx, ha) = ground (arith, split-append a b c ha)

split_by-append :
    (p : ℕ → Bool) (a b : Str) (c : ℕ)
    → All (λ d. p d ≡ false) a
    → p c ≡ true
    → split_by p (a ++ (c ∷ b)) ≡ a ∷ split_by p b
unfolding split_by
split_by-append p [] b c h e = rw e
split_by-append p (x ∷ a) b c (hx, ha) e = rw (split_by-append p a b c ha e, hx)

-- The first word of a text that does not begin with white space.
pub split_whitespace-append :
    (x c : ℕ) (a b : Str)
    → All (λ d. is_whitespace d ≡ false) (x ∷ a)
    → is_whitespace c ≡ true
    → split_whitespace ((x ∷ a) ++ (c ∷ b)) ≡ (x ∷ a) ∷ split_whitespace b
unfolding split_whitespace
split_whitespace-append x c a b h e = ap non_empty (split_by-append is_whitespace (x ∷ a) b c h e)

split_crlf-skip :
    (c d : ℕ) (s : Str)
    → c ≢ 13
    → split_crlf (c ∷ d ∷ s) ≡ before_parts false c (split_crlf (d ∷ s))
unfolding split_crlf
split_crlf-skip c d s h = ground arith

pub split_crlf-Lacks : (a : Str) → Lacks 13 a → split_crlf a ≡ a ∷ []
split_crlf-Lacks [] h = unfold split_crlf in refl
split_crlf-Lacks (x ∷ []) h = unfold split_crlf in refl
split_crlf-Lacks (x ∷ y ∷ a) (hx, h) =
    split_crlf-skip x y a hx ∙ ap (before_parts false x) (split_crlf-Lacks (y ∷ a) h)

pub split_crlf-append :
    (a rest : Str) → Lacks 13 a → split_crlf (a ++ (13 ∷ 10 ∷ rest)) ≡ a ∷ split_crlf rest
split_crlf-append [] rest h = unfold split_crlf in refl
split_crlf-append (x ∷ []) rest (hx, h) =
    split_crlf-skip x 13 (10 ∷ rest) hx ∙ ap (before_parts false x) (split_crlf-append [] rest h)
split_crlf-append (x ∷ y ∷ a) rest (hx, h) =
    split_crlf-skip x y (a ++ (13 ∷ 10 ∷ rest)) hx
    ∙ ap (before_parts false x) (split_crlf-append (y ∷ a) rest h)

pub All-map : (P Q : ℕ → Type 0) → ((c : ℕ) → P c → Q c) → (s : Str) → All P s → All Q s
All-map P Q f [] h = tt
All-map P Q f (c ∷ s) (hc, hs) = (f c hc, All-map P Q f s hs)
