-- ===== src/Connection/Hsts/Header.antt =====
-- A `Strict-Transport-Security` header as a server writes it: its directives and their texts.
use ru_ssl.Prelude.{
  ℕ, ◌≤◌, ◌<◌, ◌==◌, ◌≡◌, ◌≢◌, refl, Bool, true, false, List, [], ◌∷◌, ◌++◌, Option, some, All,
  All-append, arith,
}
use ru_ssl.Text.RoundTrip.{parse-to_string, to_string-All, to_string-visible, IsDecimalDigit}
use ru_ssl.Text.{
  Str, codes, to_string, u64_max, parse_u64, eq_ignore_ascii_case, trim_matches-none,
  trim_matches-between, trim-none, is_whitespace, All-map, Lacks,
}
use ru_ssl.Connection.Hsts.{unquote}

-- A directive of RFC 6797 or of the preload list, or a word that is neither.
pub data Directive : Type 0 where
  max_age : ℕ → Directive
  quoted_max_age : ℕ → Directive
  include_subdomains : Directive
  preload : Directive
  other_word : Str → Directive

abbrev pub IsTokenChar : ℕ → Type 0
IsTokenChar c = (33 ≤ c) × (c < 127) × (c ≢ b';')

-- An age fits into a `u64`; another word is visible ASCII with no `=` and no `;`.
abbrev pub IsDirective : Directive → Type 0
IsDirective (max_age n) = n ≤ u64_max
IsDirective (quoted_max_age n) = n ≤ u64_max
IsDirective include_subdomains = Unit
IsDirective preload = Unit
IsDirective (other_word s) =
    All (λ c. IsTokenChar c × (c ≢ b'=')) s
    × (eq_ignore_ascii_case s (codes "includeSubDomains") ≡ false)
    × (eq_ignore_ascii_case s (codes "preload") ≡ false)

abbrev pub directive_text : Directive → Str
directive_text (max_age n) = codes "max-age" ++ (b'=' ∷ to_string n)
directive_text (quoted_max_age n) = codes "max-age" ++ (b'=' ∷ b'"' ∷ (to_string n ++ (b'"' ∷ [])))
directive_text include_subdomains = codes "includeSubDomains"
directive_text preload = codes "preload"
directive_text (other_word s) = s

-- The directives, one at least, with `; ` between them.
unfoldable pub print_hsts : Directive → List Directive → Str
print_hsts d [] = directive_text d
print_hsts d (e ∷ ds) = directive_text d ++ (b';' ∷ b' ' ∷ print_hsts e ds)

abbrev pub age_after : Directive → Option ℕ → Option ℕ
age_after (max_age n) held = some n
age_after (quoted_max_age n) held = some n
age_after _ held = held

-- The age that the last directive with one states.
abbrev pub stated_age : List Directive → Option ℕ → Option ℕ
stated_age [] held = held
stated_age (d ∷ ds) held = stated_age ds (age_after d held)

abbrev pub is_subdomains : Directive → Bool
is_subdomains include_subdomains = true
is_subdomains _ = false

abbrev pub is_preload : Directive → Bool
is_preload preload = true
is_preload _ = false

abbrev pub IsToken : Str → Type 0
IsToken = All IsTokenChar

digits-IsToken : (n : ℕ) → IsToken (to_string n)
digits-IsToken n =
    All-map IsDecimalDigit IsTokenChar (λ c d. omega arith) (to_string n) (to_string-All n)

pub directive_text-IsToken : (d : Directive) → IsDirective d → IsToken (directive_text d)
directive_text-IsToken (max_age n) h =
    All-append IsTokenChar (codes "max-age=") (to_string n) (omega arith) (digits-IsToken n)
directive_text-IsToken (quoted_max_age n) h =
    All-append IsTokenChar (codes "max-age=\"") (to_string n ++ (b'"' ∷ [])) (omega arith)
      (All-append IsTokenChar (to_string n) (b'"' ∷ []) (digits-IsToken n) (omega arith))
directive_text-IsToken include_subdomains h = omega arith
directive_text-IsToken preload h = omega arith
directive_text-IsToken (other_word s) h = All-map _ IsTokenChar (λ c p. p.0) s h.0

pub IsToken-visible : (s : Str) → IsToken s → All (λ c. is_whitespace c ≡ false) s
unfolding is_whitespace
IsToken-visible s h = All-map IsTokenChar _ (λ c p. ground arith) s h

pub IsToken-Lacks : (s : Str) → IsToken s → Lacks b';' s
IsToken-Lacks s h = All-map IsTokenChar _ (λ c p. omega arith) s h

-- Digits, also between quotes, are the number.
abbrev is_quote : ℕ → Bool
is_quote c = c == b'"'

digits-unquoted : (n : ℕ) → All (λ c. is_quote c ≡ false) (to_string n)
digits-unquoted n = All-map IsDecimalDigit _ (λ c d. ground arith) (to_string n) (to_string-All n)

pub age_plain : (n : ℕ) → n ≤ u64_max → parse_u64 (unquote (to_string n)) ≡ some n
age_plain n h =
    rw
      (
        trim-none (to_string n) (to_string-visible n),
        trim_matches-none is_quote (to_string n) (digits-unquoted n),
      )
      (parse-to_string u64_max n h)

pub age_quoted :
    (n : ℕ) → n ≤ u64_max → parse_u64 (unquote (b'"' ∷ (to_string n ++ (b'"' ∷ [])))) ≡ some n
age_quoted n h =
    let quoted = b'"' ∷ (to_string n ++ (b'"' ∷ [])) in
    let visible : IsToken quoted = (
      omega arith,
      All-append IsTokenChar (to_string n) (b'"' ∷ []) (digits-IsToken n) (omega arith),
    ) in
    rw
      (
        trim-none quoted (IsToken-visible quoted visible),
        trim_matches-between is_quote (to_string n) b'"' refl (digits-unquoted n),
      )
      (parse-to_string u64_max n h)
