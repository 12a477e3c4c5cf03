-- ===== src/Connection/Hsts/Laws.antt =====
-- `parse_hsts` of scanner/connection.rs beside a search of the tokens.
use ru_ssl.Prelude.{
  ℕ, ◌≡◌, refl, ap, ◌∙◌, Bool, true, false, not, ◌&&◌, ◌||◌, List, [], ◌∷◌, Option, none, some, any,
  is_some, or_false, or_assoc, arith, if◌then◌else◌,
}
use ru_ssl.Text.{Str, codes, eq_ignore_ascii_case, trim, split, split_once, parse_u64}
use ru_ssl.Connection.Hsts.{
  Directives, no_directives, unquote, read_directive, read_token, read_tokens, hsts_of, parse_hsts,
}

-- A token without `=` that is this word, in any case.
abbrev pub is_flag : Str → Str → Bool
is_flag word token =
    not (is_some (split_once (trim token) b'=')) && eq_ignore_ascii_case (trim token) word

-- The value of a token that is a `max-age` directive; the outer option says whether it is one.
abbrev pub age_parts : Option (Str × Str) → Option (Option ℕ)
age_parts none = none
age_parts (some (k, v)) =
    if eq_ignore_ascii_case (trim k) (codes "max-age") then some (parse_u64 (unquote v)) else none

abbrev pub age_of : Str → Option (Option ℕ)
age_of token = age_parts (split_once (trim token) b'=')

-- The value of the last `max-age` directive, which may be none; otherwise what was held.
abbrev pub keep_age : Option (Option ℕ) → Option ℕ → Option ℕ
keep_age none held = held
keep_age (some age) held = age

abbrev pub last_age : List Str → Option ℕ → Option ℕ
last_age [] held = held
last_age (token ∷ tokens) held = last_age tokens (keep_age (age_of token) held)

-- The two flags are different words.
one_flag :
    (t : Str)
    → eq_ignore_ascii_case t (codes "includeSubDomains") ≡ true
    → eq_ignore_ascii_case t (codes "preload") ≡ false
unfolding eq_ignore_ascii_case
one_flag [] h = refl
one_flag (c ∷ t) h = ground arith

-- What one token changes.
abbrev expected : Directives → Str → Directives
expected d token = record {
  age = keep_age (age_of token) d.age;
  subdomains = d.subdomains || is_flag (codes "includeSubDomains") token;
  preloaded = d.preloaded || is_flag (codes "preload") token;
}

read_directive_lem :
    (d : Directives) (token : Str) (o : Option (Str × Str))
    → read_directive d token o ≡ record {
      age = keep_age (age_parts o) d.age;
      subdomains =
          d.subdomains
          || (not (is_some o) && eq_ignore_ascii_case token (codes "includeSubDomains"));
      preloaded = d.preloaded || (not (is_some o) && eq_ignore_ascii_case token (codes "preload"));
    }
read_directive_lem d token none = ground (arith, one_flag token)
read_directive_lem d token (some (k, v)) = ground arith

read_token_lem : (d : Directives) (token : Str) → read_token d token ≡ expected d token
read_token_lem d token = read_directive_lem d (trim token) (split_once (trim token) b'=')

read_tokens_lem :
    (tokens : List Str) (d : Directives)
    → read_tokens tokens d ≡ record {
      age = last_age tokens d.age;
      subdomains = d.subdomains || any (is_flag (codes "includeSubDomains")) tokens;
      preloaded = d.preloaded || any (is_flag (codes "preload")) tokens;
    }
unfolding read_tokens
read_tokens_lem [] d = rw (or_false d.subdomains, or_false d.preloaded)
read_tokens_lem (token ∷ tokens) d =
    ap (read_tokens tokens) (read_token_lem d token)
    ∙ read_tokens_lem tokens (expected d token)
    ∙ rw (or_assoc d.subdomains, or_assoc d.preloaded)

-- A header that is there is reported with its text; a flag is set exactly if some token is that
-- word, and the age is that of the last `max-age` token, or none.
pub parse_hsts_lem :
    (raw : Str)
    → parse_hsts (some raw) ≡ record {
      present = true;
      max_age = last_age (split raw b';') none;
      include_subdomains = any (is_flag (codes "includeSubDomains")) (split raw b';');
      preload = any (is_flag (codes "preload")) (split raw b';');
      header = some raw;
    }
unfolding parse_hsts
parse_hsts_lem raw = ap (hsts_of raw) (read_tokens_lem (split raw b';') no_directives)
