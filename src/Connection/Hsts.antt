-- ===== src/Connection/Hsts.antt =====
-- `parse_hsts`: the directives of a `Strict-Transport-Security` header.
pub mod Laws
pub mod Header
pub mod RoundTrip
pub mod Served
use ru_ssl.Prelude.{ℕ, Bool, true, false, List, [], ◌∷◌, Option, none, some, ◌==◌, if◌then◌else◌}
use ru_ssl.Text.{Str, codes, eq_ignore_ascii_case, trim, trim_matches, split, split_once, parse_u64}

pub record Hsts : Type 0 where
  pub present : Bool
  pub max_age : Option ℕ
  pub include_subdomains : Bool
  pub preload : Bool
  pub header : Option Str

-- The variables of the loop over the tokens.
pub record Directives : Type 0 where
  pub age : Option ℕ
  pub subdomains : Bool
  pub preloaded : Bool

abbrev pub no_directives : Directives
no_directives = record { age = none; subdomains = false; preloaded = false }

abbrev pub unquote : Str → Str
unquote v = trim_matches (λ c. c == b'"') (trim v)

-- One trimmed token, with the parts around its `=` if it has one.
abbrev pub read_directive : Directives → Str → Option (Str × Str) → Directives
read_directive d token (some (k, v)) =
    if eq_ignore_ascii_case (trim k) (codes "max-age")
    then record d { age = parse_u64 (unquote v) }
    else d
read_directive d token none =
    if eq_ignore_ascii_case token (codes "includeSubDomains")
    then record d { subdomains = true }
    else if eq_ignore_ascii_case token (codes "preload")
    then record d { preloaded = true }
    else d

abbrev pub read_token : Directives → Str → Directives
read_token d token = let t = trim token in read_directive d t (split_once t b'=')

unfoldable pub read_tokens : List Str → Directives → Directives
read_tokens [] d = d
read_tokens (token ∷ tokens) d = read_tokens tokens (read_token d token)

abbrev pub hsts_of : Str → Directives → Hsts
hsts_of raw d = record {
  present = true;
  max_age = d.age;
  include_subdomains = d.subdomains;
  preload = d.preloaded;
  header = some raw;
}

unfoldable pub parse_hsts : Option Str → Hsts
parse_hsts none = record {
  present = false;
  max_age = none;
  include_subdomains = false;
  preload = false;
  header = none;
}
parse_hsts (some raw) = hsts_of raw (read_tokens (split raw b';') no_directives)
