-- ===== src/Connection/Hsts/RoundTrip.antt =====
-- `parse_hsts` of scanner/connection.rs on a header that a server wrote from a list of directives.
use ru_ssl.Prelude.{
  ◌≡◌, refl, ap, ◌∙◌, Bool, true, false, ◌||◌, List, [], ◌∷◌, ◌++◌, none, some, any, All, arith,
  or_false, or_assoc,
}
use ru_ssl.Text.{
  Str, codes, to_string, eq_ignore_ascii_case, trim, trim-none, is_whitespace, split, split-Lacks,
  split-append, split_once, split_once-append, All-map, Lacks, split_once-Lacks,
}
use ru_ssl.Connection.Hsts.{
  Directives, no_directives, read_directive, read_token, read_tokens, hsts_of, parse_hsts,
}
use ru_ssl.Connection.Hsts.Header.{
  Directive, max_age, quoted_max_age, include_subdomains, preload, other_word, IsDirective,
  directive_text, print_hsts, age_after, stated_age, is_subdomains, is_preload,
  directive_text-IsToken, IsToken-visible, IsToken-Lacks, age_plain, age_quoted,
}

-- What a directive changes.
abbrev after : Directive → Directives → Directives
after d held = record {
  age = age_after d held.age;
  subdomains = held.subdomains || is_subdomains d;
  preloaded = held.preloaded || is_preload d;
}

or_true : (a : Bool) → (a || true) ≡ true
or_true a = ground arith

read_directive-text :
    (d : Directive) (held : Directives)
    → IsDirective d
    → read_directive held (directive_text d) (split_once (directive_text d) b'=') ≡ after d held
unfolding eq_ignore_ascii_case trim is_whitespace
read_directive-text (max_age n) held h =
    rw
      (
        split_once-append (codes "max-age") (to_string n) b'=' (omega arith),
        or_false held.subdomains,
        or_false held.preloaded,
        age_plain n h,
      )
      refl
read_directive-text (quoted_max_age n) held h =
    rw
      (
        split_once-append (codes "max-age") (b'"' ∷ (to_string n ++ (b'"' ∷ []))) b'='
            (omega arith),
        or_false held.subdomains,
        or_false held.preloaded,
        age_quoted n h,
      )
      refl
read_directive-text include_subdomains held h =
    rw
      (
        split_once-Lacks (codes "includeSubDomains") b'=' (omega arith),
        or_true held.subdomains,
        or_false held.preloaded,
      )
      refl
read_directive-text preload held h =
    rw
      (
        split_once-Lacks (codes "preload") b'=' (omega arith),
        or_true held.preloaded,
        or_false held.subdomains,
      )
      refl
read_directive-text (other_word s) held (chars, other, other') =
    rw
      (
        split_once-Lacks s b'=' (All-map _ _ (λ c p. p.1) s chars),
        other,
        other',
        or_false held.subdomains,
        or_false held.preloaded,
      )
      refl

-- A token with the space behind a `;`, or the first one.
abbrev padded : Bool → Str → Str
padded true s = b' ' ∷ s
padded false s = s

trim-padded : (space : Bool) (s : Str) → trim (padded space s) ≡ trim s
unfolding trim
trim-padded true s = refl
trim-padded false s = refl

padded-Lacks : (space : Bool) (s : Str) → Lacks b';' s → Lacks b';' (padded space s)
padded-Lacks true s h = (omega arith, h)
padded-Lacks false s h = h

padded-append : (space : Bool) (s t : Str) → padded space (s ++ t) ≡ padded space s ++ t
padded-append true s t = refl
padded-append false s t = refl

read_token-text :
    (space : Bool) (d : Directive) (held : Directives)
    → IsDirective d
    → read_token held (padded space (directive_text d)) ≡ after d held
read_token-text space d held h =
    let token = directive_text d in
    let visible = IsToken-visible token (directive_text-IsToken d h) in
    rw (trim-padded space token, trim-none token visible) (read_directive-text d held h)

-- What all the directives change.
abbrev after_all : List Directive → Directives → Directives
after_all ds held = record {
  age = stated_age ds held.age;
  subdomains = held.subdomains || any is_subdomains ds;
  preloaded = held.preloaded || any is_preload ds;
}

after_all-cons :
    (d : Directive) (ds : List Directive) (held : Directives)
    → after_all ds (after d held) ≡ after_all (d ∷ ds) held
after_all-cons d ds held = rw (or_assoc held.subdomains, or_assoc held.preloaded) refl

read_tokens-print_hsts :
    (space : Bool) (d : Directive) (ds : List Directive) (held : Directives)
    → All IsDirective (d ∷ ds)
    → read_tokens (split (padded space (print_hsts d ds)) b';') held ≡ after_all (d ∷ ds) held
unfolding read_tokens print_hsts
read_tokens-print_hsts space d [] held (h, _) =
    let token = padded space (directive_text d) in
    let lacks = padded-Lacks space _ (IsToken-Lacks _ (directive_text-IsToken d h)) in
    ap (λ (ts : List Str). read_tokens ts held) (split-Lacks token b';' lacks)
    ∙ read_token-text space d held h
    ∙ rw (or_false (is_subdomains d), or_false (is_preload d)) refl
read_tokens-print_hsts space d (e ∷ ds) held (h, hs) =
    let token = padded space (directive_text d) in
    let lacks = padded-Lacks space _ (IsToken-Lacks _ (directive_text-IsToken d h)) in
    let rest = b' ' ∷ print_hsts e ds in
    ap (λ (s : Str). read_tokens (split s b';') held)
      (padded-append space (directive_text d) (b';' ∷ rest))
    ∙ ap (λ (ts : List Str). read_tokens ts held) (split-append token rest b';' lacks)
    ∙ ap (read_tokens (split rest b';')) (read_token-text space d held h)
    ∙ read_tokens-print_hsts true e ds (after d held) hs
    ∙ after_all-cons d (e ∷ ds) held

-- A header of one directive or more, with `; ` between them, is read back: the flags are those of
-- the directives, and the age is the last one stated, in quotes or not, if each is at most 2^64 -
-- 1. Another word of visible ASCII with no `=` and no `;` in it, that is neither flag in any
-- case, changes nothing.
pub parse_hsts-print_hsts :
    (d : Directive) (ds : List Directive)
    → All IsDirective (d ∷ ds)
    → parse_hsts (some (print_hsts d ds)) ≡ record {
      present = true;
      max_age = stated_age (d ∷ ds) none;
      include_subdomains = any is_subdomains (d ∷ ds);
      preload = any is_preload (d ∷ ds);
      header = some (print_hsts d ds);
    }
unfolding parse_hsts
parse_hsts-print_hsts d ds h =
    ap (hsts_of (print_hsts d ds)) (read_tokens-print_hsts false d ds no_directives h)
