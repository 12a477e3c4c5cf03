-- ===== src/Ocsp/Urls.antt =====
-- `parse_url` on responder URLs as they are written: scheme, host, optional port, optional path.
use ru_ssl.Prelude.{
  ℕ, ◌*◌, ◌⊎◌, inl, inr, Option-cases, ◌+◌, ◌≤◌, ◌≡◌, refl, ap, ◌∙◌, [], ◌∷◌, ◌++◌, Option, none,
  some, arith, length, take-append, drop-append, append-nil, All-append,
}
use ru_ssl.Text.RoundTrip.{parse-to_string, to_string-All, IsDecimalDigit}
use ru_ssl.Text.{
  Str, codes, strip_prefix, rsplit_once, rsplit_once-append, rsplit_once-none, find_char,
  digit_value, scan_digits, from_str_radix, strip_prefix_sound, to_string, u16_max, Lacks, All-map,
}
use ru_ssl.Error.{ScanError, ok, err}
use ru_ssl.Http.{Scheme}
use ru_ssl.Ocsp.{Url, parse_rest, parse_url, authority_path, host_port}

abbrev pub prefix_of : Scheme → Str
prefix_of Scheme.http = codes "http://"
prefix_of Scheme.https = codes "https://"

abbrev pub default_port : Scheme → ℕ
default_port Scheme.http = 80
default_port Scheme.https = 443

-- A path is empty or begins with a slash.
abbrev pub IsUrlPath : Str → Type 0
IsUrlPath [] = Unit
IsUrlPath (c ∷ s) = c ≡ b'/'

-- The path that a request is sent to.
abbrev pub requested_path : Str → Str
requested_path [] = b'/' ∷ []
requested_path (c ∷ s) = c ∷ s

abbrev pub print_port : Option ℕ → Str
print_port none = []
print_port (some p) = b':' ∷ to_string p

abbrev pub port_of : Scheme → Option ℕ → ℕ
port_of scheme none = default_port scheme
port_of scheme (some p) = p

abbrev pub IsPort : Option ℕ → Type 0
IsPort none = Unit
IsPort (some p) = p ≤ u16_max

unfoldable pub print_url : Scheme → Str → Option ℕ → Str → Str
print_url scheme host port path = prefix_of scheme ++ ((host ++ print_port port) ++ path)

find_char-Lacks : (s : Str) (c : ℕ) → Lacks c s → find_char s c ≡ none
unfolding find_char
find_char-Lacks [] c h = refl
find_char-Lacks (x ∷ s) c (hx, hs) = ground (arith, find_char-Lacks s c hs)

find_char-append : (a b : Str) (c : ℕ) → Lacks c a → find_char (a ++ (c ∷ b)) c ≡ some (length a)
unfolding find_char
find_char-append [] b c h = ground arith
find_char-append (x ∷ a) b c (hx, ha) = ground (arith, find_char-append a b c ha)

authority_path-append :
    (authority path : Str)
    → Lacks b'/' authority
    → IsUrlPath path
    → authority_path (authority ++ path) (find_char (authority ++ path) b'/')
      ≡ (authority, requested_path path)
authority_path-append authority [] h p = rw (append-nil, find_char-Lacks authority b'/' h)
authority_path-append authority (c ∷ path) h p = rw p (
    rw (
      find_char-append authority path b'/' h,
      take-append authority (b'/' ∷ path),
      drop-append authority (b'/' ∷ path),
    ))

host_port-print_port :
    (host : Str) (scheme : Scheme) (port : Option ℕ)
    → Lacks b':' host
    → IsPort port
    → host_port
        (host ++ print_port port)
        (default_port scheme)
        (rsplit_once (host ++ print_port port) b':')
      ≡ (host, port_of scheme port)
host_port-print_port host scheme none h p = rw (append-nil, rsplit_once-none host b':' h)
host_port-print_port host scheme (some n) h p =
    let digits = All-map IsDecimalDigit _ (λ c d. omega arith) (to_string n) (to_string-All n) in
    rw (rsplit_once-append host (to_string n) b':' digits, parse-to_string u16_max n p)

print_port-Lacks : (port : Option ℕ) → Lacks b'/' (print_port port)
print_port-Lacks none = tt
print_port-Lacks (some n) =
    (omega arith, All-map IsDecimalDigit _ (λ c d. omega arith) (to_string n) (to_string-All n))

-- The second half of `parse_rest`, on the authority and the path.
abbrev finish : Scheme → ℕ → Str × Str → Url
finish scheme port parts =
    let hp = host_port parts.0 port (rsplit_once parts.0 b':') in (scheme, hp.0, hp.1, parts.1)

parse_rest-finish :
    (scheme : Scheme) (rest : Str) (port : ℕ)
    → parse_rest (scheme, rest, port)
      ≡ finish scheme port (authority_path rest (find_char rest b'/'))
unfolding parse_rest
parse_rest-finish scheme rest port = refl

parse_rest-print :
    (scheme : Scheme) (host path : Str) (port : Option ℕ)
    → Lacks b':' host
    → Lacks b'/' host
    → IsPort port
    → IsUrlPath path
    → parse_rest (scheme, (host ++ print_port port) ++ path, default_port scheme)
      ≡ (scheme, host, port_of scheme port, requested_path path)
unfolding parse_rest
parse_rest-print scheme host path port no_colon no_slash p q =
    let authority = host ++ print_port port in
    let slash_free = All-append _ host (print_port port) no_slash (print_port-Lacks port) in
    ap (finish scheme (default_port scheme)) (authority_path-append authority path slash_free q)
    ∙ ap (λ (hp : Str × ℕ). (scheme, hp.0, hp.1, requested_path path))
        (host_port-print_port host scheme port no_colon p)

parse_url-prefix :
    (scheme : Scheme) (rest : Str)
    → parse_url (prefix_of scheme ++ rest) ≡ ok (parse_rest (scheme, rest, default_port scheme))
unfolding parse_url strip_prefix
parse_url-prefix Scheme.http rest = refl
parse_url-prefix Scheme.https rest = refl

-- A URL printed from a scheme, a host with no colon and no slash, an optional port of at most
-- 65535 and a path that is empty or begins with a slash is read back, with the scheme's default
-- port and the path `/` where these are left out.
pub parse_url-print_url :
    (scheme : Scheme) (host path : Str) (port : Option ℕ)
    → Lacks b':' host
    → Lacks b'/' host
    → IsPort port
    → IsUrlPath path
    → parse_url (print_url scheme host port path)
      ≡ ok (scheme, host, port_of scheme port, requested_path path)
unfolding print_url
parse_url-print_url scheme host path port no_colon no_slash p q =
    parse_url-prefix scheme ((host ++ print_port port) ++ path)
    ∙ ap ok (parse_rest-print scheme host path port no_colon no_slash p q)

-- A URL is either one of the two prefixes and a rest, and is then accepted with that scheme and
-- its default port, or begins with neither, and is then an error that names the URL.
pub parse_url_cases :
    (url : Str)
    → ((scheme : Scheme) × (rest : Str) × (url ≡ prefix_of scheme ++ rest)
        × (parse_url url ≡ ok (parse_rest (scheme, rest, default_port scheme))))
      ⊎ ((strip_prefix url (codes "http://") ≡ none)
          × (strip_prefix url (codes "https://") ≡ none)
          × (parse_url url ≡ err (ScanError.http (codes "unsupported OCSP URL: " ++ url))))
unfolding parse_url
parse_url_cases url = elim (Option-cases (strip_prefix url (codes "http://"))) [
  | inr (rest, e) ↦ inl (Scheme.http, rest, strip_prefix_sound url _ e, rw e)
  | inl plain ↦ elim (Option-cases (strip_prefix url (codes "https://"))) [
    | inr (rest, e) ↦ inl (Scheme.https, rest, strip_prefix_sound url _ e, rw (plain, e))
    | inl secure ↦ inr (plain, secure, rw (plain, secure))
  ]
]

-- Digits with another character behind them are no number.
scan_digits-last :
    (radix max c : ℕ) (s : Str) (n : ℕ)
    → radix ≤ digit_value c
    → scan_digits radix max (s ++ (c ∷ [])) n ≡ none
unfolding scan_digits
scan_digits-last radix max c [] n h = ground arith
scan_digits-last radix max c (x ∷ s) n h =
    ground (arith, scan_digits-last radix max c s (n * radix + digit_value x) h)

from_str_radix-last :
    (radix max c : ℕ) (s : Str)
    → radix ≤ digit_value c
    → from_str_radix radix max (s ++ (c ∷ [])) ≡ none
unfolding from_str_radix
from_str_radix-last radix max c [] h = scan_digits-last radix max c [] 0 h
from_str_radix-last radix max c (x ∷ []) h =
    ground (arith, scan_digits-last radix max c [] 0 h, scan_digits-last radix max c (x ∷ []) 0 h)
from_str_radix-last radix max c (x ∷ y ∷ s) h =
    ground (
      arith,
      scan_digits-last radix max c (y ∷ s) 0 h,
      scan_digits-last radix max c (x ∷ y ∷ s) 0 h,
    )

-- A bracketed IPv6 address with no port, its last group without a colon and no slash in it, is
-- cut at its last colon: the host loses the last group and the closing bracket, and the port is
-- the default.
pub parse_url_ipv6 :
    (scheme : Scheme) (front group path : Str)
    → Lacks b'/' front
    → Lacks b'/' group
    → Lacks b':' group
    → IsUrlPath path
    → parse_url (prefix_of scheme ++ (((b'[' ∷ front) ++ (b':' ∷ (group ++ (b']' ∷ [])))) ++ path))
      ≡ ok (scheme, b'[' ∷ front, default_port scheme, requested_path path)
parse_url_ipv6 scheme front group path no_slash no_slash' no_colon p =
    let tail = group ++ (b']' ∷ []) in
    let authority = (b'[' ∷ front) ++ (b':' ∷ tail) in
    let slash_free : Lacks b'/' authority = (
      omega arith,
      All-append _ front (b':' ∷ tail) no_slash
          (omega arith, All-append _ group (b']' ∷ []) no_slash' (omega arith, tt)),
    ) in
    let colon_free : Lacks b':' tail = All-append _ group (b']' ∷ []) no_colon (omega arith, tt) in
    parse_url-prefix scheme (authority ++ path)
    ∙ ap ok (parse_rest-finish scheme (authority ++ path) (default_port scheme))
    ∙ ap (λ (parts : Str × Str). ok (finish scheme (default_port scheme) parts))
        (authority_path-append authority path slash_free p)
    ∙ rw (
      rsplit_once-append (b'[' ∷ front) tail b':' colon_free,
      from_str_radix-last 10 u16_max b']' group (omega arith),
    )
