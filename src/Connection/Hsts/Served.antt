-- ===== src/Connection/Hsts/Served.antt =====
-- `probe_hsts` of scanner/connection.rs against a site that reads its requests and sends the header.
use ru_ssl.Prelude.{
  ℕ, ◌+◌, ◌≤◌, ◌≡◌, refl, ap, ◌∙◌, true, false, List, [], ◌∷◌, ◌++◌, Option, none, some, any, All,
  arith, find, if◌then◌else◌,
}
use ru_ssl.Text.{Str, Bytes, codes, str_eq, eq_ignore_ascii_case, u16_max}
use ru_ssl.Error.{ok}
use ru_ssl.Async.{done}
use ru_ssl.Net.{Net}
use ru_ssl.Target.{Target}
use ru_ssl.Http.{Scheme, header, request_bytes}
use ru_ssl.Http.Request.{request}
use ru_ssl.Http.Answers.{Answers, InTime, request-Answers, with_timeout-InTime}
use ru_ssl.Http.HeaderBlock.{IsPlain, IsField, any_chunked, print_response}
use ru_ssl.Http.RequestHead.{Request, read_request, read_request-request_bytes}
use ru_ssl.Http.Response.{response, parse_response-print_response}
use ru_ssl.Connection.Probes.{probe_hsts, hsts_or_none}
use ru_ssl.Connection.Hsts.{Hsts}
use ru_ssl.Connection.Hsts.Header.{
  Directive, IsDirective, print_hsts, stated_age, is_subdomains, is_preload,
}
use ru_ssl.Connection.Hsts.RoundTrip.{parse_hsts-print_hsts}

abbrev pub hsts_name : Str
hsts_name = codes "strict-transport-security"

-- A site: what its front page answers, with the directives of its header among the fields.
pub record Site : Type 0 where
  pub status : ℕ
  pub reason : Str
  pub before : List (Str × Str)
  pub name : Str
  pub directive : Directive
  pub directives : List Directive
  pub after : List (Str × Str)
  pub body : Bytes
  pub status_fits : status ≤ u16_max
  pub reason_plain : IsPlain reason
  pub names_header : eq_ignore_ascii_case name hsts_name ≡ true
  pub is_first : All (λ (h : Str × Str). eq_ignore_ascii_case h.0 hsts_name ≡ false) before
  pub are_directives : All IsDirective (directive ∷ directives)
  pub fields_well : All IsField (before ++ ((name, print_hsts directive directives) ∷ after))
  pub not_chunked :
      any_chunked (before ++ ((name, print_hsts directive directives) ∷ after)) ≡ false

abbrev pub hsts_text : Site → Str
hsts_text s = print_hsts s.directive s.directives

abbrev pub page_fields : Site → List (Str × Str)
page_fields s = s.before ++ ((s.name, hsts_text s) ∷ s.after)

-- Any request but the one for the front page is answered without the header.
abbrev pub serve_page : Site → Option Request → Bytes
serve_page s none = print_response 400 (codes "Bad Request") [] []
serve_page s (some (line, (headers, body))) =
    if str_eq line (codes "GET / HTTP/1.1")
    then print_response s.status s.reason (page_fields s) s.body
    else print_response 404 (codes "Not Found") [] []

-- On this network the site answers at the target, over TLS.
abbrev pub Serves : Net → Target → Site → Type 0
Serves net target s =
    Answers net Scheme.https target.host target.port (λ req. serve_page s (read_request req))

-- The first field with the name is found behind fields with other names.
header-found :
    (name : Str) (before : List (Str × Str)) (h : Str × Str) (after : List (Str × Str))
    → All (λ (b : Str × Str). eq_ignore_ascii_case b.0 name ≡ false) before
    → eq_ignore_ascii_case h.0 name ≡ true
    → find (λ (b : Str × Str). eq_ignore_ascii_case b.0 name) (before ++ (h ∷ after)) ≡ some h
header-found name [] h after _ e = rw e refl
header-found name (b ∷ before) h after (other, others) e =
    rw other (header-found name before h after others e)

module _ (net : Net) (target : Target) (s : Site) (serves : Serves net target s)
    (host_field : IsField (codes "Host", target.host)) where
  open s use {
    status, reason, before, name, directive, directives, after, body, status_fits, reason_plain,
    names_header, is_first, are_directives, fields_well, not_chunked,
  }
  open serves use {connects, answers}

  page_request :
      serve_page s (read_request (request_bytes (codes "GET") (codes "/") target.host [] none))
      ≡ print_response status reason (page_fields s) body
  unfolding str_eq
  page_request =
      rw
        (read_request-request_bytes (codes "GET") (codes "/") target.host [] none (omega arith)
          (omega arith) host_field tt)
        refl

  page_received :
      request net Scheme.https target.host target.port (codes "GET") (codes "/") [] none
      ≡ done (connects + (answers + 0)) (ok (response status (page_fields s) body))
  page_received =
      request-Answers serves (codes "GET") (codes "/") [] none
      ∙ rw
          (
            page_request,
            parse_response-print_response status reason (page_fields s) body status_fits
                reason_plain fields_well,
            not_chunked,
          )
          refl

  abbrev reported : Hsts
  reported = record {
    present = true;
    max_age = stated_age (directive ∷ directives) none;
    include_subdomains = any is_subdomains (directive ∷ directives);
    preload = any is_preload (directive ∷ directives);
    header = some (hsts_text s);
  }

  page_read : hsts_or_none (ok (response status (page_fields s) body)) ≡ some reported
  unfolding header
  page_read =
      rw
        (
          header-found hsts_name before (name, hsts_text s) after is_first names_header,
          parse_hsts-print_hsts directive directives are_directives,
        )
        refl

  -- Against a site that reads each request and answers the one for its front page over TLS with a
  -- status of at most 65535, a plain reason and well-formed fields, none of them announcing the
  -- chunked coding and the first with the name of the header, in any case, made of directives:
  -- under no limit, or if connecting and the answer take no longer than it, and if the target's
  -- host can stand in a field, the HSTS probe completes when the site has answered, with the
  -- flags of those directives, the last age they state, and the text of the header.
  pub probe_hsts-served :
      (secs : ℕ)
      → InTime serves secs
      → probe_hsts net target secs ≡ done (connects + answers) (ok (some reported))
  unfolding probe_hsts
  probe_hsts-served secs in_time =
      rw
        (
          page_received,
          with_timeout-InTime serves secs (ok (response status (page_fields s) body)) in_time,
          page_read,
        )
        (ap (λ (t : ℕ). done t (ok (some reported))) (omega arith))
