-- ===== src/Tests/Site.antt =====
-- A site that sends a `Strict-Transport-Security` header, and the probe that asks it.
use ru_ssl.Prelude.{◌+◌, ◌≡◌, inr, refl, true, false, [], ◌∷◌, some, arith}
use ru_ssl.Text.{codes, to_string, trim, is_whitespace, eq_ignore_ascii_case}
use ru_ssl.Error.{ok}
use ru_ssl.Async.{done}
use ru_ssl.Net.{Net}
use ru_ssl.Tests.Demo.{quiet_net, demo_target}
use ru_ssl.Http.Request.{send}
use ru_ssl.Http.HeaderBlock.{IsField, written-IsField}
use ru_ssl.Http.RequestHead.{read_request}
use ru_ssl.Connection.Probes.{probe_hsts}
use ru_ssl.Connection.Hsts.Header.{quoted_max_age, include_subdomains, print_hsts}
use ru_ssl.Connection.Hsts.Served.{Site, Serves, serve_page, probe_hsts-served}

site_host : IsField (codes "Host", codes "example.com")
unfolding trim is_whitespace
site_host =
    written-IsField (codes "Host") (codes "example.com") (omega arith) (omega arith) (omega arith)
      refl refl

server_header : IsField (codes "Server", codes "demo")
unfolding trim is_whitespace
server_header =
    written-IsField (codes "Server") (codes "demo") (omega arith) (omega arith) (omega arith) refl
      refl

year_header :
    IsField
      (codes "Strict-Transport-Security", print_hsts (quoted_max_age 600) (include_subdomains ∷ []))
unfolding trim is_whitespace print_hsts to_string
year_header =
    written-IsField (codes "Strict-Transport-Security")
      (print_hsts (quoted_max_age 600) (include_subdomains ∷ [])) (omega arith) (omega arith)
      (omega arith) refl refl

abbrev demo_site : Site
unfolding eq_ignore_ascii_case
demo_site = record {
  status = 301;
  reason = codes "Moved Permanently";
  before = (codes "Server", codes "demo") ∷ [];
  name = codes "Strict-Transport-Security";
  directive = quoted_max_age 600;
  directives = include_subdomains ∷ [];
  after = [];
  body = codes "moved";
  status_fits = omega arith;
  reason_plain = omega arith;
  names_header = refl;
  is_first = (refl, tt);
  are_directives = (omega arith, (tt, tt));
  fields_well = (server_header, (year_header, tt));
  not_chunked = refl;
}

abbrev site_net : Net
site_net = record quiet_net {
  tls_exchange = λ tls req. done 30 (ok (serve_page demo_site (read_request req)));
}

abbrev site_answers : Serves site_net demo_target demo_site
unfolding send
site_answers = record {
  tcp = tt;
  connects = 5;
  answers = 35;
  connected = refl;
  answered = λ req. refl;
}

hsts_seen :
    probe_hsts site_net demo_target 10
    ≡ done (5 + 35) (
        ok (
          some (record {
            present = true;
            max_age = some 600;
            include_subdomains = true;
            preload = false;
            header = some (print_hsts (quoted_max_age 600) (include_subdomains ∷ []));
          })))
unfolding site_answers demo_site
hsts_seen =
    probe_hsts-served site_net demo_target demo_site site_answers site_host 10 (inr (omega arith))
