-- ===== src/Tests/Report.antt =====
-- The theorems on the result of a scan and on its report, on networks whose server shows a chain of two.
use ru_ssl.Prelude.{
  ℕ, Bool, ◌*◌, ◌≡◌, ◌↔◌, ◌++◌, refl, true, false, [], ◌∷◌, none, some, map, arith,
}
use ru_ssl.Prelude.Int.{pos}
use ru_ssl.Text.{codes, str_eq}
use ru_ssl.Error.{timeout, ok, err}
use ru_ssl.Async.{done, with_timeout}
use ru_ssl.Target.{ScanOpts}
use ru_ssl.Tests.Demo.{
  chain_net, always_parsed, no_digest, empty_array, last_waits, last_waits-GrantedWithin,
  demo_target, recent, presented,
}
use ru_ssl.Cert.{cert_info}
use ru_ssl.Cert.Verifier.{captured, verify, verify_server_cert}
use ru_ssl.Cert.Inspect.{capture_chain, leaf_info, inspect}
use ru_ssl.Handshake.{tls12, tls13, protocol_result}
use ru_ssl.Handshake.Probe.{attempt_handshake, probe_versions, probe_protocols}
use ru_ssl.Ciphers.{probe_suites}
use ru_ssl.Ciphers.Enumerate.{cipher_result, await_handles, suite_task, enumerate}
use ru_ssl.Connection.Inspect.{ConnectionProperties, inspect as inspect_connection}
use ru_ssl.Net.{Net}
use ru_ssl.Http.Request.{request, send}
use ru_ssl.Connection.Probes.{probe_primary, pump_tickets, probe_no_sni, probe_address, probe_hsts}
use ru_ssl.Connection.Sni.{classify_sni, leaf_subject}
use ru_ssl.Connection.ForwardSecrecy.{forward_secrecy}
use ru_ssl.Connection.Store.{calls}
use ru_ssl.Vulns.{check_all}
use ru_ssl.Scan.{ScanResult, scan_ciphers, scan_vulns, scan_connection, run_scan}
use ru_ssl.Scan.Contents.{Contents, run_scan-Contents}
use ru_ssl.Output.Pretty.{report}
use ru_ssl.Output.Pretty.Rows.{warning_sign}
use ru_ssl.Output.Pretty.Shape.{AllRectangular, report-IsRectangular}
use ru_ssl.Output.Pretty.Sections.{titles, title_if, titles-report}

abbrev two_checks : ScanOpts
two_checks = record {
  enumerate_ciphers = true;
  check_vulns = true;
  check_ocsp = false;
  check_ct = false;
  check_connection = false;
  timeout_secs = 10;
}

abbrev scanned : ScanResult
scanned =
    let protocols =
      protocol_result tls12 (err timeout) ∷ protocol_result tls13 (err timeout) ∷ [] in
    record {
      host = codes "example.com";
      port = 443;
      certificate = cert_info recent (pos 1750000000) 2;
      protocols = protocols;
      cipher_suites = map (λ name. cipher_result name (err timeout)) probe_suites;
      vulnerabilities = check_all protocols;
      connection = none;
    }

scan_done :
    run_scan chain_net always_parsed no_digest empty_array
      (pos 1750000000)
      (λ host. false)
      last_waits
      demo_target
      two_checks
    ≡ done 40012 (ok scanned)
unfolding run_scan inspect capture_chain leaf_info probe_protocols probe_versions attempt_handshake
    with_timeout scan_ciphers enumerate await_handles suite_task scan_vulns scan_connection captured
    verify verify_server_cert str_eq
scan_done = refl

checks_shown : Contents demo_target two_checks scanned
checks_shown =
    run_scan-Contents chain_net always_parsed no_digest empty_array (pos 1750000000) demo_target
      two_checks (λ host. false) last_waits (10 * 1000) (omega arith) last_waits-GrantedWithin
      scanned 40012 scan_done

-- The server also takes the handshake of the connection checks, with no ticket.
abbrev open_net : Net
open_net = record chain_net {
  recording_connect = λ name tcp. done 9 (ok (presented, [], tt));
  round_trip = λ tls req. done 4 (ok tt);
}

abbrev three_checks : ScanOpts
three_checks = record two_checks { check_connection = true }

abbrev open_connection : ConnectionProperties
open_connection = record {
  secrecy = forward_secrecy scanned.protocols;
  ocsp_stapling = record { stapled = true; response_len = 1 };
  session_resumption = record { tls13_ticket = false; tls12_session = false; supported = false };
  sni = record {
    outcome = codes "same-certificate";
    with_sni_subject = some recent.subject;
    without_sni_subject = some recent.subject;
  };
  hsts = none;
}

abbrev open_scanned : ScanResult
open_scanned = record scanned { connection = some open_connection }

open_done :
    run_scan open_net always_parsed no_digest empty_array
      (pos 1750000000)
      (λ host. false)
      last_waits
      demo_target
      three_checks
    ≡ done 50012 (ok open_scanned)
unfolding run_scan inspect capture_chain leaf_info probe_protocols probe_versions attempt_handshake
    with_timeout scan_ciphers enumerate await_handles suite_task scan_vulns scan_connection captured
    verify verify_server_cert str_eq inspect_connection probe_primary pump_tickets probe_no_sni
    probe_address probe_hsts classify_sni leaf_subject calls request send
open_done = refl

open_titles :
    (shown : Bool) × (titles (report open_scanned)
      ≡ codes "📜 Certificate"
        ∷ codes "🔒 Protocol Support"
        ∷ (title_if true (codes "🔐 Cipher Suites")
            ++ (title_if shown (codes "🔗 Connection Properties")
                ++ title_if true (warning_sign ++ codes "  Vulnerability Checks"))))
    × ((shown ≡ true) ↔ (
        (true ≡ true)
        × (t' : ℕ) × (props : ConnectionProperties) × (inspect_connection open_net always_parsed
              (λ host. false)
              demo_target
              three_checks
              open_scanned.protocols
            ≡ done t' (ok props))))
open_titles =
    titles-report open_net always_parsed no_digest empty_array (pos 1750000000) demo_target
      three_checks (λ host. false) last_waits (10 * 1000) (omega arith) last_waits-GrantedWithin
      open_scanned 50012 open_done

scan_tables : AllRectangular (report scanned)
scan_tables = report-IsRectangular scanned
