-- ===== src/Tests/Session.antt =====
-- The theorems on the connection checks and on a whole scan, on a network that answers little.
use Prim.Native.Nat.{max}
use ru_ssl.Prelude.{
  ℕ, ◌+◌, ◌*◌, ◌≤◌, ◌≡◌, refl, Bool, true, false, List, [], ◌∷◌, Option, arith, map,
}
use ru_ssl.Prelude.Int.{pos}
use ru_ssl.Text.{Str, Bytes, codes}
use ru_ssl.Error.{timeout, Result, ok, err}
use ru_ssl.Async.{done, with_timeout}
use ru_ssl.X509.{Parsed, refused}
use ru_ssl.Target.{Target, ScanOpts}
use ru_ssl.Ct.{Json, array}
use ru_ssl.Tests.Demo.{
  empty_cache, quiet_net, last_waits, last_waits-GrantedWithin, last_waits-IsSemaphore,
}
use ru_ssl.Connection.Store.{StoreCall, new_store, take_ticket, insert_ticket}
use ru_ssl.Connection.Store.Delegation.{Delegates, calls-Delegates}
use ru_ssl.Cert.{CertInfo}
use ru_ssl.Cert.Verifier.{VerifierCall, server_cert}
use ru_ssl.Net.{Net}
use ru_ssl.Connection.Probes.Evidence.{evidence, probe_primary-evidence}
use ru_ssl.Connection.Probes.{pump_tickets, Primary, probe_primary, probe_no_sni, probe_hsts}
use ru_ssl.Connection.Sni.{NoSni}
use ru_ssl.Connection.Hsts.{Hsts}
use ru_ssl.Connection.Inspect.{inspect}
use ru_ssl.Connection.Inspect.Outcome.{report, inspect_outcome}
use ru_ssl.Cert.Inspect.{capture_chain, inspect as inspect_certificate}
use ru_ssl.Ciphers.{CipherResult, probe_suites}
use ru_ssl.Ciphers.Enumerate.{enumerate}
use ru_ssl.Ciphers.Permits.{suite_strengths, IsSemaphore-Lists}
use ru_ssl.Ciphers.Listing.{Lists}
use ru_ssl.Scan.{ScanResult, run_scan}
use ru_ssl.Scan.Outcome.{CarriesCertificate, run_scan-CarriesCertificate}
use ru_ssl.Output.Pretty.{Table}
use ru_ssl.Main.{Cli, target_of, scan_opts, ExitCode, main}
use ru_ssl.Main.Exit.{Reports, main_exit}

abbrev ticket_calls : List (StoreCall empty_cache)
ticket_calls = take_ticket (codes "a") ∷ insert_ticket (codes "a") 7 ∷ []

ticket_recorded : Delegates empty_cache (new_store empty_cache) ticket_calls
ticket_recorded = calls-Delegates empty_cache (new_store empty_cache) ticket_calls

abbrev site : Target
site = record { host = codes "example.com"; port = 443 }

abbrev all_checks : ScanOpts
all_checks = record {
  enumerate_ciphers = true;
  check_vulns = true;
  check_ocsp = true;
  check_ct = true;
  check_connection = true;
  timeout_secs = 10;
}

abbrev no_certificates : Bytes → Parsed
no_certificates bytes = refused (codes "no certificate")

abbrev host_name : Str → Bool
host_name host = false

abbrev same_bytes : Bytes → Bytes
same_bytes bytes = bytes

abbrev no_entries : Bytes → Json
no_entries bytes = array 0

quiet_connection :
    (t t' t'' : ℕ) × (r : Result Primary) × (no_sni : NoSni) × (h : Option Hsts) × (probe_primary
        quiet_net site 10
      ≡ done t r)
    × (probe_no_sni quiet_net site 10 ≡ done t' (ok no_sni))
    × (probe_hsts quiet_net site 10 ≡ done t'' (ok h))
    × (inspect quiet_net no_certificates host_name site all_checks []
        ≡ done
            (max t (max t' t''))
            (report no_certificates host_name (codes "example.com") [] no_sni h r))
    × (max t (max t' t'') ≤ 10 * 1000 + (20 + 3000))
quiet_connection =
    inspect_outcome quiet_net site 10 20 (omega arith) (omega arith) no_certificates host_name
      all_checks [] refl

suites_listed :
    (t : ℕ) × (cs : List CipherResult) × (enumerate quiet_net site last_waits 10 ≡ done t (ok cs))
    × Lists quiet_net site 10 probe_suites cs
    × (map (λ (c : CipherResult). c.strength) cs ≡ suite_strengths)
    × (t ≤ 2 * (10 * 1000))
suites_listed = IsSemaphore-Lists quiet_net site last_waits 10 (omega arith) last_waits-IsSemaphore

certificate_late :
    inspect_certificate quiet_net no_certificates same_bytes no_entries (pos 1) site all_checks
    ≡ done 10000 (err timeout)
unfolding inspect_certificate capture_chain with_timeout
certificate_late = refl

late_scan :
    (t' : ℕ) × (out : Result ScanResult) × (run_scan quiet_net no_certificates same_bytes no_entries
        (pos 1)
        host_name
        last_waits
        site
        all_checks
      ≡ done t' out)
    × CarriesCertificate (err timeout) out
    × (t' ≤ 10000 + (2 * (10 * 1000) + (10 * 1000 + 10 * 1000) + (10 * 1000 + (20 + 3000))))
late_scan =
    run_scan-CarriesCertificate quiet_net no_certificates same_bytes no_entries (pos 1) host_name
      last_waits site all_checks (10 * 1000) 20 (omega arith) last_waits-GrantedWithin (omega arith)
      10000 (err timeout) certificate_late

abbrev typed : Cli
typed = record {
  host = codes "example.com";
  port = 443;
  json = false;
  enumerate_ciphers = false;
  check_vulns = false;
  ocsp = false;
  ct = false;
  connection = false;
  all = true;
  timeout = 10;
}

abbrev no_text : ScanResult → Result Str
no_text result = ok []

abbrev no_layout : Table → Str
no_layout table = []

late_exit :
    (t : ℕ) × (r : Result CertInfo) × (t' : ℕ) × (out : ExitCode × Str) × (inspect_certificate
        quiet_net no_certificates same_bytes no_entries
        (pos 1)
        site
        all_checks
      ≡ done t r)
    × (main quiet_net no_certificates same_bytes no_entries
          (pos 1)
          host_name
          last_waits
          no_layout
          no_text
          typed
        ≡ done t' (ok out))
    × Reports no_layout no_text false r out
    × (t' ≤ 8 * (10 * 1000) + (20 + 3000))
unfolding target_of scan_opts
late_exit =
    main_exit quiet_net no_certificates same_bytes no_entries (pos 1) host_name last_waits no_layout
      no_text typed 20 (omega arith) last_waits-IsSemaphore (omega arith)

-- A server that presents one certificate and then issues a ticket.
abbrev shown : List VerifierCall
shown = server_cert (record { end_entity = 1 ∷ []; intermediates = []; ocsp_response = [] }) ∷ []

abbrev ticket_net : Net
ticket_net = record quiet_net {
  recording_connect = λ name tcp. done 9 (ok (shown, [], tt));
  round_trip = λ tls req. done 4 (ok tt);
  store_calls = λ tls req ms. ticket_calls;
}

ticket_seen :
    probe_primary ticket_net site 10
    ≡ done (14 + 4) (ok (evidence ticket_net site 10 shown ticket_calls))
unfolding pump_tickets with_timeout
ticket_seen = probe_primary-evidence ticket_net site 10 14 4 shown [] ticket_calls tt refl refl
