-- ===== src/Tests/Printed.antt =====
-- A scan whose report says that the certificate is good.
use mathlib.Core.List.{Memᴰ}
use mathlib.Core.List.Memᴰ.{append_right}
use ru_ssl.Prelude.{ℕ, ◌≡◌, refl, true, false, List, [], ◌∷◌, some, none}
use ru_ssl.Prelude.Int.{pos}
use ru_ssl.Text.{Bytes, codes}
use ru_ssl.Error.{timeout, ok, err}
use ru_ssl.Async.{done, with_timeout}
use ru_ssl.Target.{ScanOpts}
use ru_ssl.Tests.Demo.{empty_array, last_waits, demo_target}
use ru_ssl.Tests.Revocation.{responder_net, demo_leaf, demo_sha1, demo_parse, good_check}
use ru_ssl.Cert.{cert_info}
use ru_ssl.Cert.Verifier.{captured, verify, verify_server_cert}
use ru_ssl.Cert.Inspect.{capture_chain, leaf_info, with_ocsp, inspect}
use ru_ssl.Handshake.{tls12, tls13, protocol_result}
use ru_ssl.Handshake.Probe.{attempt_handshake, probe_versions, probe_protocols}
use ru_ssl.Ocsp.Soundness.{Vouched}
use ru_ssl.Scan.{ScanResult, scan_ciphers, scan_vulns, scan_connection, run_scan}
use ru_ssl.Output.Pretty.Rows.{fixed_rows, cert_rows}
use ru_ssl.Output.Pretty.Revocation.{run_scan-Vouched}

abbrev ocsp_only : ScanOpts
ocsp_only = record {
  enumerate_ciphers = false;
  check_vulns = false;
  check_ocsp = true;
  check_ct = false;
  check_connection = false;
  timeout_secs = 3;
}

abbrev good_scan : ScanResult
good_scan = record {
  host = codes "example.com";
  port = 443;
  certificate = record (cert_info demo_leaf (pos 1750000000) 2) {
    ocsp_status = some (codes "Good");
  };
  protocols = protocol_result tls12 (err timeout) ∷ protocol_result tls13 (err timeout) ∷ [];
  cipher_suites = [];
  vulnerabilities = [];
  connection = none;
}

good_scan_done :
    run_scan responder_net demo_parse demo_sha1 empty_array
      (pos 1750000000)
      (λ host. false)
      last_waits
      demo_target
      ocsp_only
    ≡ done 6047 (ok good_scan)
unfolding run_scan inspect capture_chain leaf_info with_ocsp probe_protocols probe_versions
    attempt_handshake with_timeout scan_ciphers scan_vulns scan_connection captured verify
    verify_server_cert
good_scan_done = rw good_check refl

good_row : Memᴰ (codes "OCSP Status" ∷ codes "Good" ∷ []) (cert_rows good_scan.certificate)
unfolding cert_rows
good_row = append_right (fixed_rows good_scan.certificate) (Memᴰ.head refl)

good_printed :
    (certs : List Bytes) × (t : ℕ) × (capture_chain responder_net demo_parse demo_sha1 empty_array
        (pos 1750000000)
        demo_target
        ocsp_only
      ≡ done t (ok certs))
    × Vouched responder_net demo_parse demo_sha1 3 certs
good_printed =
    run_scan-Vouched responder_net demo_parse demo_sha1 empty_array (pos 1750000000) (λ host. false)
      last_waits demo_target ocsp_only good_scan 6047 good_scan_done good_row
