-- ===== src/Tests/Scanner.antt =====
-- The theorems on the scan at concrete inputs: certificates, headers and a network that answers.
use ru_ssl.Tests.Demo.{
  presented, recent, chain_net, demo_target, always_parsed, no_digest, empty_array,
}
use ru_ssl.Prelude.{
  ℕ, ◌+◌, ◌*◌, ◌≡◌, ◌≢◌, ◌↔◌, refl, Bool, true, false, List, [], ◌∷◌, none, some, arith, map, all,
}
use ru_ssl.Prelude.Int.{pos, ◌≤ℤ◌, later}
use ru_ssl.Text.{Str, codes}
use ru_ssl.Error.{timeout, ok, err}
use ru_ssl.Async.{Future, done, with_timeout}
use ru_ssl.Target.{ScanOpts}
use ru_ssl.Cert.Verifier.{
  captured, verify, verify_server_cert, new_capture, verdicts, schemes, supported_verify_schemes,
  server_cert_verified, handshake_signature_valid,
}
use ru_ssl.Cert.Capture.{verify-Transparent}
use ru_ssl.Cert.{cert_info, seconds_per_day}
use ru_ssl.Cert.Validity.{is_expired_iff}
use ru_ssl.Cert.Keys.{BelowMinimum, rsa_oid, weak_key_iff}
use ru_ssl.Cert.Inspect.{capture_chain, leaf_info, inspect}
use ru_ssl.Cert.Total.{Keeps, inspect-Keeps}
use ru_ssl.Handshake.{ProtocolResult, HandshakeInfo, tls12, tls13, protocol_result}
use ru_ssl.Handshake.Probe.{probe_protocols}
use ru_ssl.Vulns.{check_all}
use ru_ssl.Vulns.Inference.{NoneFound, check_all-NoneFound}
use ru_ssl.Connection.ForwardSecrecy.{detail, forward_secrecy, supported_of}
use ru_ssl.Connection.ForwardSecrecy.Verdict.{secret, forward_secrecy_lem}
use ru_ssl.Connection.Hsts.{parse_hsts}
use ru_ssl.Connection.Hsts.Header.{quoted_max_age, max_age, include_subdomains, print_hsts}
use ru_ssl.Connection.Hsts.RoundTrip.{parse_hsts-print_hsts}

recent_expiry :
    ((cert_info recent (pos 1800003600) 1).is_expired ≡ true)
    ↔ (later recent.not_after seconds_per_day ≤ℤ pos 1800003600)
recent_expiry = is_expired_iff recent (pos 1800003600) 1

small_rsa :
    ((cert_info recent (pos 1750000000) 1).weak_key ≡ true) ↔ BelowMinimum rsa_oid (some 1024)
small_rsa = weak_key_iff recent (pos 1750000000) 1 (omega arith)

abbrev demo_opts : ScanOpts
demo_opts = record {
  enumerate_ciphers = false;
  check_vulns = true;
  check_ocsp = true;
  check_ct = true;
  check_connection = false;
  timeout_secs = 10;
}

scan_kept :
    Keeps
      (12 + (10 * 1000 + 10 * 1000))
      (cert_info recent (pos 1750000000) 2)
      (inspect chain_net always_parsed no_digest empty_array (pos 1750000000) demo_target demo_opts)
unfolding capture_chain leaf_info with_timeout captured verify verify_server_cert
scan_kept =
    inspect-Keeps chain_net always_parsed no_digest empty_array (pos 1750000000) demo_target
      demo_opts (omega arith) 12 ((1 ∷ []) ∷ (2 ∷ []) ∷ []) (cert_info recent (pos 1750000000) 2)
      refl refl

abbrev slow : Future ℕ
slow = done 5000 (ok 3)

abbrev negotiated : HandshakeInfo
negotiated = record { cipher = some (codes "TLS13_AES_256_GCM_SHA384"); group = none }

nothing_found :
    (protocols : List ProtocolResult) × (time : ℕ) × (probe_protocols chain_net demo_target 10
      ≡ done time (ok protocols))
    × NoneFound (check_all protocols)
nothing_found = check_all-NoneFound chain_net demo_target 10 (omega arith)

abbrev probed : List ProtocolResult
probed = protocol_result tls12 (err timeout) ∷ protocol_result tls13 (ok negotiated) ∷ []

secrecy :
    ((forward_secrecy probed).protocols ≡ map detail (supported_of probed))
    × (((forward_secrecy probed).all_forward_secret ≡ true)
        ↔ ((supported_of probed ≢ []) × (all secret (supported_of probed) ≡ true)))
secrecy = forward_secrecy_lem probed

abbrev no_address : Str → Bool
no_address host = false

abbrev year : Str
year = codes "max-age=31536000; includeSubDomains"

calls_kept :
    (verdicts new_capture presented
      ≡ schemes supported_verify_schemes ∷ server_cert_verified ∷ handshake_signature_valid ∷ [])
    × ((captured new_capture presented).certs ≡ (1 ∷ []) ∷ (2 ∷ []) ∷ [])
    × ((captured new_capture presented).ocsp ≡ 9 ∷ [])
calls_kept = verify-Transparent new_capture presented

year_written :
    parse_hsts (some (print_hsts (quoted_max_age 31536000) (include_subdomains ∷ max_age 600 ∷ [])))
    ≡ record {
      present = true;
      max_age = some 600;
      include_subdomains = true;
      preload = false;
      header = some (print_hsts (quoted_max_age 31536000) (include_subdomains ∷ max_age 600 ∷ []));
    }
year_written =
    parse_hsts-print_hsts (quoted_max_age 31536000) (include_subdomains ∷ max_age 600 ∷ [])
      (omega arith, (tt, (omega arith, tt)))
