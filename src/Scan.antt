-- ===== src/Scan.antt =====
-- scanner/mod.rs: `run_scan`, which runs the parts one after the other.
pub mod Parts
pub mod Outcome
pub mod Contents
pub mod Connected
use ru_ssl.Prelude.{ℕ, Bool, List, [], Option, none, some, if◌then◌else◌}
use ru_ssl.Prelude.Int.{ℤ}
use ru_ssl.Text.{Str, Bytes}
use ru_ssl.Error.{Result, ok, err}
use ru_ssl.Async.{Future, now, settle, ◌>>=◌}
use ru_ssl.X509.{Parsed}
use ru_ssl.Net.{Net}
use ru_ssl.Target.{Target, ScanOpts}
use ru_ssl.Ct.{Json}
use ru_ssl.Cert.{CertInfo}
use ru_ssl.Cert.Inspect.{inspect as inspect_certificate}
use ru_ssl.Handshake.{ProtocolResult}
use ru_ssl.Handshake.Probe.{probe_protocols}
use ru_ssl.Ciphers.{CipherResult}
use ru_ssl.Ciphers.Enumerate.{enumerate}
use ru_ssl.Vulns.{VulnResult, check_all}
use ru_ssl.Connection.Inspect.{ConnectionProperties, inspect as inspect_connection}

pub record ScanResult : Type 0 where
  pub host : Str
  pub port : ℕ
  pub certificate : CertInfo
  pub protocols : List ProtocolResult
  pub cipher_suites : List CipherResult
  pub vulnerabilities : List VulnResult
  pub connection : Option ConnectionProperties

-- A failure of the connection checks is only logged.
abbrev pub or_none : Result ConnectionProperties → Option ConnectionProperties
or_none (ok props) = some props
or_none (err e) = none

-- The parameters stand for other crates: the network, the parsers, the digest, the clock, the test
-- for an IP address, and the semaphore.
module _ (net : Net) (parse : Bytes → Parsed) (sha1 : Bytes → Bytes) (from_slice : Bytes → Json)
    (clock : ℤ) (is_ip : Str → Bool) (acquire : Str → Future (Unit {0})) (target : Target)
    (opts : ScanOpts) where
  unfoldable pub scan_ciphers : Future (List CipherResult)
  scan_ciphers =
      if opts.enumerate_ciphers then enumerate net target acquire opts.timeout_secs else now (ok [])

  unfoldable pub scan_vulns : List ProtocolResult → Future (List VulnResult)
  scan_vulns protocols = if opts.check_vulns then now (ok (check_all protocols)) else now (ok [])

  unfoldable pub scan_connection : List ProtocolResult → Future (Option ConnectionProperties)
  scan_connection protocols =
      if opts.check_connection
      then (settle (inspect_connection net parse is_ip target opts protocols) >>= λ r.
          now (ok (or_none r)))
      else now (ok none)

  unfoldable pub run_scan : Future ScanResult
  run_scan = do
    certificate ← inspect_certificate net parse sha1 from_slice clock target opts
    protocols ← probe_protocols net target opts.timeout_secs
    cipher_suites ← scan_ciphers
    vulnerabilities ← scan_vulns protocols
    connection ← scan_connection protocols
    now (
        ok (record {
          host = target.host;
          port = target.port;
          certificate = certificate;
          protocols = protocols;
          cipher_suites = cipher_suites;
          vulnerabilities = vulnerabilities;
          connection = connection;
        }))
