-- ===== src/Scan/Parts.antt =====
-- `run_scan` of scanner/mod.rs taken apart: the steps of a scan that succeeded.
use ru_ssl.Prelude.{ℕ, ◌≡◌, Bool, List, Option}
use ru_ssl.Prelude.Int.{ℤ}
use ru_ssl.Text.{Str, Bytes}
use ru_ssl.Error.{ok}
use ru_ssl.Async.{Future, done}
use ru_ssl.Async.Values.{bind-value, now_injective}
use ru_ssl.X509.{Parsed}
use ru_ssl.Net.{Net}
use ru_ssl.Target.{Target, ScanOpts}
use ru_ssl.Ct.{Json}
use ru_ssl.Cert.{CertInfo}
use ru_ssl.Cert.Inspect.{inspect}
use ru_ssl.Handshake.{ProtocolResult}
use ru_ssl.Handshake.Probe.{probe_protocols}
use ru_ssl.Ciphers.{CipherResult}
use ru_ssl.Vulns.{VulnResult}
use ru_ssl.Connection.Inspect.{ConnectionProperties}
use ru_ssl.Scan.{ScanResult, scan_ciphers, scan_vulns, scan_connection, run_scan}

module _ (net : Net) (parse : Bytes → Parsed) (sha1 : Bytes → Bytes) (from_slice : Bytes → Json)
    (clock : ℤ) (is_ip : Str → Bool) (acquire : Str → Future (Unit {0})) (target : Target)
    (opts : ScanOpts) where
  -- What each step returned, with the time that it took, and the result made of it.
  pub record Steps (r : ScanResult) : Type 0 where
    pub t_certificate : ℕ
    pub t_protocols : ℕ
    pub t_ciphers : ℕ
    pub t_vulns : ℕ
    pub t_connection : ℕ
    pub certificate : CertInfo
    pub protocols : List ProtocolResult
    pub suites : List CipherResult
    pub vulns : List VulnResult
    pub connection : Option ConnectionProperties
    pub inspected :
        inspect net parse sha1 from_slice clock target opts ≡ done t_certificate (ok certificate)
    pub probed : probe_protocols net target opts.timeout_secs ≡ done t_protocols (ok protocols)
    pub enumerated :
        scan_ciphers net parse sha1 from_slice clock is_ip acquire target opts
        ≡ done t_ciphers (ok suites)
    pub inferred :
        scan_vulns net parse sha1 from_slice clock is_ip acquire target opts protocols
        ≡ done t_vulns (ok vulns)
    pub connected :
        scan_connection net parse sha1 from_slice clock is_ip acquire target opts protocols
        ≡ done t_connection (ok connection)
    pub assembled :
        record {
          host = target.host;
          port = target.port;
          certificate = certificate;
          protocols = protocols;
          cipher_suites = suites;
          vulnerabilities = vulns;
          connection = connection;
        }
        ≡ r

  pub run_scan-Steps :
      (r : ScanResult) (t : ℕ)
      → run_scan net parse sha1 from_slice clock is_ip acquire target opts ≡ done t (ok r)
      → Steps r
  unfolding run_scan
  run_scan-Steps r t e =
      let (t₁, t₂, certificate, e₁, e₂) =
        bind-value (inspect net parse sha1 from_slice clock target opts) _ t r e in
      let (t₃, t₄, ps, e₃, e₄) =
        bind-value (probe_protocols net target opts.timeout_secs) _ t₂ r e₂ in
      let (t₅, t₆, cs, e₅, e₆) =
        bind-value (scan_ciphers net parse sha1 from_slice clock is_ip acquire target opts) _ t₄ r
          e₄ in
      let (t₇, t₈, vs, e₇, e₈) =
        bind-value (scan_vulns net parse sha1 from_slice clock is_ip acquire target opts ps) _ t₆ r
          e₆ in
      let (t₉, t₁₀, conn, e₉, e₁₀) =
        bind-value (scan_connection net parse sha1 from_slice clock is_ip acquire target opts ps) _
          t₈ r e₈ in
      record {
        t_certificate = t₁;
        t_protocols = t₃;
        t_ciphers = t₅;
        t_vulns = t₇;
        t_connection = t₉;
        certificate = certificate;
        protocols = ps;
        suites = cs;
        vulns = vs;
        connection = conn;
        inspected = e₁;
        probed = e₃;
        enumerated = e₅;
        inferred = e₇;
        connected = e₉;
        assembled = now_injective _ r t₁₀ e₁₀;
      }
