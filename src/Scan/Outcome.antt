-- ===== src/Scan/Outcome.antt =====
-- Which step can fail a scan, and how long a scan takes.
use Prim.Native.Nat.{max}
use ru_ssl.Prelude.{ℕ, ◌+◌, ◌*◌, ◌≤◌, ◌<◌, ◌≡◌, refl, Bool, List, [], Option, none, arith}
use ru_ssl.Prelude.Int.{ℤ}
use ru_ssl.Text.{Str, Bytes}
use ru_ssl.Error.{Result, ok, err}
use ru_ssl.Async.{Future, done, CompletesWithin}
use ru_ssl.X509.{Parsed}
use ru_ssl.Net.{Net}
use ru_ssl.Target.{Target, ScanOpts, addr}
use ru_ssl.Ct.{Json}
use ru_ssl.Cert.{CertInfo}
use ru_ssl.Cert.Inspect.{inspect as inspect_certificate}
use ru_ssl.Handshake.{ProtocolResult}
use ru_ssl.Handshake.Probe.{probe_protocols}
use ru_ssl.Handshake.Outcome.{probe_protocols_lem}
use ru_ssl.Ciphers.{probe_suites, CipherResult}
use ru_ssl.Ciphers.Listing.{GrantedWithin, enumerate-Lists}
use ru_ssl.Vulns.{VulnResult, check_all}
use ru_ssl.Async.Within.{Succeeds, if-Succeeds}
use ru_ssl.Connection.Inspect.{ConnectionProperties}
use ru_ssl.Connection.Inspect.Outcome.{report, inspect_outcome}
use ru_ssl.Scan.{ScanResult, or_none, scan_ciphers, scan_vulns, scan_connection, run_scan}

-- The scan's result carries the certificate, or its error is that of the certificate.
abbrev pub CarriesCertificate : Result CertInfo → Result ScanResult → Type 0
CarriesCertificate (ok c) (ok s) = s.certificate ≡ c
CarriesCertificate (err e) (err e') = e ≡ e'
CarriesCertificate (ok _) (err _) = ⊥
CarriesCertificate (err _) (ok _) = ⊥

module _ (net : Net) (parse : Bytes → Parsed) (sha1 : Bytes → Bytes) (from_slice : Bytes → Json)
    (clock : ℤ) (is_ip : Str → Bool) (acquire : Str → Future (Unit {0})) (target : Target)
    (opts : ScanOpts) (wait lookup_ms : ℕ) (limited : 0 < opts.timeout_secs)
    (granted : GrantedWithin acquire wait probe_suites)
    (resolves : CompletesWithin lookup_ms (net.lookup_host (addr target))) where
  abbrev limit : ℕ
  limit = opts.timeout_secs * 1000

  abbrev scan : Future ScanResult
  scan = run_scan net parse sha1 from_slice clock is_ip acquire target opts

  protocols-Succeeds :
      Succeeds (List ProtocolResult) (2 * limit) (probe_protocols net target opts.timeout_secs)
  protocols-Succeeds =
      let (t, t', r, r', _, _, e, h) = probe_protocols_lem net target opts.timeout_secs limited in
      (t + t', _, e, h)

  scan_ciphers-Succeeds :
      Succeeds
        (List CipherResult)
        (wait + limit)
        (scan_ciphers net parse sha1 from_slice clock is_ip acquire target opts)
  unfolding scan_ciphers
  scan_ciphers-Succeeds =
      let (t, cs, e, _, h) =
        enumerate-Lists net target acquire opts.timeout_secs wait limited granted in
      if-Succeeds (wait + limit) opts.enumerate_ciphers _ [] (t, cs, e, h)

  scan_vulns-Succeeds :
      (ps : List ProtocolResult)
      → Succeeds
          (List VulnResult)
          0
          (scan_vulns net parse sha1 from_slice clock is_ip acquire target opts ps)
  unfolding scan_vulns
  scan_vulns-Succeeds ps = if-Succeeds 0 opts.check_vulns _ [] (0, check_all ps, refl, omega arith)

  scan_connection-Succeeds :
      (ps : List ProtocolResult)
      → Succeeds
          (Option ConnectionProperties)
          (limit + (lookup_ms + 3000))
          (scan_connection net parse sha1 from_slice clock is_ip acquire target opts ps)
  unfolding scan_connection
  scan_connection-Succeeds ps =
      let (t, t', t'', r, no_sni, h, _, _, _, e, b) =
        inspect_outcome net target opts.timeout_secs lookup_ms limited resolves parse is_ip opts ps
          refl in
      if-Succeeds (limit + (lookup_ms + 3000)) opts.check_connection _ none (
        max t (max t' t'') + 0,
        or_none (report parse is_ip target.host ps no_sni h r),
        rw e refl,
        omega arith,
      )

  -- What a scan takes after the certificate.
  abbrev after_certificate : ℕ
  after_certificate = 2 * limit + (wait + limit) + (limit + (lookup_ms + 3000))

  -- Under a positive time limit, if each task is granted its permit within some time and the
  -- host's address is resolved within some time, then once `inspect` of the certificate has
  -- completed, the scan completes within four more time limits, those two times and three
  -- seconds. It succeeds with that certificate if there is one, and otherwise its error is that
  -- of the certificate: no other step can fail it.
  pub run_scan-CarriesCertificate :
      (t : ℕ) (r : Result CertInfo)
      → inspect_certificate net parse sha1 from_slice clock target opts ≡ done t r
      → (t' : ℕ) × (out : Result ScanResult) × (scan ≡ done t' out)
        × CarriesCertificate r out
        × (t' ≤ t + after_certificate)
  unfolding run_scan
  run_scan-CarriesCertificate t (err e) h = (t, err e, rw h refl, refl, omega arith)
  run_scan-CarriesCertificate t (ok c) h =
      let (t₁, ps, e₁, b₁) = protocols-Succeeds in
      let (t₂, cs, e₂, b₂) = scan_ciphers-Succeeds in
      let (t₃, vs, e₃, b₃) = scan_vulns-Succeeds ps in
      let (t₄, conn, e₄, b₄) = scan_connection-Succeeds ps in
      (
        t + (t₁ + (t₂ + (t₃ + (t₄ + 0)))),
        ok (record {
          host = target.host;
          port = target.port;
          certificate = c;
          protocols = ps;
          cipher_suites = cs;
          vulnerabilities = vs;
          connection = conn;
        }),
        rw (h, e₁, e₂, e₃, e₄) refl,
        refl,
        omega arith,
      )
