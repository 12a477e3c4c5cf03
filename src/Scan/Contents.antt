-- ===== src/Scan/Contents.antt =====
-- What the result of a scan of scanner/mod.rs holds, by the options that it ran with.
use ru_ssl.Prelude.{
  ℕ, ◌<◌, ◌≡◌, refl, sym, ◌∙◌, Bool, true, false, ◌&&◌, List, [], ◌∷◌, ◌++◌, Option, none, is_some,
  map, All, if◌then◌else◌, append-nil, append_assoc,
}
use mathlib.Core.List.{map-append}
use ru_ssl.Prelude.Int.{ℤ}
use ru_ssl.Text.{Str, Bytes}
use ru_ssl.Error.{Result, ok, err}
use ru_ssl.Async.{Future, done, now}
use ru_ssl.Async.Values.{settle-value, now_injective}
use ru_ssl.X509.{Parsed}
use ru_ssl.Net.{Net}
use ru_ssl.Target.{Target, ScanOpts}
use ru_ssl.Ct.{Json}
use ru_ssl.Cert.Checked.{inspect-status}
use ru_ssl.Handshake.{
  ProtocolResult, HandshakeInfo, Version, label, versions, protocol_result, with_version,
}
use ru_ssl.Handshake.Probe.{attempt_handshake, probe_versions, probe_protocols}
use ru_ssl.Ciphers.{CipherResult, classify, probe_suites}
use ru_ssl.Ciphers.Enumerate.{enumerate}
use ru_ssl.Ciphers.Listing.{GrantedWithin, Lists, enumerate-Lists}
use ru_ssl.Vulns.{VulnResult, check_all}
use ru_ssl.Connection.Inspect.{ConnectionProperties}
use ru_ssl.Scan.Parts.{run_scan-Steps}
use ru_ssl.Scan.{ScanResult, scan_ciphers, scan_vulns, scan_connection, run_scan}

-- The options against what the result holds.
pub record Contents (target : Target) (opts : ScanOpts) (r : ScanResult) : Type 0 where
  pub host_kept : r.host ≡ target.host
  pub port_kept : r.port ≡ target.port
  pub ocsp_checked : is_some r.certificate.ocsp_status ≡ opts.check_ocsp
  pub ct_checked :
      is_some r.certificate.ct_log_entries ≡ (opts.check_ct && is_some r.certificate.ct_log_entries)
  pub versions_probed : map (λ (p : ProtocolResult). p.version) r.protocols ≡ map label versions
  pub suites_probed :
      map (λ (c : CipherResult). c.suite) r.cipher_suites
      ≡ (if opts.enumerate_ciphers then probe_suites else [])
  pub strengths : All (λ (c : CipherResult). c.strength ≡ classify c.suite) r.cipher_suites
  pub vulns_checked : r.vulnerabilities ≡ (if opts.check_vulns then check_all r.protocols else [])
  pub connection_checked : is_some r.connection ≡ (opts.check_connection && is_some r.connection)

protocol_result-version :
    (v : Version) (r : Result HandshakeInfo) → (protocol_result v r).version ≡ label v
protocol_result-version v (ok info) = refl
protocol_result-version v (err e) = refl

module _ (net : Net) (target : Target) (secs : ℕ) where
  probe_versions-version :
      (vs : List Version) (results : List ProtocolResult) (t : ℕ) (ps : List ProtocolResult)
      → probe_versions net target secs vs results ≡ done t (ok ps)
      → map (λ (p : ProtocolResult). p.version) ps
        ≡ map (λ (p : ProtocolResult). p.version) results ++ map label vs
  unfolding probe_versions
  probe_versions-version [] results t ps e = rw (now_injective results ps t e) (sym (append-nil _))
  probe_versions-version (v ∷ vs) results t ps e =
      let (_, t', r, _, e') =
        settle-value (attempt_handshake net target (with_version v) secs) _ t ps e in
      probe_versions-version vs (results ++ (protocol_result v r ∷ [])) t' ps e'
      ∙ rw (map-append, append_assoc, protocol_result-version v r) refl

probed-version :
    (net : Net) (target : Target) (secs t : ℕ) (ps : List ProtocolResult)
    → probe_protocols net target secs ≡ done t (ok ps)
    → map (λ (p : ProtocolResult). p.version) ps ≡ map label versions
unfolding probe_protocols
probed-version net target secs t ps e = probe_versions-version net target secs versions [] t ps e

done_result : {A : Type 0} {t t' : ℕ} {a b : A} → done t (ok a) ≡ done t' (ok b) → a ≡ b
done_result e = cc

vulns_step :
    (ps : List ProtocolResult) (vs : List VulnResult) (b : Bool) (t : ℕ)
    → (if b then now (ok (check_all ps)) else now (ok [])) ≡ done t (ok vs)
    → vs ≡ (if b then check_all ps else [])
vulns_step ps vs true t e = sym (now_injective _ vs t e)
vulns_step ps vs false t e = sym (now_injective _ vs t e)

connection_step :
    (m : Future (Option ConnectionProperties)) (b : Bool) (conn : Option ConnectionProperties)
    (t : ℕ)
    → (if b then m else now (ok none)) ≡ done t (ok conn)
    → is_some conn ≡ (b && is_some conn)
connection_step m true conn t e = refl
connection_step m false conn t e = rw (sym (now_injective none conn t e)) refl

module _ (net : Net) (parse : Bytes → Parsed) (sha1 : Bytes → Bytes) (from_slice : Bytes → Json)
    (clock : ℤ) (target : Target) (opts : ScanOpts) (is_ip : Str → Bool)
    (acquire : Str → Future (Unit {0})) (wait : ℕ) (limited : 0 < opts.timeout_secs)
    (granted : GrantedWithin acquire wait probe_suites) where
  Lists-suite :
      (names : List Str) (cs : List CipherResult)
      → Lists net target opts.timeout_secs names cs
      → (map (λ (c : CipherResult). c.suite) cs ≡ names)
        × All (λ (c : CipherResult). c.strength ≡ classify c.suite) cs
  Lists-suite [] [] h = (refl, tt)
  Lists-suite [] (c ∷ cs) h = absurd h
  Lists-suite (name ∷ names) [] h = absurd h
  Lists-suite (name ∷ names) (c ∷ cs) ((_, _, _, e, _, s), h) =
      let (suites, strengths) = Lists-suite names cs h in (cc, (cc, strengths))

  ciphers_step-suite :
      (b : Bool) (cs : List CipherResult) (t : ℕ)
      → (if b then enumerate net target acquire opts.timeout_secs else now (ok [])) ≡ done t (ok cs)
      → (map (λ (c : CipherResult). c.suite) cs ≡ (if b then probe_suites else []))
        × All (λ (c : CipherResult). c.strength ≡ classify c.suite) cs
  ciphers_step-suite true cs t e =
      let (t', cs', e', listed, _) =
        enumerate-Lists net target acquire opts.timeout_secs wait limited granted in
      rw (done_result (sym e' ∙ e)) at (Lists-suite probe_suites cs' listed)
  ciphers_step-suite false cs t e = rw (sym (now_injective [] cs t e)) (refl, tt)

  -- Under a positive time limit, if each task is granted its permit within some time, the result
  -- of a scan that succeeds keeps the host and the port, has a result for TLS 1.2 and for TLS
  -- 1.3, has an OCSP status exactly if that check is on, has the six probed suites in order with
  -- their strength classes, or none, and the vulnerability checks on the probed protocols, or
  -- none, as these options say, and has a number of CT entries and connection properties only if
  -- those checks are on.
  pub run_scan-Contents :
      (r : ScanResult) (t : ℕ)
      → run_scan net parse sha1 from_slice clock is_ip acquire target opts ≡ done t (ok r)
      → Contents target opts r
  unfolding run_scan scan_ciphers scan_vulns scan_connection
  run_scan-Contents r t e =
      let steps = run_scan-Steps net parse sha1 from_slice clock is_ip acquire target opts r t e in
      let (ocsp, ct) =
        inspect-status net parse sha1 from_slice clock target opts steps.certificate
          steps.t_certificate steps.inspected in
      let (suites, strengths) =
        ciphers_step-suite opts.enumerate_ciphers steps.suites steps.t_ciphers steps.enumerated in
      rw (sym steps.assembled) (record {
        host_kept = refl;
        port_kept = refl;
        ocsp_checked = ocsp;
        ct_checked = ct;
        versions_probed =
            probed-version net target opts.timeout_secs steps.t_protocols steps.protocols
              steps.probed;
        suites_probed = suites;
        strengths = strengths;
        vulns_checked =
            vulns_step steps.protocols steps.vulns opts.check_vulns steps.t_vulns steps.inferred;
        connection_checked =
            connection_step _ opts.check_connection steps.connection steps.t_connection
              steps.connected;
      })
