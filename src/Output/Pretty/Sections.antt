-- ===== src/Output/Pretty/Sections.antt =====
-- The sections that the report of a scan has, by the options that the scan ran with.
use ru_ssl.Ciphers.Listing.{GrantedWithin}
use ru_ssl.Prelude.{
  ℕ, ◌<◌, ◌≡◌, ◌↔◌, refl, ap, Bool, true, false, List, [], ◌∷◌, ◌++◌, Option, none, some, is_some,
  map, if◌then◌else◌,
}
use ru_ssl.Prelude.Int.{ℤ}
use ru_ssl.Text.{Str, Bytes, codes}
use ru_ssl.Async.{Future, done}
use ru_ssl.Error.{ok}
use ru_ssl.X509.{Parsed}
use ru_ssl.Net.{Net}
use ru_ssl.Target.{Target, ScanOpts}
use ru_ssl.Ct.{Json}
use ru_ssl.Handshake.{ProtocolResult}
use ru_ssl.Ciphers.{CipherResult, probe_suites}
use ru_ssl.Vulns.{VulnResult, check_all}
use ru_ssl.Connection.Inspect.{ConnectionProperties, inspect}
use ru_ssl.Scan.Connected.{run_scan-Succeeds}
use ru_ssl.Scan.{ScanResult, run_scan}
use ru_ssl.Scan.Contents.{run_scan-Contents}
use ru_ssl.Output.Pretty.{Section, report, if_some, unless_empty, cipher_section, vuln_section}
use ru_ssl.Output.Pretty.Rows.{warning_sign}

abbrev pub titles : List Section → List Str
titles = map (λ (s : Section). s.title)

abbrev pub title_if : Bool → Str → List Str
title_if b title = if b then title ∷ [] else []

titles-append : (ss us : List Section) → titles (ss ++ us) ≡ titles ss ++ titles us
titles-append [] us = refl
titles-append (s ∷ ss) us = ap (◌∷◌ s.title) (titles-append ss us)

cipher_titles :
    (b : Bool) (cs : List CipherResult)
    → map (λ (c : CipherResult). c.suite) cs ≡ (if b then probe_suites else [])
    → titles (unless_empty cipher_section cs) ≡ title_if b (codes "🔐 Cipher Suites")
cipher_titles true [] e = cc
cipher_titles true (c ∷ cs) e = refl
cipher_titles false [] e = refl
cipher_titles false (c ∷ cs) e = cc

vuln_titles :
    (b : Bool) (ps : List ProtocolResult) (vs : List VulnResult)
    → vs ≡ (if b then check_all ps else [])
    → titles (unless_empty vuln_section vs)
      ≡ title_if b (warning_sign ++ codes "  Vulnerability Checks")
unfolding check_all
vuln_titles true ps vs e = rw e refl
vuln_titles false ps vs e = rw e refl

connection_titles :
    (conn : Option ConnectionProperties)
    → titles (if_some conn) ≡ title_if (is_some conn) (codes "🔗 Connection Properties")
connection_titles none = refl
connection_titles (some conn) = refl

module _ (net : Net) (parse : Bytes → Parsed) (sha1 : Bytes → Bytes) (from_slice : Bytes → Json)
    (clock : ℤ) (target : Target) (opts : ScanOpts) (is_ip : Str → Bool)
    (acquire : Str → Future (Unit {0})) (wait : ℕ) (limited : 0 < opts.timeout_secs)
    (granted : GrantedWithin acquire wait probe_suites) where
  -- Under a positive time limit, if each task is granted its permit within some time, the report
  -- of a scan that succeeds has a section for the certificate and one for the protocols, then one
  -- for the suites exactly if they are enumerated, one for the connection exactly if it is
  -- checked and `inspect` of it completes with its properties, and one for the vulnerabilities
  -- exactly if they are checked, in this order.
  pub titles-report :
      (r : ScanResult) (t : ℕ)
      → run_scan net parse sha1 from_slice clock is_ip acquire target opts ≡ done t (ok r)
      → (shown : Bool) × (titles (report r)
          ≡ codes "📜 Certificate"
            ∷ codes "🔒 Protocol Support"
            ∷ (title_if opts.enumerate_ciphers (codes "🔐 Cipher Suites")
                ++ (title_if shown (codes "🔗 Connection Properties")
                    ++ title_if opts.check_vulns (warning_sign ++ codes "  Vulnerability Checks"))))
        × ((shown ≡ true) ↔ (
            (opts.check_connection ≡ true)
            × (t' : ℕ) × (props : ConnectionProperties) × (inspect net parse is_ip target opts
                  r.protocols
                ≡ done t' (ok props))))
  unfolding report
  titles-report r t e =
      let contents =
        run_scan-Contents net parse sha1 from_slice clock target opts is_ip acquire wait limited
          granted r t e in
      (
        is_some r.connection,
        rw
            (
              titles-append (unless_empty cipher_section r.cipher_suites)
                  (if_some r.connection ++ unless_empty vuln_section r.vulnerabilities),
              titles-append (if_some r.connection) (unless_empty vuln_section r.vulnerabilities),
              cipher_titles opts.enumerate_ciphers r.cipher_suites contents.suites_probed,
              connection_titles r.connection,
              vuln_titles opts.check_vulns r.protocols r.vulnerabilities contents.vulns_checked,
            )
            refl,
        run_scan-Succeeds net parse sha1 from_slice clock is_ip acquire target opts r t e,
      )
