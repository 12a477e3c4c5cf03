-- ===== src/Main/Exit.antt =====
-- When the program reports success.
use ru_ssl.Ciphers.{probe_suites}
use ru_ssl.Ciphers.Listing.{GrantedWithin}
use ru_ssl.Ciphers.Permits.{IsSemaphore, IsSemaphore-GrantedWithin}
use ru_ssl.Prelude.{
  ℕ, ◌+◌, ◌≤◌, ◌<◌, ◌≡◌, ◌*◌, refl, [], ◌∷◌, ◌++◌, Bool, true, false, ◌⊎◌, inl, inr, arith,
  if◌then◌else◌,
}
use ru_ssl.Prelude.Int.{ℤ}
use ru_ssl.Text.{Str, Bytes}
use ru_ssl.Error.{ScanError, Result, ok, err, ◌>>=◌}
use ru_ssl.Async.{Future, done, CompletesWithin, CompletesWithin-done}
use ru_ssl.X509.{Parsed}
use ru_ssl.Net.{Net}
use ru_ssl.Target.{addr}
use ru_ssl.Ct.{Json}
use ru_ssl.Cert.{CertInfo}
use ru_ssl.Cert.Inspect.{inspect as inspect_certificate}
use ru_ssl.Cert.Total.{inspect-CompletesWithin}
use ru_ssl.Scan.{ScanResult}
use ru_ssl.Scan.Outcome.{CarriesCertificate, run_scan-CarriesCertificate}
use ru_ssl.Output.Json.{print as print_json}
use ru_ssl.Output.Pretty.{Table, print}
use ru_ssl.Main.{Cli, target_of, scan_opts, ExitCode, success, failure, code_of, exit_of, main}

-- What is printed of a result: the report, or the JSON text if there is one; an error of the JSON
-- writer ends the program with failure, and nothing printed.
abbrev pub Prints :
    (Table → Str) → (ScanResult → Result Str) → Bool → ScanResult → ExitCode × Str → Type 0
Prints layout to_string_pretty false s (code, text) = (code ≡ success) × (text ≡ print layout s)
Prints layout to_string_pretty true s (code, text) =
    ((json : Str) × (to_string_pretty s ≡ ok json)
      × (code ≡ success)
      × (text ≡ json ++ (b'\n' ∷ [])))
    ⊎ ((e : ScanError) × (to_string_pretty s ≡ err e) × (code ≡ failure) × (text ≡ []))

-- With a certificate, what is printed of a scan that carries it; otherwise failure, and nothing on
-- standard output.
abbrev pub Reports :
    (Table → Str) → (ScanResult → Result Str) → Bool → Result CertInfo → ExitCode × Str → Type 0
Reports layout to_string_pretty json (ok c) out =
    (s : ScanResult) × (s.certificate ≡ c) × Prints layout to_string_pretty json s out
Reports layout to_string_pretty json (err e) (code, text) = (code ≡ failure) × (text ≡ [])

exit_of-Prints :
    (layout : Table → Str) (to_string_pretty : ScanResult → Result Str) (json : Bool)
    (s : ScanResult)
    → Prints layout to_string_pretty json s
        (code_of (if json then print_json to_string_pretty s else ok (print layout s)))
unfolding print_json
exit_of-Prints layout to_string_pretty false s = (refl, refl)
exit_of-Prints layout to_string_pretty true s = written (to_string_pretty s) refl
  where
    written :
        (r : Result Str)
        → to_string_pretty s ≡ r
        → Prints layout to_string_pretty true s (code_of (r >>= λ text. ok (text ++ (b'\n' ∷ []))))
    written (ok text) e = inl (text, e, refl, refl)
    written (err x) e = inr (x, e, refl, refl)

exit_of-Reports :
    (layout : Table → Str) (to_string_pretty : ScanResult → Result Str) (cli : Cli)
    (r : Result CertInfo) (out : Result ScanResult)
    → CarriesCertificate r out
    → Reports layout to_string_pretty cli.json r (exit_of layout to_string_pretty cli out)
exit_of-Reports layout to_string_pretty cli (ok c) (ok s) h =
    (s, h, exit_of-Prints layout to_string_pretty cli.json s)
exit_of-Reports layout to_string_pretty cli (err e) (err e') h = (refl, refl)
exit_of-Reports layout to_string_pretty cli (ok c) (err e) h = absurd h
exit_of-Reports layout to_string_pretty cli (err e) (ok s) h = absurd h

module _ (net : Net) (parse : Bytes → Parsed) (sha1 : Bytes → Bytes) (from_slice : Bytes → Json)
    (clock : ℤ) (is_ip : Str → Bool) (acquire : Str → Future (Unit {0})) (layout : Table → Str)
    (to_string_pretty : ScanResult → Result Str) (cli : Cli) (wait lookup_ms : ℕ)
    (limited : 0 < cli.timeout) (granted : GrantedWithin acquire wait probe_suites)
    (resolves : CompletesWithin lookup_ms (net.lookup_host (addr (target_of cli)))) where
  main_exits_within :
      (t : ℕ) × (r : Result CertInfo) × (t' : ℕ) × (out : ExitCode × Str) × (inspect_certificate net
          parse sha1 from_slice clock
          (target_of cli)
          (scan_opts cli)
        ≡ done t r)
      × (main net parse sha1 from_slice clock is_ip acquire layout to_string_pretty cli
          ≡ done t' (ok out))
      × Reports layout to_string_pretty cli.json r out
      × (t' ≤ 7 * (cli.timeout * 1000) + (wait + (lookup_ms + 3000)))
  unfolding main target_of scan_opts
  main_exits_within =
      let (t, r, inspected, early) = CompletesWithin-done _ _ (
        inspect-CompletesWithin net parse sha1 from_slice clock (target_of cli) (scan_opts cli)
          limited) in
      let (t', out, scanned, same, h) =
        run_scan-CarriesCertificate net parse sha1 from_slice clock is_ip acquire (target_of cli)
          (scan_opts cli) wait lookup_ms limited granted resolves t r inspected in
      (
        t,
        r,
        t' + 0,
        exit_of layout to_string_pretty cli out,
        inspected,
        rw scanned refl,
        exit_of-Reports layout to_string_pretty cli r out same,
        omega arith,
      )

module _ (net : Net) (parse : Bytes → Parsed) (sha1 : Bytes → Bytes) (from_slice : Bytes → Json)
    (clock : ℤ) (is_ip : Str → Bool) (acquire : Str → Future (Unit {0})) (layout : Table → Str)
    (to_string_pretty : ScanResult → Result Str) (cli : Cli) (lookup_ms : ℕ)
    (limited : 0 < cli.timeout) (semaphore : IsSemaphore net (target_of cli) acquire cli.timeout)
    (resolves : CompletesWithin lookup_ms (net.lookup_host (addr (target_of cli)))) where
  -- Under a positive time limit, if the semaphore keeps what tokio documents of it and the host's
  -- address is resolved within some time, the program always completes, within eight time limits,
  -- that time and three seconds. If the inspection of the certificate ends with one, a scan that
  -- carries it is printed, with success as the report for text output, and for JSON output as the
  -- JSON text, or with failure and nothing printed if the JSON writer fails. If the inspection
  -- ends with an error, the program fails with nothing on standard output.
  pub main_exit :
      (t : ℕ) × (r : Result CertInfo) × (t' : ℕ) × (out : ExitCode × Str) × (inspect_certificate net
          parse sha1 from_slice clock
          (target_of cli)
          (scan_opts cli)
        ≡ done t r)
      × (main net parse sha1 from_slice clock is_ip acquire layout to_string_pretty cli
          ≡ done t' (ok out))
      × Reports layout to_string_pretty cli.json r out
      × (t' ≤ 8 * (cli.timeout * 1000) + (lookup_ms + 3000))
  main_exit =
      let granted =
        IsSemaphore-GrantedWithin net (target_of cli) acquire cli.timeout limited semaphore in
      let (t, r, t', out, inspected, exits, reports, within) =
        main_exits_within net parse sha1 from_slice clock is_ip acquire layout to_string_pretty cli
          (cli.timeout * 1000) lookup_ms limited granted resolves in
      (t, r, t', out, inspected, exits, reports, omega arith)
