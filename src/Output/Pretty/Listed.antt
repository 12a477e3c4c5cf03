-- ===== src/Output/Pretty/Listed.antt =====
-- The revocation status that a responder has on its list, in the printed report.
use mathlib.Core.List.{Memᴰ}
use mathlib.Core.List.Memᴰ.{append_right}
use ru_ssl.Prelude.{
  ℕ, ◌+◌, ◌*◌, ◌≤◌, ◌<◌, ◌≡◌, inr, refl, sym, ap, ◌∙◌, Bool, true, List, [], ◌∷◌, Option, none,
  some, is_some, length,
}
use ru_ssl.Prelude.Int.{ℤ}
use ru_ssl.Text.{Str, Bytes, AllBytes, codes}
use ru_ssl.Error.{Result, ok, err}
use ru_ssl.Async.{Future, done, CompletesWithin}
use ru_ssl.Async.Values.{done_injective}
use ru_ssl.X509.{Certificate, Parsed, parsed}
use ru_ssl.Net.{Net}
use ru_ssl.Target.{Target, ScanOpts, addr}
use ru_ssl.Der.RoundTrip.{FitsReader}
use ru_ssl.Ct.{Json}
use ru_ssl.Cert.{CertInfo, cert_info}
use ru_ssl.Cert.Inspect.{capture_chain, leaf_info, inspect}
use ru_ssl.Cert.Checked.{inspect-status, inspect-check}
use ru_ssl.Cert.Total.{inspect-Keeps}
use ru_ssl.Ciphers.Permits.{IsSemaphore, IsSemaphore-GrantedWithin}
use ru_ssl.Ocsp.{ocsp_url, build_request, status_of_tag}
use ru_ssl.Ocsp.Check.{status_text, check}
use ru_ssl.Ocsp.Responder.{Responder, Address, Reachable, url_of, id_of, check-listed}
use ru_ssl.Scan.{ScanResult, run_scan}
use ru_ssl.Scan.Outcome.{CarriesCertificate, run_scan-CarriesCertificate}
use ru_ssl.Output.Pretty.Rows.{fixed_rows, cert_rows}
use ru_ssl.Output.Pretty.Revocation.{status_row}

is_some-true : (o : Option Str) → is_some o ≡ true → (s : Str) × (o ≡ some s)
is_some-true none e = cc
is_some-true (some s) e = (s, refl)

carried :
    (c : CertInfo) (out : Result ScanResult)
    → CarriesCertificate (ok c) out
    → (s : ScanResult) × (out ≡ ok s) × (s.certificate ≡ c)
carried c (ok s) h = (s, refl, h)
carried c (err e) h = absurd h

cert_rows-shown :
    (c : CertInfo) (status : Str)
    → c.ocsp_status ≡ some status
    → Memᴰ (status_row status) (cert_rows c)
unfolding cert_rows
cert_rows-shown c status e = rw e (append_right (fixed_rows c) (Memᴰ.head refl))

module _ (net : Net) (r : Responder) (a : Address) (there : Reachable net r a)
    (parse : Bytes → Parsed) (sha1 : Bytes → Bytes) (from_slice : Bytes → Json) (clock : ℤ)
    (is_ip : Str → Bool) (acquire : Str → Future (Unit {0})) (target : Target) (opts : ScanOpts)
    (leaf issuer : Certificate) (first second : Bytes) (rest : List Bytes)
    (captured_ms lookup_ms : ℕ) (limited : 0 < opts.timeout_secs) (checked : opts.check_ocsp ≡ true)
    (semaphore : IsSemaphore net target acquire opts.timeout_secs)
    (resolves : CompletesWithin lookup_ms (net.lookup_host (addr target)))
    (captures : capture_chain net parse sha1 from_slice clock target opts
      ≡ done captured_ms (ok (first ∷ second ∷ rest)))
    (leaf_read : parse first ≡ parsed leaf) (issuer_read : parse second ≡ parsed issuer)
    (names : ocsp_url leaf.extensions ≡ some (url_of a)) (serial_bytes : AllBytes leaf.raw_serial)
    (fits : FitsReader (build_request sha1 leaf issuer))
    (in_time : there.connects + there.answers ≤ opts.timeout_secs * 1000) where
  abbrev chain : List Bytes
  chain = first ∷ second ∷ rest

  abbrev text : Str
  text = status_text (status_of_tag (r.list (id_of sha1 leaf issuer)).cert_status.0)

  leaf_known :
      leaf_info net parse sha1 from_slice clock target opts chain
      ≡ ok (cert_info leaf clock (length chain))
  unfolding leaf_info
  leaf_known = rw leaf_read refl

  -- What the check said of the captured chain is the text of the listed status.
  said :
      (certs : List Bytes) (t t' : ℕ) (status : Str)
      → capture_chain net parse sha1 from_slice clock target opts ≡ done t (ok certs)
      → check net parse sha1 opts.timeout_secs certs ≡ done t' (ok status)
      → status ≡ text
  said certs t t' status captured e =
      let same = done_injective captured_ms t _ _ (sym captures ∙ captured) in
      let listed =
        check-listed net r a there sha1 leaf issuer serial_bytes fits opts.timeout_secs
          (inr in_time) parse first second rest leaf_read issuer_read names in
      let chain_same : chain ≡ certs = cc in
      let both : done t' (ok status) ≡ done (there.connects + there.answers) (ok text) =
        sym e ∙ (rw chain_same at listed) in
      cc

  inspected :
      (t : ℕ) × (out : CertInfo) × (inspect net parse sha1 from_slice clock target opts
        ≡ done t (ok out))
      × (out.ocsp_status ≡ some text)
  inspected =
      let (t, out, e, _, _) =
        inspect-Keeps net parse sha1 from_slice clock target opts limited captured_ms chain
          (cert_info leaf clock (length chain)) captures leaf_known in
      let has = (inspect-status net parse sha1 from_slice clock target opts out t e).0 ∙ checked in
      let (status, shown) = is_some-true out.ocsp_status has in
      let (certs, t', t'', captured, told) =
        inspect-check net parse sha1 from_slice clock target opts out t status e shown in
      (t, out, e, shown ∙ ap some (said certs t' t'' status captured told))

  -- Against a responder that reads each request and answers it with the well-formed response on
  -- its list: under a positive time limit, if the semaphore keeps what tokio documents of it and
  -- the host's address is resolved within some time, a scan with the OCSP check on whose
  -- handshake captures a chain of a leaf and an issuer that parse, where the leaf names the
  -- responder by a well-formed URL, its serial number is made of bytes, the request is shorter
  -- than 2^32 bytes, and connecting and the answer take no longer than the limit, succeeds, and
  -- the table on the certificate has the row with the text of the status that the list has for
  -- the digests of the issuer's name and key and the value of the leaf's serial number.
  pub run_scan-listed :
      (t : ℕ) × (s : ScanResult) × (run_scan net parse sha1 from_slice clock is_ip acquire target
          opts
        ≡ done t (ok s))
      × Memᴰ (codes "OCSP Status" ∷ text ∷ []) (cert_rows s.certificate)
  run_scan-listed =
      let (t, out, e, shown) = inspected in
      let granted =
        IsSemaphore-GrantedWithin net target acquire opts.timeout_secs limited semaphore in
      let (t', result, scanned, carries, _) =
        run_scan-CarriesCertificate net parse sha1 from_slice clock is_ip acquire target opts
          (opts.timeout_secs * 1000) lookup_ms limited granted resolves t (ok out) e in
      let (s, is_ok, same) = carried out result carries in
      (
        t',
        s,
        rw is_ok at scanned,
        cert_rows-shown s.certificate text (ap (λ (c : CertInfo). c.ocsp_status) same ∙ shown),
      )
