-- ===== src/Output/Pretty/Revocation.antt =====
-- What the revocation row of a printed report rests on.
use mathlib.Core.List.{Memᴰ}
use ru_ssl.Prelude.{ℕ, ◌≡◌, ◌≢◌, ap, ◌∙◌, Bool, List, [], ◌∷◌, ◌++◌, Option, none, some, arith, All}
use ru_ssl.Prelude.Int.{ℤ}
use ru_ssl.Text.{Str, Bytes, codes, to_string}
use ru_ssl.Error.{ok}
use ru_ssl.Async.{Future, done}
use ru_ssl.X509.{Parsed}
use ru_ssl.Net.{Net}
use ru_ssl.Target.{Target, ScanOpts}
use ru_ssl.Ct.{Json}
use ru_ssl.Cert.{CertInfo}
use ru_ssl.Cert.Inspect.{capture_chain}
use ru_ssl.Cert.Checked.{inspect-check}
use ru_ssl.Ocsp.Soundness.{Vouched, check-Vouched}
use ru_ssl.Scan.Parts.{run_scan-Steps}
use ru_ssl.Scan.{ScanResult, run_scan}
use ru_ssl.Output.Pretty.Rows.{Row, fixed_rows, ocsp_rows, ct_rows, cert_rows}

abbrev first_char : Row → ℕ
first_char ((c ∷ s) ∷ cells) = c
first_char _ = 0

-- A row stands behind the rows that begin with another character.
Mem-behind :
    (row : Row) (before rest : List Row)
    → All (λ r. first_char row ≢ first_char r) before
    → Memᴰ row (before ++ rest)
    → Memᴰ row rest
Mem-behind row [] rest h m = m
Mem-behind row (r ∷ before) rest (other, h) (Memᴰ.head e) = absurd (other (ap first_char e))
Mem-behind row (r ∷ before) rest (other, h) (Memᴰ.tail m) = Mem-behind row before rest h m

abbrev pub status_row : Str → Row
status_row status = codes "OCSP Status" ∷ status ∷ []

other_row : (status : Str) (n : ℕ) → status_row status ≢ (codes "CT Log Entries" ∷ to_string n ∷ [])
other_row status n e =
    let count_row : Row = codes "CT Log Entries" ∷ to_string n ∷ [] in
    let same : first_char (status_row status) ≡ first_char count_row = ap first_char e in
    omega arith

optional_rows-status :
    (o : Option Str) (count : Option ℕ) (status : Str)
    → Memᴰ (status_row status) (ocsp_rows o ++ ct_rows count)
    → o ≡ some status
optional_rows-status (some s) count status (Memᴰ.head e) = cc
optional_rows-status (some s) none status (Memᴰ.tail m) = elim m [ ]
optional_rows-status (some s) (some n) status (Memᴰ.tail (Memᴰ.head e)) =
    absurd (other_row status n e)
optional_rows-status (some s) (some n) status (Memᴰ.tail (Memᴰ.tail m)) = elim m [ ]
optional_rows-status none none status m = elim m [ ]
optional_rows-status none (some n) status (Memᴰ.head e) = absurd (other_row status n e)
optional_rows-status none (some n) status (Memᴰ.tail m) = elim m [ ]

cert_rows-status :
    (c : CertInfo) (status : Str)
    → Memᴰ (status_row status) (cert_rows c)
    → c.ocsp_status ≡ some status
unfolding cert_rows
cert_rows-status c status m = optional_rows-status c.ocsp_status c.ct_log_entries status (
    Mem-behind (status_row status) (fixed_rows c)
      (ocsp_rows c.ocsp_status ++ ct_rows c.ct_log_entries) (omega arith) m)

module _ (net : Net) (parse : Bytes → Parsed) (sha1 : Bytes → Bytes) (from_slice : Bytes → Json)
    (clock : ℤ) (is_ip : Str → Bool) (acquire : Str → Future (Unit {0})) (target : Target)
    (opts : ScanOpts) where
  -- If the report of a scan that succeeds has, in its table on the certificate, the row that
  -- gives the OCSP status as `Good`, then the handshake captured a chain that begins with a leaf
  -- and an issuer that both parse, the leaf names a responder whose URL is accepted, and the
  -- request built for the two was answered there, under the time limit, with an HTTP status of
  -- 200 and an OCSP response that is read as good.
  pub run_scan-Vouched :
      (r : ScanResult) (t : ℕ)
      → run_scan net parse sha1 from_slice clock is_ip acquire target opts ≡ done t (ok r)
      → Memᴰ (codes "OCSP Status" ∷ codes "Good" ∷ []) (cert_rows r.certificate)
      → (certs : List Bytes) × (t' : ℕ) × (capture_chain net parse sha1 from_slice clock target opts
          ≡ done t' (ok certs))
        × Vouched net parse sha1 opts.timeout_secs certs
  run_scan-Vouched r t e row =
      let steps = run_scan-Steps net parse sha1 from_slice clock is_ip acquire target opts r t e in
      let same = ap (λ (s : ScanResult). s.certificate) steps.assembled in
      let shown = same_status same (cert_rows-status r.certificate (codes "Good") row) in
      let (certs, t', t'', captured, said) =
        inspect-check net parse sha1 from_slice clock target opts steps.certificate
          steps.t_certificate (codes "Good") steps.inspected shown in
      (certs, t', captured, check-Vouched net parse sha1 opts.timeout_secs certs t'' said)
    where
      same_status :
          {a b : CertInfo} {s : Str} → a ≡ b → b.ocsp_status ≡ some s → a.ocsp_status ≡ some s
      same_status e h = ap (λ (c : CertInfo). c.ocsp_status) e ∙ h
