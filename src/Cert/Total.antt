-- ===== src/Cert/Total.antt =====
-- `inspect` of scanner/cert.rs as a whole, with its two optional checks.
use ru_ssl.Prelude.{
  ℕ, ◌+◌, ◌*◌, ◌<◌, ◌≤◌, ◌≡◌, refl, ap, ◌∙◌, Bool, true, false, List, none, some, if◌then◌else◌,
  arith,
}
use ru_ssl.Prelude.Int.{ℤ}
use ru_ssl.Text.{Bytes}
use ru_ssl.Error.{ok, err}
use ru_ssl.Async.{Future, done, hangs, now, settle, delay, ◌>>=◌, CompletesWithin}
use ru_ssl.Async.Within.{within}
use ru_ssl.X509.{Parsed}
use ru_ssl.Net.{Net}
use ru_ssl.Target.{Target, ScanOpts}
use ru_ssl.Cert.{CertInfo}
use ru_ssl.Ocsp.Advisory.{check_total}
use ru_ssl.Ct.{Json, entry_count}
use ru_ssl.Ct.Limit.{entry_count-CompletesWithin}
use ru_ssl.Cert.Inspect.{capture_chain, leaf_info, with_ocsp, set_ct, with_ct, inspect}

-- The fields that come from the certificate alone.
abbrev pub without_checks : CertInfo → CertInfo
without_checks info = record info { ocsp_status = none; ct_log_entries = none }

-- The future completes within the limit with a record that agrees on those fields.
abbrev pub Keeps : ℕ → CertInfo → Future CertInfo → Type 0
Keeps limit info fut =
    (t : ℕ) × (out : CertInfo) × (fut ≡ done t (ok out))
    × (without_checks out ≡ without_checks info)
    × (t ≤ limit)

module _ (net : Net) (parse : Bytes → Parsed) (sha1 : Bytes → Bytes) (from_slice : Bytes → Json)
    (clock : ℤ) (target : Target) (opts : ScanOpts) (limited : 0 < opts.timeout_secs) where
  abbrev limit : ℕ
  limit = opts.timeout_secs * 1000

  with_ocsp-Keeps :
      (certs : List Bytes) (info : CertInfo)
      → Keeps limit info (with_ocsp net parse sha1 from_slice clock target opts certs info)
  unfolding with_ocsp
  with_ocsp-Keeps certs info =
      let (t, status, e, h) = check_total net parse sha1 opts.timeout_secs limited certs in
      (t + 0, record info { ocsp_status = some status }, rw e, refl, omega arith)

  with_ct-Keeps :
      (info : CertInfo)
      → Keeps limit info (with_ct net parse sha1 from_slice clock target opts info)
  unfolding with_ct
  with_ct-Keeps info =
      settled (entry_count net from_slice target.host opts.timeout_secs)
        (entry_count-CompletesWithin net from_slice target.host opts.timeout_secs limited)
    where
      settled :
          (m : Future ℕ)
          → CompletesWithin limit m
          → Keeps limit info (
              settle m >>= λ r.
              now (ok (set_ct net parse sha1 from_slice clock target opts info r)))
      settled (done t (ok count)) h = (t + 0, _, refl, refl, omega arith)
      settled (done t (err e)) h = (t + 0, _, refl, refl, omega arith)
      settled hangs h = absurd h

  Keeps-now : (info : CertInfo) → Keeps limit info (now (ok info))
  Keeps-now info = (0, info, refl, refl, omega arith)

  Keeps-if :
      (b : Bool) (info : CertInfo) (m : Future CertInfo)
      → Keeps limit info m
      → Keeps limit info (if b then m else now (ok info))
  Keeps-if true info m k = k
  Keeps-if false info m k = Keeps-now info

  Keeps-bind :
      (a b : ℕ) (info : CertInfo) (m : Future CertInfo) (f : CertInfo → Future CertInfo)
      → Keeps a info m
      → ((x : CertInfo) → Keeps b x (f x))
      → Keeps (a + b) info (m >>= f)
  Keeps-bind a b info m f (t, out, e, same, h) k =
      let (t', out', e', same', h') = k out in
      (t + t', out', rw e (rw e'), same' ∙ same, omega arith)

  abbrev checked : List Bytes → CertInfo → Future CertInfo
  checked certs info =
      (if opts.check_ocsp
        then with_ocsp net parse sha1 from_slice clock target opts certs info
        else now (ok info))
      >>= λ x.
          if opts.check_ct
          then with_ct net parse sha1 from_slice clock target opts x
          else now (ok x)

  checks-Keeps :
      (certs : List Bytes) (info : CertInfo) → Keeps (limit + limit) info (checked certs info)
  checks-Keeps certs info =
      Keeps-bind limit limit info _ _ (Keeps-if opts.check_ocsp info _ (with_ocsp-Keeps certs info))
        (λ x. Keeps-if opts.check_ct x _ (with_ct-Keeps x))

  rest_within :
      (certs : List Bytes) (info : CertInfo) → CompletesWithin (limit + limit) (checked certs info)
  rest_within certs info = let (t, out, e, _, h) = checks-Keeps certs info in rw e h

  -- Whatever is captured, the inspection ends within three limits.
  pub inspect-CompletesWithin :
      CompletesWithin
        (limit + (limit + limit))
        (inspect net parse sha1 from_slice clock target opts)
  unfolding inspect capture_chain
  inspect-CompletesWithin = search (within, rest_within)

  -- Under a positive time limit, once the chain is captured and its leaf is parsed, `inspect`
  -- succeeds within two more time limits, and the OCSP and CT checks leave every other field of
  -- the certificate's record unchanged.
  pub inspect-Keeps :
      (t : ℕ) (certs : List Bytes) (info : CertInfo)
      → capture_chain net parse sha1 from_slice clock target opts ≡ done t (ok certs)
      → leaf_info net parse sha1 from_slice clock target opts certs ≡ ok info
      → Keeps (t + (limit + limit)) info (inspect net parse sha1 from_slice clock target opts)
  unfolding inspect
  inspect-Keeps t certs info e l =
      let (t', out, e', same, h) = checks-Keeps certs info in
      (
        t + (0 + t'),
        out,
        rw (e, l) (ap (λ (m : Future CertInfo). delay t (delay 0 m)) e'),
        same,
        omega arith,
      )
