-- ===== src/Cert/Checked.antt =====
-- Which of the optional fields `inspect` of scanner/cert.rs fills.
use ru_ssl.Prelude.{
  ℕ, ◌≡◌, refl, sym, ap, ◌∙◌, Bool, true, false, ◌&&◌, List, [], ◌∷◌, Option, none, some, is_some,
  if◌then◌else◌,
}
use ru_ssl.Prelude.Int.{ℤ}
use ru_ssl.Text.{Str, Bytes}
use ru_ssl.Error.{Result, ok, err}
use ru_ssl.Async.{done, now}
use ru_ssl.Async.Values.{bind-value, now-value, settle-value, now_injective}
use ru_ssl.X509.{Certificate, Parsed}
use ru_ssl.Net.{Net}
use ru_ssl.Target.{Target, ScanOpts}
use ru_ssl.Ct.{Json, entry_count}
use ru_ssl.Cert.{CertInfo, cert_info}
use ru_ssl.Cert.Inspect.{
  capture_chain, info_or_error, leaf_info, with_ocsp, set_ct, with_ct, inspect,
}
use ru_ssl.Ocsp.Check.{check}

info_or_error-unchecked :
    (clock : ℤ) (depth : ℕ) (r : Result Certificate) (info : CertInfo)
    → info_or_error clock depth r ≡ ok info
    → (info.ocsp_status ≡ none) × (info.ct_log_entries ≡ none)
unfolding cert_info
info_or_error-unchecked clock depth (ok cert) info e = (cc, cc)
info_or_error-unchecked clock depth (err x) info e = cc

module _ (net : Net) (parse : Bytes → Parsed) (sha1 : Bytes → Bytes) (from_slice : Bytes → Json)
    (clock : ℤ) (target : Target) (opts : ScanOpts) where
  leaf_info-unchecked :
      (certs : List Bytes) (info : CertInfo)
      → leaf_info net parse sha1 from_slice clock target opts certs ≡ ok info
      → (info.ocsp_status ≡ none) × (info.ct_log_entries ≡ none)
  unfolding leaf_info
  leaf_info-unchecked [] info e = cc
  leaf_info-unchecked (leaf ∷ certs) info e = info_or_error-unchecked clock _ _ info e

  with_ocsp-status :
      (certs : List Bytes) (info out : CertInfo) (t : ℕ)
      → with_ocsp net parse sha1 from_slice clock target opts certs info ≡ done t (ok out)
      → (is_some out.ocsp_status ≡ true) × (out.ct_log_entries ≡ info.ct_log_entries)
  unfolding with_ocsp
  with_ocsp-status certs info out t e =
      let (_, t', status, _, e') =
        bind-value (check net parse sha1 opts.timeout_secs certs) _ t out e in
      let same = now_injective _ out t' e' in (cc, cc)

  set_ct-status :
      (info : CertInfo) (r : Result ℕ)
      → (set_ct net parse sha1 from_slice clock target opts info r).ocsp_status ≡ info.ocsp_status
  set_ct-status info (ok n) = refl
  set_ct-status info (err e) = refl

  with_ct-status :
      (info out : CertInfo) (t : ℕ)
      → with_ct net parse sha1 from_slice clock target opts info ≡ done t (ok out)
      → out.ocsp_status ≡ info.ocsp_status
  unfolding with_ct
  with_ct-status info out t e =
      let (_, t', r, _, e') =
        settle-value (entry_count net from_slice target.host opts.timeout_secs) _ t out e in
      ap (λ (i : CertInfo). i.ocsp_status) (sym (now_injective _ out t' e')) ∙ set_ct-status info r

  ocsp_step-status :
      (b : Bool) (certs : List Bytes) (info out : CertInfo) (t : ℕ)
      → (info.ocsp_status ≡ none) × (info.ct_log_entries ≡ none)
      → (if b
          then with_ocsp net parse sha1 from_slice clock target opts certs info
          else now (ok info))
        ≡ done t (ok out)
      → (is_some out.ocsp_status ≡ b) × (out.ct_log_entries ≡ none)
  ocsp_step-status true certs info out t h e =
      let (checked, kept) = with_ocsp-status certs info out t e in (checked, kept ∙ h.1)
  ocsp_step-status false certs info out t h e = let same = now_injective info out t e in (cc, cc)

  ct_step-status :
      (b : Bool) (info out : CertInfo) (t : ℕ)
      → info.ct_log_entries ≡ none
      → (if b then with_ct net parse sha1 from_slice clock target opts info else now (ok info))
        ≡ done t (ok out)
      → (out.ocsp_status ≡ info.ocsp_status)
        × (is_some out.ct_log_entries ≡ (b && is_some out.ct_log_entries))
  ct_step-status true info out t h e = (with_ct-status info out t e, refl)
  ct_step-status false info out t h e = let same = now_injective info out t e in (cc, cc)

  pub inspect-status :
      (out : CertInfo) (t : ℕ)
      → inspect net parse sha1 from_slice clock target opts ≡ done t (ok out)
      → (is_some out.ocsp_status ≡ opts.check_ocsp)
        × (is_some out.ct_log_entries ≡ (opts.check_ct && is_some out.ct_log_entries))
  unfolding inspect
  inspect-status out t e =
      let (_, t₁, certs, _, e₁) =
        bind-value (capture_chain net parse sha1 from_slice clock target opts) _ t out e in
      let (t₂, info, l, e₂) =
        now-value (leaf_info net parse sha1 from_slice clock target opts certs) _ t₁ out e₁ in
      let (t₃, t₄, checked, e₃, e₄) =
        bind-value
          (if opts.check_ocsp
            then with_ocsp net parse sha1 from_slice clock target opts certs info
            else now (ok info))
          _ t₂ out e₂ in
      let (ocsp, plain) =
        ocsp_step-status opts.check_ocsp certs info checked t₃ (leaf_info-unchecked certs info l)
          e₃ in
      let (kept, ct) = ct_step-status opts.check_ct checked out t₄ plain e₄ in
      (ap (λ (s : Option Str). is_some s) kept ∙ ocsp, ct)

  with_ocsp-check :
      (certs : List Bytes) (info out : CertInfo) (t : ℕ) (status : Str)
      → with_ocsp net parse sha1 from_slice clock target opts certs info ≡ done t (ok out)
      → out.ocsp_status ≡ some status
      → (t' : ℕ) × (check net parse sha1 opts.timeout_secs certs ≡ done t' (ok status))
  unfolding with_ocsp
  with_ocsp-check certs info out t status e shown =
      let (t', t'', status', e', e'') =
        bind-value (check net parse sha1 opts.timeout_secs certs) _ t out e in
      let same = now_injective _ out t'' e'' in
      let text : status' ≡ status = cc in (t', e' ∙ ap (λ (s : Str). done t' (ok s)) text)

  ocsp_step-check :
      (b : Bool) (certs : List Bytes) (info out : CertInfo) (t : ℕ) (status : Str)
      → info.ocsp_status ≡ none
      → (if b
          then with_ocsp net parse sha1 from_slice clock target opts certs info
          else now (ok info))
        ≡ done t (ok out)
      → out.ocsp_status ≡ some status
      → (t' : ℕ) × (check net parse sha1 opts.timeout_secs certs ≡ done t' (ok status))
  ocsp_step-check true certs info out t status plain e shown =
      with_ocsp-check certs info out t status e shown
  ocsp_step-check false certs info out t status plain e shown =
      let same = now_injective info out t e in absurd cc

  -- A status in the record is what the check said of the chain that was captured.
  pub inspect-check :
      (out : CertInfo) (t : ℕ) (status : Str)
      → inspect net parse sha1 from_slice clock target opts ≡ done t (ok out)
      → out.ocsp_status ≡ some status
      → (certs : List Bytes) × (t' : ℕ) × (t'' : ℕ) × (capture_chain net parse sha1 from_slice clock
            target opts
          ≡ done t' (ok certs))
        × (check net parse sha1 opts.timeout_secs certs ≡ done t'' (ok status))
  unfolding inspect
  inspect-check out t status e shown =
      let (t', t₁, certs, e', e₁) =
        bind-value (capture_chain net parse sha1 from_slice clock target opts) _ t out e in
      let (t₂, info, l, e₂) =
        now-value (leaf_info net parse sha1 from_slice clock target opts certs) _ t₁ out e₁ in
      let (t₃, t₄, checked, e₃, e₄) =
        bind-value
          (if opts.check_ocsp
            then with_ocsp net parse sha1 from_slice clock target opts certs info
            else now (ok info))
          _ t₂ out e₂ in
      let (plain, no_ct) = leaf_info-unchecked certs info l in
      let (kept, _) =
        ct_step-status opts.check_ct checked out t₄
          (ocsp_step-status opts.check_ocsp certs info checked t₃ (plain, no_ct) e₃).1 e₄ in
      let (t'', said) =
        ocsp_step-check opts.check_ocsp certs info checked t₃ status plain e₃ (sym kept ∙ shown) in
      (certs, t', t'', e', said)
