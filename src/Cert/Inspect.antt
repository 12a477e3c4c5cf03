-- ===== src/Cert/Inspect.antt =====
-- `inspect`: the capturing handshake, the leaf's fields, and the two optional network checks.
use ru_ssl.Prelude.{ℕ, List, some, if◌then◌else◌, length, [], ◌∷◌}
use ru_ssl.Prelude.Int.{ℤ}
use ru_ssl.Text.{Bytes}
use ru_ssl.Error.{ScanError, Result, ok, err}
use ru_ssl.Async.{Future, now, settle, ◌>>=◌, with_timeout}
use ru_ssl.X509.{Certificate, Parsed}
use ru_ssl.Net.{Net, name_or_error}
use ru_ssl.Target.{Target, addr, ScanOpts}
use ru_ssl.Cert.{CertInfo, cert_info}
use ru_ssl.Cert.Verifier.{new_capture, captured}
use ru_ssl.Ocsp.Check.{certificate_or_error, check}
use ru_ssl.Ct.{Json, entry_count}

-- The leaf's fields, or the parser's error.
abbrev pub info_or_error : ℤ → ℕ → Result Certificate → Result CertInfo
info_or_error clock chain_depth (ok cert) = ok (cert_info cert clock chain_depth)
info_or_error clock chain_depth (err e) = err e

-- The clock is read once, when the leaf has been parsed.
module _ (net : Net) (parse : Bytes → Parsed) (sha1 : Bytes → Bytes) (from_slice : Bytes → Json)
    (clock : ℤ) (target : Target) (opts : ScanOpts) where
  open net use {connect_addr, server_name, capture_connect}

  -- The chain that the verifier captured in a handshake with SNI.
  unfoldable pub capture_chain : Future (List Bytes)
  capture_chain = with_timeout opts.timeout_secs do
    stream ← connect_addr (addr target)
    name ← now (name_or_error (server_name target.host))
    calls ← capture_connect name stream
    now (ok (captured new_capture calls).certs)

  unfoldable pub leaf_info : List Bytes → Result CertInfo
  leaf_info [] = err ScanError.no_certificate
  leaf_info (leaf ∷ certs) =
      info_or_error clock (length (leaf ∷ certs)) (certificate_or_error (parse leaf))

  unfoldable pub with_ocsp : List Bytes → CertInfo → Future CertInfo
  with_ocsp certs info = do
    status ← check net parse sha1 opts.timeout_secs certs
    now (ok (record info { ocsp_status = some status }))

  abbrev pub set_ct : CertInfo → Result ℕ → CertInfo
  set_ct info (ok count) = record info { ct_log_entries = some count }
  set_ct info (err e) = info

  unfoldable pub with_ct : CertInfo → Future CertInfo
  with_ct info = do
    r ← settle (entry_count net from_slice target.host opts.timeout_secs)
    now (ok (set_ct info r))

  unfoldable pub inspect : Future CertInfo
  inspect = do
    certs ← capture_chain
    info ← now (leaf_info certs)
    checked ← if opts.check_ocsp then with_ocsp certs info else now (ok info)
    if opts.check_ct then with_ct checked else now (ok checked)
