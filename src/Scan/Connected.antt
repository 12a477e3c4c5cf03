-- ===== src/Scan/Connected.antt =====
-- When the result of `run_scan` of scanner/mod.rs has the connection's properties.
use ru_ssl.Prelude.{ℕ, ◌≡◌, refl, sym, ◌↔◌, Bool, true, false, Option, none, is_some, if◌then◌else◌}
use ru_ssl.Prelude.Int.{ℤ}
use ru_ssl.Text.{Str, Bytes}
use ru_ssl.Error.{Result, ok, err}
use ru_ssl.Async.{Future, done, now, settle, ◌>>=◌}
use ru_ssl.Async.Values.{settle-value, now_injective}
use ru_ssl.X509.{Parsed}
use ru_ssl.Net.{Net}
use ru_ssl.Target.{Target, ScanOpts}
use ru_ssl.Ct.{Json}
use ru_ssl.Connection.Inspect.{ConnectionProperties, inspect}
use ru_ssl.Scan.Parts.{run_scan-Steps}
use ru_ssl.Scan.{ScanResult, or_none, scan_connection, run_scan}

-- The check is on, and it completes with the connection's properties.
abbrev pub Succeeds : Bool → Future ConnectionProperties → Type 0
Succeeds b m = (b ≡ true) × (t : ℕ) × (props : ConnectionProperties) × (m ≡ done t (ok props))

or_none-Succeeds :
    (m : Future ConnectionProperties) (t : ℕ) (r : Result ConnectionProperties)
    → m ≡ done t r
    → (is_some (or_none r) ≡ true) ↔ Succeeds true m
or_none-Succeeds m t (ok props) e = (λ h. (refl, t, props, e), λ h. refl)
or_none-Succeeds m t (err x) e = (λ h. absurd (cc), λ h. absurd (let (_, _, _, e') = h in cc))

checked-Succeeds :
    (m : Future ConnectionProperties) (b : Bool) (conn : Option ConnectionProperties) (t : ℕ)
    → (if b then (settle m >>= λ r. now (ok (or_none r))) else now (ok none)) ≡ done t (ok conn)
    → (is_some conn ≡ true) ↔ Succeeds b m
checked-Succeeds m true conn t e =
    let (t', t'', r, e', e'') = settle-value m _ t conn e in
    rw (now_injective _ conn t'' e'') at (or_none-Succeeds m t' r e')
checked-Succeeds m false conn t e =
    rw (sym (now_injective none conn t e))
      (λ h. absurd (cc), λ h. absurd (let (off, _, _, _) = h in cc))

module _ (net : Net) (parse : Bytes → Parsed) (sha1 : Bytes → Bytes) (from_slice : Bytes → Json)
    (clock : ℤ) (is_ip : Str → Bool) (acquire : Str → Future (Unit {0})) (target : Target)
    (opts : ScanOpts) where
  -- The result of a scan that succeeds has the connection's properties exactly if the connection is
  -- checked and `inspect` of it completes with some.
  pub run_scan-Succeeds :
      (r : ScanResult) (t : ℕ)
      → run_scan net parse sha1 from_slice clock is_ip acquire target opts ≡ done t (ok r)
      → (is_some r.connection ≡ true)
        ↔ Succeeds opts.check_connection (inspect net parse is_ip target opts r.protocols)
  unfolding scan_connection
  run_scan-Succeeds r t e =
      let steps = run_scan-Steps net parse sha1 from_slice clock is_ip acquire target opts r t e in
      rw (sym steps.assembled) (
        checked-Succeeds _ opts.check_connection steps.connection steps.t_connection
          steps.connected)
