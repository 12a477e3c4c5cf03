-- ===== src/Target.antt =====
-- scanner/mod.rs: the target and the options of a scan.
use ru_ssl.Prelude.{ℕ, Bool, ◌++◌}
use ru_ssl.Text.{Str, codes, to_string}

pub record Target : Type 0 where
  pub host : Str
  pub port : ℕ

-- `Target::addr`.
unfoldable pub addr : Target → Str
addr t = t.host ++ (codes ":" ++ to_string t.port)

pub record ScanOpts : Type 0 where
  pub enumerate_ciphers : Bool
  pub check_vulns : Bool
  pub check_ocsp : Bool
  pub check_ct : Bool
  pub check_connection : Bool
  pub timeout_secs : ℕ
