-- ===== src/Main.antt =====
-- main.rs: the command line, the scan, and the exit code. clap parses the arguments.
pub mod Exit
use ru_ssl.Prelude.{ℕ, Bool, [], ◌||◌, if◌then◌else◌}
use ru_ssl.Prelude.Int.{ℤ}
use ru_ssl.Text.{Str, Bytes}
use ru_ssl.Error.{Result, ok, err}
use ru_ssl.Async.{Future, now, settle, ◌>>=◌}
use ru_ssl.X509.{Parsed}
use ru_ssl.Net.{Net}
use ru_ssl.Ct.{Json}
use ru_ssl.Scan.{ScanResult, run_scan}
use ru_ssl.Output.Json.{print as print_json}
use ru_ssl.Output.Pretty.{Table, print as print_pretty}
use ru_ssl.Target.{Target, ScanOpts}

pub record Cli : Type 0 where
  pub host : Str
  pub port : ℕ
  pub json : Bool
  pub enumerate_ciphers : Bool
  pub check_vulns : Bool
  pub ocsp : Bool
  pub ct : Bool
  pub connection : Bool
  pub all : Bool
  pub timeout : ℕ

unfoldable pub target_of : Cli → Target
target_of cli = record { host = cli.host; port = cli.port }

unfoldable pub scan_opts : Cli → ScanOpts
scan_opts cli = record {
  enumerate_ciphers = cli.enumerate_ciphers || cli.all;
  check_vulns = cli.check_vulns || cli.all;
  check_ocsp = cli.ocsp || cli.all;
  check_ct = cli.ct || cli.all;
  check_connection = cli.connection || cli.all;
  timeout_secs = cli.timeout;
}

pub data ExitCode : Type 0 where
  success failure : ExitCode

-- The exit code, and what the program has printed on standard output.
abbrev pub code_of : Result Str → ExitCode × Str
code_of (ok text) = (success, text)
code_of (err e) = (failure, [])

-- From `let result` on. `layout` is the `Display` of a table, and serde_json renders a result or is in
-- error.
abbrev pub exit_of :
    (Table → Str) → (ScanResult → Result Str) → Cli → Result ScanResult → ExitCode × Str
exit_of layout to_string_pretty cli (err e) = (failure, [])
exit_of layout to_string_pretty cli (ok result) =
    code_of
      (if cli.json then print_json to_string_pretty result else ok (print_pretty layout result))

module _ (net : Net) (parse : Bytes → Parsed) (sha1 : Bytes → Bytes) (from_slice : Bytes → Json)
    (clock : ℤ) (is_ip : Str → Bool) (acquire : Str → Future (Unit {0})) (layout : Table → Str)
    (to_string_pretty : ScanResult → Result Str) where
  unfoldable pub main : Cli → Future (ExitCode × Str)
  unfolding target_of scan_opts
  main cli = do
    result ←
        settle
          (run_scan net parse sha1 from_slice clock is_ip acquire (target_of cli) (scan_opts cli))
    now (ok (exit_of layout to_string_pretty cli result))
