-- ===== src/Connection/Inspect.antt =====
-- `inspect`: the three probes at once, and the report made of what they return.
pub mod Outcome
use ru_ssl.Prelude.{ℕ, Bool, List, Option}
use ru_ssl.Text.{Str, Bytes}
use ru_ssl.Error.{Result, ok}
use ru_ssl.Async.{Future, now, join, ◌>>=◌}
use ru_ssl.X509.{Parsed}
use ru_ssl.Net.{Net}
use ru_ssl.Target.{Target, ScanOpts}
use ru_ssl.Handshake.{ProtocolResult}
use ru_ssl.Connection.Probes.{
  OcspStapling, SessionResumption, Primary, probe_primary, probe_no_sni, probe_hsts,
}
use ru_ssl.Connection.ForwardSecrecy.{ForwardSecrecy, forward_secrecy}
use ru_ssl.Connection.Sni.{NoSni, SniBehavior, classify_sni}
use ru_ssl.Connection.Hsts.{Hsts}

pub record ConnectionProperties : Type 0 where
  pub secrecy : ForwardSecrecy
  pub ocsp_stapling : OcspStapling
  pub session_resumption : SessionResumption
  pub sni : SniBehavior
  pub hsts : Option Hsts

module _ (net : Net) (parse : Bytes → Parsed) (is_ip : Str → Bool) (target : Target)
    (opts : ScanOpts) where
  abbrev pub properties : List ProtocolResult → Primary → NoSni → Option Hsts → ConnectionProperties
  properties protocols primary no_sni h = record {
    secrecy = forward_secrecy protocols;
    ocsp_stapling = primary.ocsp;
    session_resumption = primary.session;
    sni = classify_sni parse is_ip target.host primary.first_leaf no_sni;
    hsts = h;
  }

  -- What follows the join. The two other probes return no error, so taking their values out cannot
  -- end the function.
  abbrev pub assemble :
      List ProtocolResult
      → Result Primary × Result (Result NoSni × Result (Option Hsts))
      → Future ConnectionProperties
  assemble protocols (primary_result, others) = do
    primary ← now primary_result
    (no_sni_result, hsts_result) ← now others
    no_sni ← now no_sni_result
    h ← now hsts_result
    now (ok (properties protocols primary no_sni h))

  unfoldable pub inspect : List ProtocolResult → Future ConnectionProperties
  inspect protocols =
      join (probe_primary net target opts.timeout_secs)
        (join (probe_no_sni net target opts.timeout_secs) (probe_hsts net target opts.timeout_secs))
      >>= assemble protocols
