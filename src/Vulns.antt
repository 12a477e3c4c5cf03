-- ===== src/Vulns.antt =====
-- scanner/vulns.rs: the inference-based checks.
pub mod Inference
use ru_ssl.Prelude.{Bool, true, false, ◌&&◌, List, [], ◌∷◌, any}
use ru_ssl.Text.{Str, codes, str_eq}
use ru_ssl.Handshake.{ProtocolResult}

pub record VulnResult : Type 0 where
  pub name : Str
  pub vulnerable : Bool
  pub description : Str
  pub severity : Str

-- Some probed protocol has this version and is supported.
unfoldable pub has_version : Str → List ProtocolResult → Bool
has_version version protocols =
    any (λ (p : ProtocolResult). str_eq p.version version && p.supported) protocols

unfoldable pub check_all : List ProtocolResult → List VulnResult
unfolding has_version
check_all protocols =
    record {
      name = codes "POODLE";
      vulnerable = false;
      description = codes "SSLv3 not supported by rustls prober (safe by default)";
      severity = codes "High";
    }
    ∷ record {
      name = codes "BEAST";
      vulnerable = has_version (codes "TLS 1.0") protocols;
      description = codes "TLS 1.0 with CBC ciphers enables BEAST attack";
      severity = codes "Medium";
    }
    ∷ record {
      name = codes "Deprecated TLS 1.1";
      vulnerable = has_version (codes "TLS 1.1") protocols;
      description = codes "TLS 1.1 is deprecated per RFC 8996";
      severity = codes "Low";
    }
    ∷ record {
      name = codes "Heartbleed (CVE-2014-0160)";
      vulnerable = false;
      description = codes "Raw TCP probe not yet implemented; use testssl.sh to verify";
      severity = codes "Critical";
    }
    ∷ []
