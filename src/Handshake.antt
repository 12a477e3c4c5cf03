-- ===== src/Handshake.antt =====
-- scanner/handshake.rs: the data of the probe of the protocol versions.
pub mod Probe
pub mod Outcome
use ru_ssl.Prelude.{ℕ, Bool, true, false, List, [], ◌∷◌, ◌++◌, Option, none}
use ru_ssl.Text.{Str, codes}
use ru_ssl.Error.{Result, ok, err}
use ru_ssl.Async.{Future, settle, now, ◌>>=◌}

pub record ProtocolResult : Type 0 where
  pub version : Str
  pub supported : Bool
  pub negotiated_cipher : Option Str
  pub negotiated_group : Option Str

pub record HandshakeInfo : Type 0 where
  pub cipher : Option Str
  pub group : Option Str

-- The protocol version that a client configuration is restricted to.
pub data Version : Type 0 where
  tls12 tls13 : Version

-- What a `ClientConfig` restricts a handshake to: one version, or one suite by its name.
pub data ClientConfig : Type 0 where
  with_version : Version → ClientConfig
  with_suite : Str → ClientConfig

abbrev pub label : Version → Str
label tls12 = codes "TLS 1.2"
label tls13 = codes "TLS 1.3"

abbrev pub versions : List Version
versions = tls12 ∷ tls13 ∷ []

-- A failed handshake counts as an unsupported version.
abbrev pub protocol_result : Version → Result HandshakeInfo → ProtocolResult
protocol_result v (ok info) = record {
  version = label v;
  supported = true;
  negotiated_cipher = info.cipher;
  negotiated_group = info.group;
}
protocol_result v (err e) = record {
  version = label v;
  supported = false;
  negotiated_cipher = none;
  negotiated_group = none;
}
