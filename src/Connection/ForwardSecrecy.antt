-- ===== src/Connection/ForwardSecrecy.antt =====
-- `forward_secrecy` and `is_forward_secret`.
pub mod Verdict
use ru_ssl.Prelude.{
  Bool, true, false, not, ◌&&◌, ◌||◌, List, [], ◌∷◌, ◌++◌, Option, none, some, if◌then◌else◌,
  is_empty, ◌≡◌, ◌↔◌, refl, sym, ◌∙◌, ap, arith,
}
use ru_ssl.Text.{Str, codes, contains, starts_with}
use ru_ssl.Handshake.{ProtocolResult}

pub record FsProtocol : Type 0 where
  pub version : Str
  pub cipher : Option Str
  pub forward_secret : Bool

pub record ForwardSecrecy : Type 0 where
  pub all_forward_secret : Bool
  pub protocols : List FsProtocol

abbrev ephemeral : Option Str → Bool
ephemeral none = false
ephemeral (some name) = contains name (codes "ECDHE") || contains name (codes "DHE")

unfoldable pub is_forward_secret : Str → Option Str → Bool
is_forward_secret version cipher =
    if starts_with version (codes "TLS 1.3") then true else ephemeral cipher

abbrev pub detail : ProtocolResult → FsProtocol
detail p = record {
  version = p.version;
  cipher = p.negotiated_cipher;
  forward_secret = is_forward_secret p.version p.negotiated_cipher;
}

-- The loop over the protocols, on `details` and `all`.
unfoldable pub collect : List ProtocolResult → List FsProtocol → Bool → List FsProtocol × Bool
collect [] details all = (details, all)
collect (p ∷ ps) details all =
    let skipped = collect ps details all in
    let pushed =
      collect ps (details ++ (detail p ∷ []))
        (all && is_forward_secret p.version p.negotiated_cipher) in
    if not p.supported then skipped else pushed

unfoldable pub forward_secrecy : List ProtocolResult → ForwardSecrecy
forward_secrecy protocols =
    let (details, all) = collect protocols [] true in
    record { all_forward_secret = not (is_empty details) && all; protocols = details }

-- The supported protocols, in order.
abbrev pub supported_of : List ProtocolResult → List ProtocolResult
supported_of [] = []
supported_of (p ∷ ps) = if p.supported then p ∷ supported_of ps else supported_of ps
