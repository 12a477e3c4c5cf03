-- ===== src/Vulns/Inference.antt =====
-- What the checks can and cannot find.
use ru_ssl.Prelude.{ℕ, ◌+◌, ◌<◌, ◌≡◌, refl, false, List, [], ◌∷◌, All}
use ru_ssl.Text.{Str, codes, str_eq}
use ru_ssl.Error.{Result, ok, err}
use ru_ssl.Async.{done}
use ru_ssl.Handshake.{ProtocolResult, HandshakeInfo, tls12, tls13, protocol_result}
use ru_ssl.Handshake.Probe.{probe_protocols}
use ru_ssl.Handshake.Outcome.{probe_protocols_lem}
use ru_ssl.Net.{Net}
use ru_ssl.Target.{Target}
use ru_ssl.Vulns.{VulnResult, has_version, check_all}

abbrev pub NoneFound : List VulnResult → Type 0
NoneFound = All (λ (v : VulnResult). v.vulnerable ≡ false)

label-ne :
    (version : Str) (r r' : Result HandshakeInfo)
    → str_eq (codes "TLS 1.2") version ≡ false
    → str_eq (codes "TLS 1.3") version ≡ false
    → has_version version (protocol_result tls12 r ∷ protocol_result tls13 r' ∷ []) ≡ false
unfolding has_version
label-ne version (ok i) (ok j) e e' = rw (e, e')
label-ne version (ok i) (err j) e e' = rw (e, e')
label-ne version (err i) (ok j) e e' = rw (e, e')
label-ne version (err i) (err j) e e' = rw (e, e')

-- Under a positive time limit the probe of the protocols completes with a list on which no check
-- reports a vulnerability, whatever the server does: the versions that the checks look for are
-- not probed.
pub check_all-NoneFound :
    (net : Net) (target : Target) (secs : ℕ)
    → 0 < secs
    → (protocols : List ProtocolResult) × (time : ℕ) × (probe_protocols net target secs
        ≡ done time (ok protocols))
      × NoneFound (check_all protocols)
unfolding check_all str_eq
check_all-NoneFound net target secs limited =
    let (t, t', r, r', _, _, e, _) = probe_protocols_lem net target secs limited in
    (
      protocol_result tls12 r ∷ protocol_result tls13 r' ∷ [],
      t + t',
      e,
      (
        refl,
        (
          label-ne (codes "TLS 1.0") r r' refl refl,
          (label-ne (codes "TLS 1.1") r r' refl refl, (refl, tt)),
        ),
      ),
    )
