-- ===== src/Handshake/Outcome.antt =====
-- What the probe reports, and how long it takes.
use ru_ssl.Prelude.{ℕ, ◌+◌, ◌*◌, ◌≤◌, ◌<◌, ◌≡◌, ap, [], ◌∷◌, arith}
use ru_ssl.Error.{Result, ok}
use ru_ssl.Async.{done, CompletesWithin-done, with_timeout-CompletesWithin}
use ru_ssl.Net.{Net}
use ru_ssl.Target.{Target}
use ru_ssl.Handshake.{HandshakeInfo, ClientConfig, with_version, tls12, tls13, protocol_result}
use ru_ssl.Handshake.Probe.{attempt_handshake, probe_protocols}

module _ (net : Net) (target : Target) (secs : ℕ) (limited : 0 < secs) where
  -- Under a time limit, a handshake completes within it, with a result or an error.
  attempt_completes :
      (config : ClientConfig)
      → (t : ℕ) × (r : Result HandshakeInfo) × (attempt_handshake net target config secs ≡ done t r)
        × (t ≤ secs * 1000)
  unfolding attempt_handshake
  attempt_completes config =
      CompletesWithin-done (secs * 1000) _ (with_timeout-CompletesWithin secs _ limited)

  -- Under a positive time limit the protocol probe never fails: it completes within twice the
  -- limit, and its list has one entry for each of TLS 1.2 and TLS 1.3, in order, made of what
  -- that handshake returned.
  pub probe_protocols_lem :
      (t t' : ℕ) × (r r' : Result HandshakeInfo) × (attempt_handshake net target
          (with_version tls12)
          secs
        ≡ done t r)
      × (attempt_handshake net target (with_version tls13) secs ≡ done t' r')
      × (probe_protocols net target secs
          ≡ done (t + t') (ok (protocol_result tls12 r ∷ protocol_result tls13 r' ∷ [])))
      × (t + t' ≤ 2 * (secs * 1000))
  unfolding probe_protocols
  probe_protocols_lem =
      let (t, r, e, h) = attempt_completes (with_version tls12) in
      let (t', r', e', h') = attempt_completes (with_version tls13) in
      (
        t,
        t',
        r,
        r',
        e,
        e',
        rw (e, e')
            (ap (λ (n : ℕ). done n (ok (protocol_result tls12 r ∷ protocol_result tls13 r' ∷ [])))
              (omega arith)),
        omega arith,
      )
