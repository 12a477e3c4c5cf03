-- ===== src/Handshake/Probe.antt =====
-- `attempt_handshake`, and the probe of both versions with it.
use ru_ssl.Prelude.{ℕ, List, [], ◌∷◌, ◌++◌}
use ru_ssl.Error.{ok}
use ru_ssl.Async.{Future, settle, now, ◌>>=◌, with_timeout}
use ru_ssl.Net.{Net, name_or_error}
use ru_ssl.Target.{Target, addr}
use ru_ssl.Handshake.{
  ProtocolResult, HandshakeInfo, Version, ClientConfig, with_version, versions, protocol_result,
}

module _ (net : Net) (target : Target) where
  open net use {connect_addr, server_name, probe_connect}

  unfoldable pub attempt_handshake : ClientConfig → ℕ → Future HandshakeInfo
  attempt_handshake config timeout_secs = with_timeout timeout_secs do
    stream ← connect_addr (addr target)
    name ← now (name_or_error (server_name target.host))
    probe_connect config name stream

  -- The loop over the versions, on `results`.
  unfoldable pub probe_versions :
      ℕ → List Version → List ProtocolResult → Future (List ProtocolResult)
  probe_versions timeout_secs [] results = now (ok results)
  probe_versions timeout_secs (v ∷ vs) results = do
    r ← settle (attempt_handshake (with_version v) timeout_secs)
    probe_versions timeout_secs vs (results ++ (protocol_result v r ∷ []))

  unfoldable pub probe_protocols : ℕ → Future (List ProtocolResult)
  unfolding probe_versions
  probe_protocols timeout_secs = probe_versions timeout_secs versions []
