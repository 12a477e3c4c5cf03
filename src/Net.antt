-- ===== src/Net.antt =====
-- The network and the TLS library as the program calls them: tokio's streams and rustls. Neither is
-- part of the repository, so an interface of futures stands for both.
use ru_ssl.Prelude.{ℕ, List}
use ru_ssl.Text.{Str, Bytes}
use ru_ssl.Error.{Result, invalid_name, ok, err}
use ru_ssl.Async.{Future}
use ru_ssl.Cert.Verifier.{VerifierCall}
use ru_ssl.Connection.Store.{Cache, StoreCall}
use ru_ssl.Handshake.{HandshakeInfo, ClientConfig}

-- `ServerName::try_from`: a name, or the message of the error.
pub data NameResult (N : Type 0) : Type 0 where
  named : N → NameResult N
  bad_name : Str → NameResult N

pub record Net : Type 1 where
  pub Tcp : Type 0
  pub Tls : Type 0
  pub ServerName : Type 0
  -- `TcpStream::connect` on a host and a port, and on the text `host:port`.
  pub connect : Str → ℕ → Future Tcp
  pub connect_addr : Str → Future Tcp
  pub server_name : Str → NameResult ServerName
  -- A handshake that verifies the chain; one with a restricted configuration, with what it negotiated; and
  -- one with the capturing verifier, with the calls of it that rustls made.
  pub tls_connect : ServerName → Tcp → Future Tls
  pub probe_connect : ClientConfig → ServerName → Tcp → Future HandshakeInfo
  pub capture_connect : ServerName → Tcp → Future (List VerifierCall)
  -- The session cache, and a handshake with the capturing verifier and a recording store, with the
  -- calls of both that rustls made.
  pub cache : Cache
  pub recording_connect :
      ServerName → Tcp → Future (List VerifierCall × List (StoreCall cache) × Tls)
  -- Write the request, flush, and read once; and the calls of the store in so many milliseconds of it.
  pub round_trip : Tls → Bytes → Future (Unit {0})
  pub store_calls : Tls → Bytes → ℕ → List (StoreCall cache)
  -- Resolve a name, and connect to an address; the name of an address carries no SNI.
  pub Addr : Type 0
  pub lookup_host : Str → Future (List Addr)
  pub connect_ip : Addr → Future Tcp
  pub ip_name : Addr → ServerName
  -- Write the whole request, flush, and read to the end.
  pub exchange : Tcp → Bytes → Future Bytes
  pub tls_exchange : Tls → Bytes → Future Bytes

-- `.map_err(|e| ScanError::InvalidName(e.to_string()))`.
abbrev pub name_or_error : {N : Type 0} → NameResult N → Result N
name_or_error (named n) = ok n
name_or_error (bad_name e) = err (invalid_name e)
