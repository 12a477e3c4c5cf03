-- ===== src/Http/Request.antt =====
-- `request`: one round trip over TCP or TLS, and the parse of what came back.
use ru_ssl.Prelude.{ℕ, List, Option}
use ru_ssl.Text.{Str, Bytes}
use ru_ssl.Async.{Future, now, ◌>>=◌}
use ru_ssl.Net.{Net, name_or_error}
use ru_ssl.Http.{Scheme, HttpResponse, request_bytes, parse_response}

module _ (net : Net) where
  open net use {Tcp, connect, server_name, tls_connect, exchange, tls_exchange}

  -- The `match scheme` of `request`.
  unfoldable pub send : Scheme → Str → Tcp → Bytes → Future Bytes
  send Scheme.http host tcp req = exchange tcp req
  send Scheme.https host tcp req = do
    name ← now (name_or_error (server_name host))
    stream ← tls_connect name tcp
    tls_exchange stream req

  unfoldable pub request :
      Scheme → Str → ℕ → Str → Str → List (Str × Str) → Option Bytes → Future HttpResponse
  request scheme host port method path extra_headers body = do
    let req = request_bytes method path host extra_headers body
    tcp ← connect host port
    raw ← send scheme host tcp req
    now (parse_response raw)
