-- ===== src/Connection/Probes.antt =====
-- The three network probes: the handshake with SNI and its tickets, the handshake without SNI, and
-- the HSTS header.
pub mod Evidence
use ru_ssl.Prelude.{
  ℕ, ◌*◌, Bool, not, ◌||◌, List, [], ◌++◌, Option, none, some, is_empty, length, head?,
}
use ru_ssl.Text.{Str, Bytes, codes}
use ru_ssl.Text.Utf8.{as_bytes}
use ru_ssl.Error.{Result, ok, err}
use ru_ssl.Async.{Future, done, hangs, now, settle, ◌>>=◌, with_timeout, timeout_after}
use ru_ssl.Net.{Net, name_or_error}
use ru_ssl.Target.{Target, addr}
use ru_ssl.Http.{Scheme, HttpResponse, header}
use ru_ssl.Http.Request.{request}
use ru_ssl.Cert.Verifier.{CertCapture, VerifierCall, new_capture, captured}
use ru_ssl.Connection.Store.{StoreCall, new_store, calls}
use ru_ssl.Connection.Sni.{NoSni, leaf, rejected, unavailable}
use ru_ssl.Connection.Hsts.{Hsts, parse_hsts}

pub record OcspStapling : Type 0 where
  pub stapled : Bool
  pub response_len : ℕ

pub record SessionResumption : Type 0 where
  pub tls13_ticket : Bool
  pub tls12_session : Bool
  pub supported : Bool

pub record Primary : Type 0 where
  pub first_leaf : Option Bytes
  pub ocsp : OcspStapling
  pub session : SessionResumption

abbrev pub ticket_pump_secs : ℕ
ticket_pump_secs = 3

abbrev pub pump_request : Str → Bytes
pump_request host = as_bytes (
    codes "GET / HTTP/1.1\r\nHost: "
    ++ (host ++ codes "\r\nUser-Agent: russl/0.1\r\nConnection: close\r\n\r\n"))

-- What a finished handshake left in the two locks.
abbrev pub stapling : Bytes → OcspStapling
stapling ocsp_bytes = record {
  stapled = not (is_empty ocsp_bytes);
  response_len = length ocsp_bytes;
}

abbrev pub resumption : Bool → Bool → SessionResumption
resumption tls12 tls13 = record {
  tls13_ticket = tls13;
  tls12_session = tls12;
  supported = tls12 || tls13;
}

abbrev pub primary_of : CertCapture → Bool → Bool → Primary
primary_of capture tls12 tls13 = record {
  first_leaf = head? capture.certs;
  ocsp = stapling capture.ocsp;
  session = resumption tls12 tls13;
}

-- The `match res` of `probe_no_sni`, and the one inside it.
abbrev pub first_or_rejected : Option Bytes → NoSni
first_or_rejected none = rejected
first_or_rejected (some der) = leaf der

abbrev pub no_sni_of : Result (List VerifierCall) → NoSni
no_sni_of (ok presented) = first_or_rejected (head? (captured new_capture presented).certs)
no_sni_of (err e) = rejected

abbrev pub hsts_or_none : Result HttpResponse → Option Hsts
hsts_or_none (ok r) = some (parse_hsts (header r (codes "strict-transport-security")))
hsts_or_none (err e) = none

module _ (net : Net) (target : Target) (timeout_secs : ℕ) where
  open net use {
    Tls, Addr, connect_addr, server_name, cache, recording_connect, round_trip, store_calls,
    lookup_host, connect_ip, ip_name, capture_connect,
  }

  -- Errors and the limit of the pump are ignored: the calls of the store until its end count.
  abbrev pub pumped : Tls → Bytes → Future (Unit {0}) → Future (List (StoreCall cache))
  pumped tls req (done t r) = done t (ok (store_calls tls req t))
  pumped tls req hangs = hangs

  unfoldable pub pump_tickets : Tls → Str → Future (List (StoreCall cache))
  pump_tickets tls host =
      let req = pump_request host in
      pumped tls req (timeout_after (ticket_pump_secs * 1000) (round_trip tls req))

  abbrev pub handshake : Future (List VerifierCall × List (StoreCall cache) × Tls)
  handshake = with_timeout timeout_secs do
    tcp ← connect_addr (addr target)
    name ← now (name_or_error (server_name target.host))
    recording_connect name tcp

  unfoldable pub probe_primary : Future Primary
  probe_primary = do
    (presented, early, tls) ← handshake
    more ← pump_tickets tls target.host
    let store = (calls cache (new_store cache) (early ++ more)).0
    now (ok (primary_of (captured new_capture presented) store.tls12 store.tls13))

  unfoldable pub probe_address : Option Addr → Future NoSni
  probe_address none = now (ok unavailable)
  probe_address (some address) = do
    res ← settle (
        with_timeout timeout_secs
          do tcp ← connect_ip address; capture_connect (ip_name address) tcp)
    now (ok (no_sni_of res))

  abbrev pub first_address : Result (List Addr) → Option Addr
  first_address (ok addrs) = head? addrs
  first_address (err e) = none

  unfoldable pub probe_no_sni : Future NoSni
  probe_no_sni = do addrs ← settle (lookup_host (addr target)); probe_address (first_address addrs)

  unfoldable pub probe_hsts : Future (Option Hsts)
  probe_hsts = do
    resp ← settle (
        with_timeout timeout_secs
          (request net Scheme.https target.host target.port (codes "GET") (codes "/") [] none))
    now (ok (hsts_or_none resp))
