-- ===== src/Tests/Demo.antt =====
-- What the examples share: networks whose peers answer little, a certificate, and a target.
use ru_ssl.Prelude.{refl, arith, some, ◌*◌, if◌then◌else◌, List, ℕ, [], ◌∷◌, none}
use ru_ssl.Prelude.Int.{pos}
use ru_ssl.Text.{Bytes, Str, codes, str_eq}
use ru_ssl.Async.{Future, done, hangs, with_timeout}
use ru_ssl.X509.{Certificate, Parsed, parsed}
use ru_ssl.Target.{Target}
use ru_ssl.Ciphers.{probe_suites}
use ru_ssl.Ciphers.Listing.{GrantedWithin}
use ru_ssl.Ciphers.Permits.{IsSemaphore, IsSemaphore-GrantedWithin}
use ru_ssl.Handshake.Probe.{attempt_handshake}
use ru_ssl.Cert.Verifier.{
  VerifierCall, Signed, server_cert, tls13_signature, supported_schemes, ecdsa_nistp256_sha256,
}
use ru_ssl.Cert.Keys.{rsa_oid}
use ru_ssl.Ct.{Json, array}
use ru_ssl.Error.{ok}
use ru_ssl.Net.{Net, named}
use ru_ssl.Connection.Store.{Cache}

-- A cache that keeps nothing.
abbrev pub empty_cache : Cache
empty_cache = record {
  State = Unit {0};
  Name = Str;
  Group = ℕ;
  Tls12 = ℕ;
  Tls13 = ℕ;
  cache_new = λ size. tt;
  cache_set_kx_hint = λ s n g. tt;
  cache_kx_hint = λ s n. none;
  cache_set_tls12_session = λ s n v. tt;
  cache_tls12_session = λ s n. none;
  cache_remove_tls12_session = λ s n. tt;
  cache_insert_tls13_ticket = λ s n v. tt;
  cache_take_tls13_ticket = λ s n. (tt, none);
}

abbrev pub quiet_net : Net
quiet_net = record {
  Tcp = Unit {0};
  Tls = Unit {0};
  ServerName = Str;
  connect = λ host port. done 5 (ok tt);
  connect_addr = λ address. done 5 (ok tt);
  server_name = λ host. named host;
  tls_connect = λ name tcp. done 5 (ok tt);
  probe_connect = λ config name tcp. hangs;
  capture_connect = λ name tcp. hangs;
  cache = empty_cache;
  recording_connect = λ name tcp. hangs;
  round_trip = λ tls req. hangs;
  store_calls = λ tls req ms. [];
  Addr = ℕ;
  lookup_host = λ host. done 20 (ok (1 ∷ []));
  connect_ip = λ address. done 5 (ok tt);
  ip_name = λ address. codes "192.0.2.1";
  exchange = λ tcp request. hangs;
  tls_exchange = λ tls request. hangs;
}

-- A certificate that ended one hour before the scan.
abbrev pub recent : Certificate
recent = record {
  subject = codes "CN=example.com";
  issuer = codes "CN=Demo CA";
  issuer_raw = 0x30 ∷ 0 ∷ [];
  raw_serial = 0x81 ∷ 0x02 ∷ [];
  not_before = pos 1700000000;
  not_after = pos 1800000000;
  not_before_text = codes "2023";
  not_after_text = codes "2027";
  subject_alternative_name = none;
  key_oid = rsa_oid;
  key_size = some 1024;
  public_key_bits = 3 ∷ 4 ∷ [];
  signature_oid = codes "1.2.840.113549.1.1.11";
  extensions = [];
  organizations = [];
}

abbrev demo_signed : Signed
demo_signed = record {
  message = 5 ∷ [];
  cert = 1 ∷ [];
  scheme = ecdsa_nistp256_sha256;
  signature = 0 ∷ [];
}

-- The calls of a handshake: the schemes for the hello, the chain, and the server's signature.
abbrev pub presented : List VerifierCall
presented =
    supported_schemes
    ∷ server_cert
        (record { end_entity = 1 ∷ []; intermediates = (2 ∷ []) ∷ []; ocsp_response = 9 ∷ [] })
    ∷ tls13_signature demo_signed
    ∷ []

-- A network whose server presents a chain of two, and answers nothing else.
abbrev pub chain_net : Net
chain_net = record quiet_net { capture_connect = λ name tcp. done 7 (ok presented) }

abbrev pub demo_target : Target
demo_target = record { host = codes "example.com"; port = 443 }

abbrev pub always_parsed : Bytes → Parsed
always_parsed bytes = parsed recent

abbrev pub no_digest : Bytes → Bytes
no_digest bytes = bytes

abbrev pub empty_array : Bytes → Json
empty_array bytes = array 0

-- Five tasks get their permit at once, and the last one when they end after ten seconds.
abbrev pub last_waits : Str → Future (Unit {0})
last_waits name =
    done (if str_eq name (codes "TLS_ECDHE_RSA_WITH_CHACHA20_POLY1305_SHA256") then 10000 else 0)
      (ok tt)

-- Whatever the peers present and answer, the handshakes with one suite last until the limit.
pub hanging-IsSemaphore :
    (present : Str → Unit {0} → Future (List VerifierCall))
    (answer : Unit {0} → Bytes → Future Bytes)
    → IsSemaphore
        (record quiet_net { capture_connect = present; exchange = answer })
        demo_target
        last_waits
        10
unfolding attempt_handshake with_timeout str_eq
hanging-IsSemaphore present answer = record {
  granted = (refl, (refl, (refl, (refl, (refl, (refl, tt))))));
  bounded = λ t. ground arith;
  busy = (
    λ t h. ground arith,
    (
      λ t h. ground arith,
      (
        λ t h. ground arith,
        (λ t h. ground arith, (λ t h. ground arith, (λ t h. ground arith, tt))),
      ),
    ),
  );
}

pub last_waits-IsSemaphore : IsSemaphore quiet_net demo_target last_waits 10
last_waits-IsSemaphore = hanging-IsSemaphore (λ name tcp. hangs) (λ tcp request. hangs)

pub last_waits-GrantedWithin : GrantedWithin last_waits (10 * 1000) probe_suites
last_waits-GrantedWithin =
    IsSemaphore-GrantedWithin quiet_net demo_target last_waits 10 (omega arith)
      last_waits-IsSemaphore
