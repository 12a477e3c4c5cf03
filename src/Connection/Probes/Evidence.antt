-- ===== src/Connection/Probes/Evidence.antt =====
-- What the first probe reports, against what rustls was shown in the handshake and after it.
use ru_ssl.Prelude.{ℕ, ◌+◌, ◌≡◌, ap, List, [], ◌++◌, any, head?, arith, not, ◌||◌, is_empty, length}
use ru_ssl.Error.{ok}
use ru_ssl.Async.{done}
use ru_ssl.Net.{Net}
use ru_ssl.Target.{Target}
use ru_ssl.Cert.Verifier.{VerifierCall, new_capture}
use ru_ssl.Cert.Capture.{chains, last_stapled, captured_lem}
use ru_ssl.Connection.Store.{StoreCall, new_store}
use ru_ssl.Connection.Store.Delegation.{offers_session, offers_ticket, calls-Delegates}
use ru_ssl.Connection.Probes.{Primary, handshake, pump_tickets, probe_primary}

module _ (net : Net) (target : Target) (secs : ℕ) where
  -- What these calls of the verifier and of the store show.
  abbrev pub evidence : List VerifierCall → List (StoreCall net.cache) → Primary
  evidence presented store_calls = record {
    first_leaf = head? (chains presented);
    ocsp = record {
      stapled = not (is_empty (last_stapled [] presented));
      response_len = length (last_stapled [] presented);
    };
    session = record {
      tls13_ticket = any (offers_ticket net.cache) store_calls;
      tls12_session = any (offers_session net.cache) store_calls;
      supported =
          any (offers_session net.cache) store_calls || any (offers_ticket net.cache) store_calls;
    };
  }

  -- If the handshake and the pump complete, the first probe completes after both, and reports the
  -- first certificate shown, whether a stapled response that is not empty was shown and the
  -- length of the last one, or zero, whether a TLS 1.2 session and whether a TLS 1.3 ticket was
  -- stored in the handshake or the pump, and resumption as supported if either was.
  pub probe_primary-evidence :
      (t t' : ℕ) (presented : List VerifierCall) (early more : List (StoreCall net.cache))
      (tls : net.Tls)
      → handshake net target secs ≡ done t (ok (presented, early, tls))
      → pump_tickets net target secs tls target.host ≡ done t' (ok more)
      → probe_primary net target secs ≡ done (t + t') (ok (evidence presented (early ++ more)))
  unfolding probe_primary
  probe_primary-evidence t t' presented early more tls e e' =
      let (certs, stapled) = captured_lem new_capture presented in
      let (_, _, sessions, tickets) =
        calls-Delegates net.cache (new_store net.cache) (early ++ more) in
      rw (e, e', certs, stapled, sessions, tickets)
        (ap (λ (n : ℕ). done n (ok (evidence presented (early ++ more)))) (omega arith))
