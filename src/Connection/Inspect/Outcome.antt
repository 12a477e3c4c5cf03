-- ===== src/Connection/Inspect/Outcome.antt =====
-- How long the connection checks of scanner/connection.rs take, and when they fail.
use Prim.Native.Nat.{max}
use ru_ssl.Prelude.{
  ℕ, Bool, ◌+◌, ◌*◌, ◌<◌, ◌≤◌, ◌≡◌, refl, ap, ◌∙◌, List, Option, none, some, arith,
}
use ru_ssl.Text.{Str, Bytes}
use ru_ssl.Error.{Result, ok, err}
use ru_ssl.Async.{
  Future, done, hangs, now, settle, delay, ◌>>=◌, CompletesWithin, CompletesWithin-done,
  with_timeout-CompletesWithin,
}
use ru_ssl.Async.Within.{within, Succeeds, settled-Succeeds}
use ru_ssl.X509.{Parsed}
use ru_ssl.Net.{Net}
use ru_ssl.Target.{Target, ScanOpts, addr}
use ru_ssl.Handshake.{ProtocolResult}
use ru_ssl.Connection.Probes.{
  Primary, pumped, pump_tickets, no_sni_of, hsts_or_none, first_address, probe_address,
  probe_primary, probe_no_sni, probe_hsts,
}
use ru_ssl.Connection.ForwardSecrecy.{forward_secrecy}
use ru_ssl.Connection.Sni.{NoSni, classify_sni, unavailable}
use ru_ssl.Connection.Hsts.{Hsts}
use ru_ssl.Connection.Inspect.{ConnectionProperties, assemble, inspect}

-- What the three results make, for a host and its probed protocols: the first probe's stapling and
-- resumption as they are, the forward secrecy of the protocols, the certificate seen without SNI
-- against the first probe's, and the HSTS result as it is. An error of the first is that of the whole.
module _ (parse : Bytes → Parsed) (is_ip : Str → Bool) (host : Str)
    (protocols : List ProtocolResult) (no_sni : NoSni) (h : Option Hsts) where
  abbrev pub report : Result Primary → Result ConnectionProperties
  report (ok p) = ok (record {
    secrecy = forward_secrecy protocols;
    ocsp_stapling = p.ocsp;
    session_resumption = p.session;
    sni = classify_sni parse is_ip host p.first_leaf no_sni;
    hsts = h;
  })
  report (err e) = err e

module _ (net : Net) (target : Target) (secs lookup_ms : ℕ) (limited : 0 < secs)
    (resolves : CompletesWithin lookup_ms (net.lookup_host (addr target))) where
  abbrev limit : ℕ
  limit = secs * 1000

  pumped-CompletesWithin :
      (tls : net.Tls) (req : Bytes) (ms : ℕ) (m : Future (Unit {0}))
      → CompletesWithin ms m
      → CompletesWithin ms (pumped net target secs tls req m)
  pumped-CompletesWithin tls req ms (done t r) h = h
  pumped-CompletesWithin tls req ms hangs h = h

  pump_tickets-CompletesWithin :
      (tls : net.Tls) (host : Str) → CompletesWithin 3000 (pump_tickets net target secs tls host)
  unfolding pump_tickets
  pump_tickets-CompletesWithin tls host = search (within, pumped-CompletesWithin)

  probe_primary-CompletesWithin : CompletesWithin (limit + 3000) (probe_primary net target secs)
  unfolding probe_primary
  probe_primary-CompletesWithin = search (within, pump_tickets-CompletesWithin)

  probe_address-Succeeds :
      (address : Option net.Addr) → Succeeds NoSni limit (probe_address net target secs address)
  unfolding probe_address
  probe_address-Succeeds none = (0, unavailable, refl, omega arith)
  probe_address-Succeeds (some address) =
      settled-Succeeds limit no_sni_of _ (with_timeout-CompletesWithin secs _ limited)

  probe_no_sni-Succeeds : Succeeds NoSni (lookup_ms + limit) (probe_no_sni net target secs)
  unfolding probe_no_sni
  probe_no_sni-Succeeds = resolved (net.lookup_host (addr target)) resolves
    where
      resolved :
          (m : Future (List net.Addr))
          → CompletesWithin lookup_ms m
          → Succeeds NoSni (lookup_ms + limit) (
              settle m >>= λ addrs.
              probe_address net target secs (first_address net target secs addrs))
      resolved (done t r) h =
          let (t', n, e, h') = probe_address-Succeeds (first_address net target secs r) in
          (t + t', n, rw e refl, omega arith)
      resolved hangs h = absurd h

  probe_hsts-Succeeds : Succeeds (Option Hsts) limit (probe_hsts net target secs)
  unfolding probe_hsts
  probe_hsts-Succeeds =
      settled-Succeeds limit hsts_or_none _ (with_timeout-CompletesWithin secs _ limited)

  assembled :
      (parse : Bytes → Parsed) (is_ip : Str → Bool) (opts : ScanOpts)
      (protocols : List ProtocolResult) (r : Result Primary) (no_sni : NoSni) (h : Option Hsts)
      → assemble net parse is_ip target opts protocols (r, ok (ok no_sni, ok h))
        ≡ now (report parse is_ip target.host protocols no_sni h r)
  assembled parse is_ip opts protocols (ok p) no_sni h = refl
  assembled parse is_ip opts protocols (err e) no_sni h = refl

  -- Under a positive time limit, if the host's address is resolved within some time, the three
  -- probes complete, and the connection checks with the last of them, within that time, the limit
  -- and three seconds. The probe without SNI and the HSTS probe always return a value. If the
  -- first probe returns one too, the report has the forward secrecy of the probed protocols, the
  -- stapling and the resumption that the first probe saw, what `classify_sni` makes of its
  -- certificate and the probe without SNI, and the HSTS result; its error alone ends the checks.
  pub inspect_outcome :
      (parse : Bytes → Parsed) (is_ip : Str → Bool) (opts : ScanOpts)
      (protocols : List ProtocolResult)
      → opts.timeout_secs ≡ secs
      → (t t' t'' : ℕ) × (r : Result Primary) × (no_sni : NoSni) × (h : Option Hsts)
        × (probe_primary net target secs ≡ done t r)
        × (probe_no_sni net target secs ≡ done t' (ok no_sni))
        × (probe_hsts net target secs ≡ done t'' (ok h))
        × (inspect net parse is_ip target opts protocols
            ≡ done (max t (max t' t'')) (report parse is_ip target.host protocols no_sni h r))
        × (max t (max t' t'') ≤ limit + (lookup_ms + 3000))
  unfolding inspect
  inspect_outcome parse is_ip opts protocols same =
      let (t, r, e, b) = CompletesWithin-done (limit + 3000) _ probe_primary-CompletesWithin in
      let (t', no_sni, e', b') = probe_no_sni-Succeeds in
      let (t'', h, e'', b'') = probe_hsts-Succeeds in
      (
        t,
        t',
        t'',
        r,
        no_sni,
        h,
        e,
        e',
        e'',
        rw (same, e, e', e'')
            (ap (delay (max t (max t' t''))) (assembled parse is_ip opts protocols r no_sni h)
              ∙ ap (λ (n : ℕ). done n (report parse is_ip target.host protocols no_sni h r))
                  (omega arith)),
        omega arith,
      )
