-- ===== src/Cert/Capture.antt =====
-- What the capturing verifier holds, and what it has answered, after the calls of a handshake.
use ru_ssl.Prelude.{
  ◌≡◌, refl, sym, ap, ◌∙◌, List, [], ◌∷◌, ◌++◌, map, append_assoc, append-nil, is_empty, not,
  if◌then◌else◌,
}
use ru_ssl.Text.{Bytes}
use ru_ssl.Cert.Verifier.{
  CertCapture, VerifierCall, server_cert, tls12_signature, tls13_signature, supported_schemes,
  Verdict, server_cert_verified, handshake_signature_valid, schemes, verify_server_cert,
  verify_tls12_signature, verify_tls13_signature, supported_verify_schemes, verify, captured,
  verdicts,
}

-- The chains of all certificate calls, each with its leaf first.
abbrev pub chains : List VerifierCall → List Bytes
chains [] = []
chains (server_cert p ∷ calls) = p.end_entity ∷ (p.intermediates ++ chains calls)
chains (_ ∷ calls) = chains calls

-- The last stapled response that is not empty.
abbrev pub last_stapled : Bytes → List VerifierCall → Bytes
last_stapled held [] = held
last_stapled held (server_cert p ∷ calls) =
    last_stapled (if not (is_empty p.ocsp_response) then p.ocsp_response else held) calls
last_stapled held (_ ∷ calls) = last_stapled held calls

pub captured_lem :
    (c : CertCapture) (calls : List VerifierCall)
    → ((captured c calls).certs ≡ c.certs ++ chains calls)
      × ((captured c calls).ocsp ≡ last_stapled c.ocsp calls)
unfolding captured verify verify_server_cert
captured_lem c [] = (sym (append-nil c.certs), refl)
captured_lem c (server_cert p ∷ calls) =
    let (chain, stapled) = captured_lem (verify_server_cert c p).0 calls in
    (
      chain
          ∙ append_assoc (c.certs ++ (p.end_entity ∷ [])) p.intermediates (chains calls)
          ∙ append_assoc c.certs (p.end_entity ∷ []) (p.intermediates ++ chains calls),
      stapled,
    )
captured_lem c (tls12_signature s ∷ calls) = captured_lem c calls
captured_lem c (tls13_signature s ∷ calls) = captured_lem c calls
captured_lem c (supported_schemes ∷ calls) = captured_lem c calls

-- The answers of a verifier that has nothing to object to: they do not depend on what it is shown.
abbrev pub assent : VerifierCall → Verdict
assent (server_cert _) = server_cert_verified
assent (tls12_signature _) = handshake_signature_valid
assent (tls13_signature _) = handshake_signature_valid
assent supported_schemes = schemes supported_verify_schemes

verdicts-map : (c : CertCapture) (calls : List VerifierCall) → verdicts c calls ≡ map assent calls
unfolding verdicts verify verify_server_cert verify_tls12_signature verify_tls13_signature
verdicts-map c [] = refl
verdicts-map c (server_cert p ∷ calls) =
    ap (◌∷◌ server_cert_verified) (verdicts-map (verify_server_cert c p).0 calls)
verdicts-map c (tls12_signature s ∷ calls) =
    ap (◌∷◌ handshake_signature_valid) (verdicts-map c calls)
verdicts-map c (tls13_signature s ∷ calls) =
    ap (◌∷◌ handshake_signature_valid) (verdicts-map c calls)
verdicts-map c (supported_schemes ∷ calls) =
    ap (◌∷◌ (schemes supported_verify_schemes)) (verdicts-map c calls)

-- After any sequence of calls of the verifier its answers are those that accept each call,
-- whatever it was shown, and the capture holds its chain followed by the chains of all
-- certificate calls in order, each with its leaf first, and the last stapled response that is not
-- empty, or else the one it held.
pub verify-Transparent :
    (c : CertCapture) (calls : List VerifierCall)
    → (verdicts c calls ≡ map assent calls)
      × ((captured c calls).certs ≡ c.certs ++ chains calls)
      × ((captured c calls).ocsp ≡ last_stapled c.ocsp calls)
verify-Transparent c calls =
    let (chain, stapled) = captured_lem c calls in (verdicts-map c calls, chain, stapled)
