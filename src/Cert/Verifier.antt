-- ===== src/Cert/Verifier.antt =====
-- `CertCapture` of scanner/cert.rs: the verifier that accepts every server, and keeps what it shows.
use ru_ssl.Prelude.{List, [], ◌∷◌, ◌++◌, is_empty, not, if◌then◌else◌}
use ru_ssl.Text.{Str, Bytes}

-- The chain and the stapled response, behind their two locks.
pub record CertCapture : Type 0 where
  pub certs : List Bytes
  pub ocsp : Bytes

abbrev pub new_capture : CertCapture
new_capture = record { certs = []; ocsp = [] }

-- The arguments of `verify_server_cert` that it reads.
pub record Presented : Type 0 where
  pub end_entity : Bytes
  pub intermediates : List Bytes
  pub ocsp_response : Bytes

-- The signature schemes of rustls that the source names.
pub data SignatureScheme : Type 0 where
  rsa_pkcs1_sha256 rsa_pkcs1_sha384 rsa_pkcs1_sha512 : SignatureScheme
  ecdsa_nistp256_sha256 ecdsa_nistp384_sha384 : SignatureScheme
  rsa_pss_sha256 rsa_pss_sha384 rsa_pss_sha512 : SignatureScheme
  ed25519 : SignatureScheme

-- What a call returns: one of the two assertions, the schemes, or an error of rustls.
pub data Verdict : Type 0 where
  server_cert_verified handshake_signature_valid : Verdict
  schemes : List SignatureScheme → Verdict
  rejected : Str → Verdict

unfoldable pub verify_server_cert : CertCapture → Presented → CertCapture × Verdict
verify_server_cert c p = (
  record {
    certs = (c.certs ++ (p.end_entity ∷ [])) ++ p.intermediates;
    ocsp = if not (is_empty p.ocsp_response) then p.ocsp_response else c.ocsp;
  },
  server_cert_verified,
)

-- The message, the certificate, and the signature with its scheme.
pub record Signed : Type 0 where
  pub message : Bytes
  pub cert : Bytes
  pub scheme : SignatureScheme
  pub signature : Bytes

unfoldable pub verify_tls12_signature : Signed → Verdict
verify_tls12_signature _ = handshake_signature_valid

unfoldable pub verify_tls13_signature : Signed → Verdict
verify_tls13_signature _ = handshake_signature_valid

unfoldable pub supported_verify_schemes : List SignatureScheme
supported_verify_schemes =
    rsa_pkcs1_sha256 ∷ rsa_pkcs1_sha384 ∷ rsa_pkcs1_sha512 ∷ ecdsa_nistp256_sha256
    ∷ ecdsa_nistp384_sha384 ∷ rsa_pss_sha256 ∷ rsa_pss_sha384 ∷ rsa_pss_sha512 ∷ ed25519 ∷ []

-- The calls of rustls on a verifier.
pub data VerifierCall : Type 0 where
  server_cert : Presented → VerifierCall
  tls12_signature tls13_signature : Signed → VerifierCall
  supported_schemes : VerifierCall

unfoldable pub verify : CertCapture → VerifierCall → CertCapture × Verdict
unfolding verify_server_cert verify_tls12_signature verify_tls13_signature supported_verify_schemes
verify c (server_cert p) = verify_server_cert c p
verify c (tls12_signature s) = (c, verify_tls12_signature s)
verify c (tls13_signature s) = (c, verify_tls13_signature s)
verify c supported_schemes = (c, schemes supported_verify_schemes)

-- The capture after the calls that rustls made, and what they returned.
unfoldable pub captured : CertCapture → List VerifierCall → CertCapture
unfolding verify
captured c [] = c
captured c (call ∷ calls) = captured (verify c call).0 calls

unfoldable pub verdicts : CertCapture → List VerifierCall → List Verdict
unfolding verify
verdicts c [] = []
verdicts c (call ∷ calls) = let (c', verdict) = verify c call in verdict ∷ verdicts c' calls
