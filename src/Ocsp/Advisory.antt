-- ===== src/Ocsp/Advisory.antt =====
-- The revocation check of scanner/ocsp.rs as a step of the scan.
use ru_ssl.Prelude.{
  ℕ, ◌*◌, ◌≤◌, ◌<◌, ◌≡◌, ◌≢◌, inl, inr, refl, ap, List, [], ◌∷◌, Option, none, some, ◌==◌, arith,
  Bool-cases,
}
use ru_ssl.Text.{Str, Bytes, codes, str_eq, str_ne}
use ru_ssl.Error.{Result, ok, err}
use ru_ssl.Async.{done, CompletesWithin}
use ru_ssl.Async.Within.{within, settled-Succeeds}
use ru_ssl.X509.{Certificate, Parsed}
use ru_ssl.Net.{Net}
use ru_ssl.Http.{HttpResponse}
use ru_ssl.Ocsp.{CertStatus, good, revoked, unknown, responder_error, parse_status}
use ru_ssl.Ocsp.Check.{status_text, answer_text, read_answer, ask, query, degraded, check}

-- `Good` is said only of a response with status 200 whose certificate status is good.
status_text-good : (s : CertStatus) → status_text s ≡ codes "Good" → s ≡ good
unfolding str_eq
status_text-good good e = refl
status_text-good revoked e = absurd (str_ne (codes "Revoked") (codes "Good") refl e)
status_text-good unknown e = absurd (str_ne (codes "Unknown") (codes "Good") refl e)
status_text-good responder_error e = absurd (str_ne (codes "Responder error") (codes "Good") refl e)

-- A text that begins with another letter is not `Good`.
pub other_text : (c : ℕ) (s : Str) → c ≢ b'G' → ¬ (c ∷ s ≡ codes "Good")
other_text c s h e = ground arith

pub ok_injective : (s t : Str) → ok s ≡ ok t → s ≡ t
ok_injective s t e = cc

answer_text-good : (r : Result CertStatus) → answer_text r ≡ ok (codes "Good") → r ≡ ok good
answer_text-good (ok s) e = ap ok (status_text-good s (ok_injective _ _ e))
answer_text-good (err x) e = cc

-- The check says `Good` only of an HTTP response with status 200 whose body is read as an OCSP
-- response with the status good.
pub read_answer-good :
    (response : HttpResponse)
    → read_answer response ≡ ok (codes "Good")
    → (response.status ≡ 200) × (parse_status response.body ≡ ok good)
unfolding read_answer
read_answer-good response e = elim (Bool-cases (response.status == 200)) [
  | inl s ↦ (ground arith, answer_text-good (parse_status response.body) (rw s at e))
  | inr s ↦ absurd (other_text b'R' _ (omega arith) (ok_injective _ _ (rw s at e)))
]

module _ (net : Net) (parse : Bytes → Parsed) (sha1 : Bytes → Bytes) (secs : ℕ)
    (limited : 0 < secs) where
  abbrev limit : ℕ
  limit = secs * 1000

  ask-CompletesWithin :
      (leaf issuer : Certificate) (url : Option Str)
      → CompletesWithin limit (ask net parse sha1 secs leaf issuer url)
  unfolding ask
  ask-CompletesWithin leaf issuer none = omega arith
  ask-CompletesWithin leaf issuer (some url) = search within

  query-CompletesWithin :
      (certs : List Bytes) → CompletesWithin limit (query net parse sha1 secs certs)
  unfolding query
  query-CompletesWithin [] = omega arith
  query-CompletesWithin (_ ∷ []) = omega arith
  query-CompletesWithin (first ∷ second ∷ rest) = search (within, ask-CompletesWithin)

  -- Under a positive time limit, whatever the captured chain, the certificates, the responder and
  -- the network do, the revocation check completes within the limit with a status text and never
  -- with an error.
  pub check_total :
      (certs : List Bytes)
      → (t : ℕ) × (status : Str) × (check net parse sha1 secs certs ≡ done t (ok status))
        × (t ≤ limit)
  unfolding check
  check_total certs =
      settled-Succeeds limit degraded (query net parse sha1 secs certs)
        (query-CompletesWithin certs)
