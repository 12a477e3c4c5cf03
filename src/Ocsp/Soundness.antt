-- ===== src/Ocsp/Soundness.antt =====
-- What the status `Good` of the whole check stands on.
use ru_ssl.Prelude.{ℕ, ◌+◌, ◌≡◌, ◌≢◌, refl, ap, ◌∙◌, List, [], ◌∷◌, Option, none, some, arith}
use ru_ssl.Text.{Str, Bytes, codes}
use ru_ssl.Error.{Result, ok, err}
use ru_ssl.Async.{Future, done, hangs, now, settle, ◌>>=◌, with_timeout}
use ru_ssl.Async.Values.{bind-value, now-value, done_injective}
use ru_ssl.X509.{Certificate, Parsed, parsed, refused}
use ru_ssl.Net.{Net}
use ru_ssl.Http.{Scheme, HttpResponse}
use ru_ssl.Http.Request.{request}
use ru_ssl.Ocsp.{good, parse_status, parse_url, ocsp_url, build_request}
use ru_ssl.Ocsp.Check.{certificate_or_error, request_headers, ask, query, degraded, check}
use ru_ssl.Ocsp.Advisory.{read_answer-good, other_text, ok_injective}

not_good : (c : ℕ) (s : Str) (t : ℕ) → c ≢ b'G' → ¬ (now (ok (c ∷ s)) ≡ done t (ok (codes "Good")))
not_good c s t h e = other_text c s h (ok_injective _ _ (done_injective 0 t _ _ e))

certificate-parsed : (p : Parsed) (c : Certificate) → certificate_or_error p ≡ ok c → p ≡ parsed c
certificate-parsed (parsed d) c e = cc
certificate-parsed (refused x) c e = cc

degraded-good : (r : Result Str) → degraded r ≡ codes "Good" → r ≡ ok (codes "Good")
degraded-good (ok s) e = ap ok e
degraded-good (err x) e = ground arith

module _ (net : Net) (parse : Bytes → Parsed) (sha1 : Bytes → Bytes) (secs : ℕ) where
  -- The leaf names a responder that answered the request for it with status 200 and a good status.
  pub record Answered (leaf issuer : Certificate) : Type 0 where
    pub url : Str
    pub scheme : Scheme
    pub host : Str
    pub port : ℕ
    pub path : Str
    pub time : ℕ
    pub response : HttpResponse
    pub named : ocsp_url leaf.extensions ≡ some url
    pub address : parse_url url ≡ ok (scheme, host, port, path)
    pub answer :
        with_timeout secs (
          request net scheme host port
            (codes "POST")
            path
            request_headers
            (some (build_request sha1 leaf issuer)))
        ≡ done time (ok response)
    pub accepted : response.status ≡ 200
    pub says_good : parse_status response.body ≡ ok good

  ask-Answered :
      (leaf issuer : Certificate) (url : Option Str) (t : ℕ)
      → ocsp_url leaf.extensions ≡ url
      → ask net parse sha1 secs leaf issuer url ≡ done t (ok (codes "Good"))
      → Answered leaf issuer
  unfolding ask
  ask-Answered leaf issuer none t u e = absurd (not_good b'N' _ t (omega arith) e)
  ask-Answered leaf issuer (some url) t u e =
      let (t₁, (scheme, host, port, path), e₁, e₂) = now-value (parse_url url) _ t _ e in
      let (t₂, t₃, response, e₃, e₄) = bind-value _ _ t₁ _ e₂ in
      let (accepted, says_good) = read_answer-good response (done_injective 0 t₃ _ _ e₄) in
      record {
        url = url;
        scheme = scheme;
        host = host;
        port = port;
        path = path;
        time = t₂;
        response = response;
        named = u;
        address = e₁;
        answer = e₃;
        accepted = accepted;
        says_good = says_good;
      }

  -- The first two certificates of the chain are a leaf and its issuer, and the leaf is answered for.
  pub record Vouched (certs : List Bytes) : Type 0 where
    pub first : Bytes
    pub second : Bytes
    pub rest : List Bytes
    pub leaf : Certificate
    pub issuer : Certificate
    pub chain : certs ≡ first ∷ second ∷ rest
    pub first_parsed : parse first ≡ parsed leaf
    pub second_parsed : parse second ≡ parsed issuer
    pub answered : Answered leaf issuer

  query-Vouched :
      (certs : List Bytes) (t : ℕ)
      → query net parse sha1 secs certs ≡ done t (ok (codes "Good"))
      → Vouched certs
  unfolding query
  query-Vouched [] t e = absurd (not_good b'N' _ t (omega arith) e)
  query-Vouched (_ ∷ []) t e = absurd (not_good b'N' _ t (omega arith) e)
  query-Vouched (first ∷ second ∷ rest) t e =
      let (t₁, leaf, e₁, e₂) = now-value (certificate_or_error (parse first)) _ t _ e in
      let (t₂, issuer, e₃, e₄) = now-value (certificate_or_error (parse second)) _ t₁ _ e₂ in
      record {
        first = first;
        second = second;
        rest = rest;
        leaf = leaf;
        issuer = issuer;
        chain = refl;
        first_parsed = certificate-parsed (parse first) leaf e₁;
        second_parsed = certificate-parsed (parse second) issuer e₃;
        answered = ask-Answered leaf issuer (ocsp_url leaf.extensions) t₂ refl e₄;
      }

  -- If the whole check says `Good`, the chain begins with a leaf and an issuer that both parse,
  -- the leaf names a responder whose URL is accepted, and the request built for the two was
  -- answered there, under the time limit, with an HTTP status of 200 and an OCSP response that is
  -- read as good.
  pub check-Vouched :
      (certs : List Bytes) (t : ℕ)
      → check net parse sha1 secs certs ≡ done t (ok (codes "Good"))
      → Vouched certs
  unfolding check
  check-Vouched certs t e = settled (query net parse sha1 secs certs) refl e
    where
      settled :
          (m : Future Str)
          → query net parse sha1 secs certs ≡ m
          → (settle m >>= λ r. now (ok (degraded r))) ≡ done t (ok (codes "Good"))
          → Vouched certs
      settled (done t' r) e₁ e₂ =
          let good_text : r ≡ ok (codes "Good") =
            degraded-good r (ok_injective _ _ (done_injective (t' + 0) t _ _ e₂)) in
          query-Vouched certs t' (e₁ ∙ ap (done t') good_text)
      settled hangs e₁ e₂ = cc
