-- ===== src/Http/Answers.antt =====
-- `request` of scanner/http.rs to a server that answers each request with a function of its bytes.
use ru_ssl.Prelude.{ℕ, ◌+◌, ◌*◌, ◌≤◌, ◌≡◌, ◌⊎◌, refl, List, Option, arith}
use ru_ssl.Text.{Str, Bytes}
use ru_ssl.Error.{Result, ok}
use ru_ssl.Async.{done, with_timeout}
use ru_ssl.Net.{Net}
use ru_ssl.Http.{Scheme, request_bytes, parse_response}
use ru_ssl.Http.Request.{send, request}

-- On this network a server is at that host and port, and answers over TCP or TLS.
pub record Answers (net : Net) (scheme : Scheme) (host : Str) (port : ℕ) (respond : Bytes → Bytes)
    : Type 0 where
  pub tcp : net.Tcp
  pub connects : ℕ
  pub answers : ℕ
  pub connected : net.connect host port ≡ done connects (ok tcp)
  pub answered : (req : Bytes) → send net scheme host tcp req ≡ done answers (ok (respond req))

module _ {net : Net} {scheme : Scheme} {host : Str} {port : ℕ} {respond : Bytes → Bytes}
    (there : Answers net scheme host port respond) where
  open there use {connects, answers, connected, answered}

  -- In time: there is no limit, or it is not shorter than both steps.
  abbrev pub InTime : ℕ → Type 0
  InTime secs = (secs ≡ 0) ⊎ (connects + answers ≤ secs * 1000)

  pub request-Answers :
      (method path : Str) (extra_headers : List (Str × Str)) (body : Option Bytes)
      → request net scheme host port method path extra_headers body
        ≡ done
            (connects + (answers + 0))
            (parse_response (respond (request_bytes method path host extra_headers body)))
  unfolding request
  request-Answers method path extra_headers body =
      rw (connected, answered (request_bytes method path host extra_headers body)) refl

  pub with_timeout-InTime :
      {A : Type 0} (secs : ℕ) (r : Result A)
      → InTime secs
      → with_timeout secs (done (connects + (answers + 0)) r) ≡ done (connects + (answers + 0)) r
  unfolding with_timeout
  with_timeout-InTime secs r in_time = ground arith
