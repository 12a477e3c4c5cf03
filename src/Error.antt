-- ===== src/Error.antt =====
-- error.rs: the error type that every fallible step of the scanner returns.
use ru_ssl.Prelude.{◌≡◌, refl, ◌++◌}
use ru_ssl.Text.{Str, codes}

-- The `io::Error` and the `serde_json::Error` inside an error are their messages, which is all that
-- the program reads of them.
pub data ScanError : Type 0 where
  connection : Str → ScanError
  invalid_name : Str → ScanError
  no_certificate : ScanError
  cert_parse : Str → ScanError
  timeout : ScanError
  http : Str → ScanError
  json : Str → ScanError

-- The `Display` that the `#[error(...)]` attributes give.
unfoldable pub display : ScanError → Str
display (connection e) = codes "Connection failed: " ++ e
display (invalid_name e) = codes "Invalid server name: " ++ e
display no_certificate = codes "No certificate received from server"
display (cert_parse e) = codes "Certificate parse error: " ++ e
display timeout = codes "Operation timed out"
display (http e) = codes "HTTP error: " ++ e
display (json e) = codes "JSON serialization failed: " ++ e

-- `Result<A, ScanError>` with the `?` operator as `do`.
pub data Result {ℓ} (Val : Type ℓ) : Type ℓ where
  ok : Val → Result Val
  err : ScanError → Result Val

-- An error goes past everything that follows.
infixl 5 ◌>>=◌
abbrev pub ◌>>=◌ {ℓ ℓ'} : {X : Type ℓ} {Y : Type ℓ'} → Result X → (X → Result Y) → Result Y
err problem >>= next = err problem
ok x >>= next = next x

-- A success of two steps comes from a success of each.
pub >>=-eq-ok {ℓ ℓ'} :
    {X : Type ℓ} {Y : Type ℓ'} (first : Result X) (next : X → Result Y) {y : Y}
    → (first >>= next) ≡ ok y
    → (x : X) × (first ≡ ok x) × (next x ≡ ok y)
>>=-eq-ok (err problem) next e = cc
>>=-eq-ok (ok x) next e = (x, refl, e)
