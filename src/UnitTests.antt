-- ===== src/UnitTests.antt =====
-- The source's own unit tests as Boolean functions: a failed assertion and a panic are both `false`.
-- A file for each of scanner/der.rs, http.rs, ocsp.rs, cert.rs, ct.rs, connection.rs and mod.rs, with
-- the test of ciphers.rs beside those of cert.rs.
mod Der
mod Http
mod Ocsp
mod Cert
mod Ct
mod Connection
mod Timeout
use ru_ssl.Prelude.{
  ℕ, zero, suc, ◌≡◌, Bool, true, false, ◌==◌, List, [], ◌∷◌, Option, none, some, All,
}
use ru_ssl.Text.{Str, str_eq}
use ru_ssl.Error.{Result, ok, err}

abbrev pub Passes : Bool → Type 0
Passes test = test ≡ true

-- `unwrap()`, and an index, with the assertions on what they return.
abbrev pub unwrapped {ℓ} : {A : Type ℓ} → Option A → (A → Bool) → Bool
unwrapped none assertions = false
unwrapped (some a) assertions = assertions a

abbrev pub unwrapped_ok {ℓ} : {A : Type ℓ} → Result A → (A → Bool) → Bool
unwrapped_ok (err e) assertions = false
unwrapped_ok (ok a) assertions = assertions a

abbrev pub is_err {ℓ} : {A : Type ℓ} → Result A → Bool
is_err (ok a) = false
is_err (err e) = true

-- `==` on two options.
abbrev pub option_eq : Option ℕ → Option ℕ → Bool
option_eq none none = true
option_eq none (some b) = false
option_eq (some a) none = false
option_eq (some a) (some b) = a == b

-- `[b; n]`.
abbrev pub filled : ℕ → ℕ → List ℕ
filled zero b = []
filled (suc n) b = b ∷ filled n b
