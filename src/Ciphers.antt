-- ===== src/Ciphers.antt =====
-- scanner/ciphers.rs: the probed suites and their strength classes.
pub mod Enumerate
pub mod Listing
pub mod Permits
pub mod Tasks
use ru_ssl.Prelude.{Bool, ◌||◌, List, [], ◌∷◌, if◌then◌else◌}
use ru_ssl.Text.{Str, codes, contains}

pub record CipherResult : Type 0 where
  pub suite : Str
  pub accepted : Bool
  pub strength : Str

-- On the `Debug` name of the suite.
unfoldable pub classify : Str → Str
classify name =
    if contains name (codes "CHACHA20") || contains name (codes "AES_256")
    then codes "Strong"
    else if contains name (codes "AES_128")
    then codes "Adequate"
    else codes "Weak"

-- The `Debug` names of the suites.
abbrev pub probe_suites : List Str
probe_suites =
    codes "TLS13_AES_256_GCM_SHA384"
    ∷ codes "TLS13_AES_128_GCM_SHA256"
    ∷ codes "TLS13_CHACHA20_POLY1305_SHA256"
    ∷ codes "TLS_ECDHE_RSA_WITH_AES_256_GCM_SHA384"
    ∷ codes "TLS_ECDHE_RSA_WITH_AES_128_GCM_SHA256"
    ∷ codes "TLS_ECDHE_RSA_WITH_CHACHA20_POLY1305_SHA256"
    ∷ []
