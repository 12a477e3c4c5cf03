-- ===== src/Cert/Validity.antt =====
-- When the expiry flag is set.
use ru_ssl.Prelude.{ℕ, ◌≡◌, ◌↔◌, true, arith}
use ru_ssl.Prelude.Int.{ℤ, is_negative, ◌≤ℤ◌, later}
use ru_ssl.X509.{Certificate}
use ru_ssl.Cert.{days_remaining, cert_info, seconds_per_day}

is_negative-days_remaining :
    (not_after now : ℤ)
    → (is_negative (days_remaining not_after now) ≡ true) ↔ (later not_after seconds_per_day ≤ℤ now)
unfolding days_remaining
is_negative-days_remaining not_after now = ground arith

-- The expiry flag is set exactly if the end of the validity lies a whole day or more in the past,
-- since the quotient of days rounds towards zero.
pub is_expired_iff :
    (cert : Certificate) (now : ℤ) (chain_depth : ℕ)
    → ((cert_info cert now chain_depth).is_expired ≡ true)
      ↔ (later cert.not_after seconds_per_day ≤ℤ now)
unfolding cert_info
is_expired_iff cert now chain_depth = is_negative-days_remaining cert.not_after now
