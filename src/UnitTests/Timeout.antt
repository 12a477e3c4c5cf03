-- ===== src/UnitTests/Timeout.antt =====
-- The unit tests of scanner/mod.rs, over futures.
use ru_ssl.Prelude.{ℕ, refl, Bool, true, false, ◌*◌, [], ◌∷◌, ◌==◌, All}
use ru_ssl.Error.{timeout, ok, err}
use ru_ssl.Async.{Future, done, hangs, now, with_timeout, ◌>>=◌}
use ru_ssl.UnitTests.{Passes, unwrapped_ok}

-- `tokio::time::sleep`.
abbrev sleep : ℕ → Future (Unit {0})
sleep secs = done (secs * 1000) (ok tt)

-- `matches!(result, Err(ScanError::Timeout))` on what is awaited.
abbrev awaits_timeout {ℓ} : {A : Type ℓ} → Future A → Bool
awaits_timeout (done t (err timeout)) = true
awaits_timeout _ = false

abbrev awaited : Future ℕ → (ℕ → Bool) → Bool
awaited (done t r) assertions = unwrapped_ok r assertions
awaited hangs assertions = false

abbrev elapsed_future_yields_timeout : Bool
elapsed_future_yields_timeout =
    awaits_timeout (with_timeout 1 (sleep 30 >>= λ _. now (ok (tt {0}))))

abbrev fast_future_completes : Bool
fast_future_completes = awaited (with_timeout 5 (now (ok 42))) (λ n. n == 42)

abbrev zero_disables_timeout : Bool
zero_disables_timeout = awaited (with_timeout 0 (now (ok 7))) (λ n. n == 7)

timeout_tests :
    All Passes (elapsed_future_yields_timeout ∷ fast_future_completes ∷ zero_disables_timeout ∷ [])
unfolding with_timeout
timeout_tests = (refl, (refl, (refl, tt)))
