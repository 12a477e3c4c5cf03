-- ===== src/Ciphers/Enumerate.antt =====
-- `enumerate`: one task for each suite, which waits for a permit and tries a handshake.
use Prim.Native.Nat.{max}
use ru_ssl.Prelude.{ℕ, Bool, true, false, List, [], ◌∷◌, ◌++◌, map}
use ru_ssl.Text.{Str}
use ru_ssl.Error.{Result, ok, err}
use ru_ssl.Async.{Future, done, hangs, now, settle, ◌>>=◌}
use ru_ssl.Net.{Net}
use ru_ssl.Target.{Target}
use ru_ssl.Handshake.{HandshakeInfo, with_suite}
use ru_ssl.Handshake.Probe.{attempt_handshake}
use ru_ssl.Ciphers.{CipherResult, classify, probe_suites}

abbrev pub is_ok : Result HandshakeInfo → Bool
is_ok (ok info) = true
is_ok (err e) = false

abbrev pub cipher_result : Str → Result HandshakeInfo → CipherResult
cipher_result name r = record { suite = name; accepted = is_ok r; strength = classify name }

-- `if let Ok(r) = h.await`: a task that panicked leaves no entry.
abbrev pub push_result : List CipherResult → Result CipherResult → List CipherResult
push_result results (ok r) = results ++ (r ∷ [])
push_result results (err e) = results

-- The handles are awaited in order while all the tasks run, so the wait ends with the last of them.
unfoldable pub await_handles :
    List (Future CipherResult) → ℕ → List CipherResult → Future (List CipherResult)
await_handles [] t results = done t (ok results)
await_handles (done t' r ∷ handles) t results =
    await_handles handles (max t t') (push_result results r)
await_handles (hangs ∷ handles) t results = hangs

-- `acquire` is the semaphore of tokio, which has five permits: when the task of a suite gets one, or
-- an error, at which the task panics.
module _ (net : Net) (target : Target) (acquire : Str → Future (Unit {0})) (timeout_secs : ℕ) where
  unfoldable pub suite_task : Str → Future CipherResult
  suite_task name = do
    _ ← acquire name
    r ← settle (attempt_handshake net target (with_suite name) timeout_secs)
    now (ok (cipher_result name r))

  unfoldable pub enumerate : Future (List CipherResult)
  enumerate = await_handles (map suite_task probe_suites) 0 []
