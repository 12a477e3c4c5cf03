-- ===== src/Tests/Tasks.antt =====
-- The theorems on the interleaved tasks, after two steps of two of them.
use ru_ssl.Prelude.{◌*◌, ℕ, ◌<◌, ◌≡◌, ◌⊎◌, refl, List, [], ◌∷◌, arith, drop}
use ru_ssl.Text.{Str, codes}
use ru_ssl.Error.{Result, ok}
use ru_ssl.Async.{done}
use ru_ssl.Handshake.{HandshakeInfo}
use ru_ssl.Tests.Demo.{quiet_net, demo_target, last_waits, last_waits-GrantedWithin}
use ru_ssl.Ciphers.{probe_suites}
use ru_ssl.Ciphers.Enumerate.{enumerate}
use ru_ssl.Ciphers.Tasks.{Task, running, task, spawned, Step, acquire, Run, start, later, collected}
use ru_ssl.Ciphers.Tasks.Completion.{outcome, Run-enumerate}

abbrev quiet_outcome : Str → Result HandshakeInfo
quiet_outcome = outcome quiet_net demo_target 10

-- The first suite's task has its permit.
abbrev one_running : List Task
one_running = task (codes "TLS13_AES_256_GCM_SHA384") running ∷ drop 1 (spawned probe_suites)

one_step : Run quiet_outcome probe_suites 1 one_running
one_step = later start (
    acquire [] (drop 1 (spawned probe_suites)) (codes "TLS13_AES_256_GCM_SHA384") refl (omega arith)
      refl)

one_goes_on :
    ((1 < 12) × (u : List Task) × Step quiet_outcome one_running u)
    ⊎ ((◌≡◌ {A = ℕ} 1 12)
        × (t : ℕ) × (enumerate quiet_net demo_target last_waits 10
            ≡ done t (ok (collected one_running))))
one_goes_on =
    Run-enumerate quiet_net demo_target last_waits 10 (10 * 1000) (omega arith)
      last_waits-GrantedWithin 1 one_running one_step
