-- ===== src/Ciphers/Tasks.antt =====
-- The tasks that `enumerate` of scanner/ciphers.rs spawns, in any order of their steps. The semaphore is
-- tokio's: `acquire` returns when fewer permits are held than there are, and a permit is given back
-- when its task ends.
pub mod Order
pub mod Completion
use ru_ssl.Prelude.{ℕ, suc, ◌+◌, ◌<◌, ◌≡◌, List, [], ◌∷◌, ◌++◌, map}
use ru_ssl.Text.{Str}
use ru_ssl.Error.{Result}
use ru_ssl.Handshake.{HandshakeInfo}
use ru_ssl.Ciphers.{CipherResult}
use ru_ssl.Ciphers.Enumerate.{cipher_result}
use ru_ssl.Ciphers.Permits.{permits}

-- Before `acquire` returns, with the permit, and after the end.
pub data Phase : Type 0 where
  waiting running : Phase
  finished : CipherResult → Phase

pub record Task : Type 0 where
  pub name : Str
  pub phase : Phase

abbrev pub task : Str → Phase → Task
task n p = record { name = n; phase = p }

abbrev pub spawned : List Str → List Task
spawned = map (λ n. task n waiting)

abbrev pub holds : Phase → ℕ
holds waiting = 0
holds running = 1
holds (finished r) = 0

-- The permits that are held.
abbrev pub held : List Task → ℕ
held [] = 0
held (t ∷ ts) = holds t.phase + held ts

-- A step of one task. `outcome` is what the handshake with a suite returns.
pub data Step (outcome : Str → Result HandshakeInfo) (s u : List Task) : Type 0 where
  acquire :
      (before after : List Task) (n : Str)
      → s ≡ before ++ (task n waiting ∷ after)
      → held s < permits
      → u ≡ before ++ (task n running ∷ after)
      → Step outcome s u
  release :
      (before after : List Task) (n : Str)
      → s ≡ before ++ (task n running ∷ after)
      → u ≡ before ++ (task n (finished (cipher_result n (outcome n))) ∷ after)
      → Step outcome s u

-- So many steps, one after the other.
pub data Run (outcome : Str → Result HandshakeInfo) (names : List Str)
    : ℕ → List Task → Type 0 where
  start : Run outcome names 0 (spawned names)
  later :
      {k : ℕ} {s u : List Task}
      → Run outcome names k s
      → Step outcome s u
      → Run outcome names (suc k) u

-- The results in the order of the handles.
abbrev pub result_of : Phase → List CipherResult
result_of waiting = []
result_of running = []
result_of (finished r) = r ∷ []

abbrev pub collected : List Task → List CipherResult
collected [] = []
collected (t ∷ ts) = result_of t.phase ++ collected ts
