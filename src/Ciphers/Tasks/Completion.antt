-- ===== src/Ciphers/Tasks/Completion.antt =====
-- The tasks of scanner/ciphers.rs from any reachable state on, and the list that is made of them.
use ru_ssl.Prelude.{
  ℕ, ◌+◌, ◌<◌, ◌≡◌, ◌⊎◌, ◌↔◌, true, Bool-cases, inl, inr, refl, sym, ap, ◌∙◌, List, [], ◌∷◌, ◌++◌,
  map, arith,
}
use ru_ssl.Text.{Str}
use ru_ssl.Error.{Result, ok, err, timeout}
use ru_ssl.Async.{Future, done, hangs}
use ru_ssl.Net.{Net}
use ru_ssl.Target.{Target}
use ru_ssl.Handshake.{HandshakeInfo, with_suite}
use ru_ssl.Handshake.Probe.{attempt_handshake}
use ru_ssl.Ciphers.{CipherResult, classify, probe_suites}
use ru_ssl.Ciphers.Enumerate.{cipher_result, enumerate}
use ru_ssl.Ciphers.Listing.{GrantedWithin, Lists, enumerate-Lists}
use ru_ssl.Ciphers.Tasks.{
  Phase, Task, waiting, running, finished, task, held, Step, acquire, release, Run, later,
  result_of, collected,
}
use ru_ssl.Ciphers.Tasks.Order.{remains, remaining, IsDone, Matches, Run-IsOrdered}

-- Some task is in this phase.
abbrev Finds : Phase → List Task → Type 0
Finds p s = (before after : List Task) × (n : Str) × (s ≡ before ++ (task n p ∷ after))

Finds-cons : (p : Phase) (t : Task) (s : List Task) → Finds p s → Finds p (t ∷ s)
Finds-cons p t s (before, after, n, e) = (t ∷ before, after, n, ap (◌∷◌ t) e)

-- A task in this phase, or none.
head_running :
    (t : Task) (s : List Task) (p : Phase)
    → t.phase ≡ p
    → held s ≡ 0
    → (held (t ∷ s) ≡ 0) ⊎ Finds running (t ∷ s)
head_running t s waiting e idle = inl (rw e (omega arith))
head_running t s running e idle = inr ([], s, t.name, ap (λ (p : Phase). task t.name p ∷ s) e)
head_running t s (finished r) e idle = inl (rw e (omega arith))

find_running : (s : List Task) → (held s ≡ 0) ⊎ Finds running s
find_running [] = inl refl
find_running (t ∷ s) = elim (find_running s) [
  | inr found ↦ inr (Finds-cons running t s found)
  | inl idle ↦ head_running t s t.phase refl idle
]

head_waiting :
    (t : Task) (s : List Task) (p : Phase)
    → t.phase ≡ p
    → held (t ∷ s) ≡ 0
    → remaining s ≡ 0
    → (remaining (t ∷ s) ≡ 0) ⊎ Finds waiting (t ∷ s)
head_waiting t s waiting e idle over = inr ([], s, t.name, ap (λ (p : Phase). task t.name p ∷ s) e)
head_waiting t s running e idle over = absurd (let h : 1 + held s ≡ 0 = rw e at idle in omega arith)
head_waiting t s (finished r) e idle over = inl (rw e (omega arith))

find_waiting : (s : List Task) → held s ≡ 0 → (remaining s ≡ 0) ⊎ Finds waiting s
find_waiting [] idle = inl refl
find_waiting (t ∷ s) idle = elim (find_waiting s (omega arith)) [
  | inr found ↦ inr (Finds-cons waiting t s found)
  | inl over ↦ head_waiting t s t.phase refl idle over
]

module _ (outcome : Str → Result HandshakeInfo) where
  -- The tasks are never stuck: some task can go on until all have ended.
  progress : (s : List Task) → (remaining s ≡ 0) ⊎ ((u : List Task) × Step outcome s u)
  progress s = elim (find_running s) [
    | inr (before, after, n, e) ↦ inr (_, release before after n e refl)
    | inl idle ↦ elim (find_waiting s idle) [
      | inl over ↦ inl over
      | inr (before, after, n, e) ↦ inr (_, acquire before after n e (omega arith) refl)
    ]
  ]

  phase-result :
      (n : Str) (p : Phase)
      → IsDone outcome n p
      → remains p ≡ 0
      → result_of p ≡ cipher_result n (outcome n) ∷ []
  phase-result n waiting d over = absurd (omega arith)
  phase-result n running d over = absurd (omega arith)
  phase-result n (finished r) d over = ap (λ (x : CipherResult). x ∷ []) d

  collected-Matches :
      (names : List Str) (s : List Task)
      → Matches outcome names s
      → remaining s ≡ 0
      → collected s ≡ map (λ n. cipher_result n (outcome n)) names
  collected-Matches [] [] h over = refl
  collected-Matches [] (t ∷ s) h over = absurd h
  collected-Matches (n ∷ names) [] h over = absurd h
  collected-Matches (n ∷ names) (t ∷ s) (e, d, h) over =
      rw (phase-result n t.phase d (omega arith), collected-Matches names s h (omega arith)) refl

-- What a handshake ended with; under a time limit each ends.
abbrev pub outcome_of : Future HandshakeInfo → Result HandshakeInfo
outcome_of (done t r) = r
outcome_of hangs = err timeout

module _ (net : Net) (target : Target) (secs : ℕ) where
  abbrev pub outcome : Str → Result HandshakeInfo
  outcome name = outcome_of (attempt_handshake net target (with_suite name) secs)

  entry-cipher_result :
      (n : Str) (c : CipherResult) (r : Result HandshakeInfo)
      → c.suite ≡ n
      → (c.accepted ≡ true) ↔ ((info : HandshakeInfo) × (r ≡ ok info))
      → c.strength ≡ classify n
      → c ≡ cipher_result n r
  entry-cipher_result n c (ok info) e a s = let accepted = a.1 (info, refl) in cc
  entry-cipher_result n c (err x) e a s = elim (Bool-cases c.accepted) [
    | inl accepted ↦ absurd (let (_, refuted) = a.0 accepted in cc)
    | inr refused ↦ cc
  ]

  Lists-map :
      (names : List Str) (cs : List CipherResult)
      → Lists net target secs names cs
      → cs ≡ map (λ n. cipher_result n (outcome n)) names
  Lists-map [] [] h = refl
  Lists-map [] (c ∷ cs) h = absurd h
  Lists-map (n ∷ names) [] h = absurd h
  Lists-map (n ∷ names) (c ∷ cs) ((t, r, e, q, a, s), h) =
      rw (entry-cipher_result n c r q a s, e, Lists-map names cs h) refl

module _ (net : Net) (target : Target) (acquired : Str → Future (Unit {0})) (secs wait : ℕ)
    (limited : 0 < secs) (granted : GrantedWithin acquired wait probe_suites) where
  -- Under a positive time limit, if each task is granted its permit within some time, the tasks
  -- are never stuck: in any state that they reach, either fewer than twelve steps were taken and
  -- another is possible, or twelve were taken and the results collected are the list that
  -- `enumerate` returns, whatever the order of the steps was.
  pub Run-enumerate :
      (k : ℕ) (s : List Task)
      → Run (outcome net target secs) probe_suites k s
      → ((k < 12) × (u : List Task) × Step (outcome net target secs) s u)
        ⊎ ((k ≡ 12) × (t : ℕ) × (enumerate net target acquired secs ≡ done t (ok (collected s))))
  Run-enumerate k s r =
      let ordered = Run-IsOrdered (outcome net target secs) probe_suites r in
      elim (progress (outcome net target secs) s) [
        | inr (u, st) ↦
            let next = Run-IsOrdered (outcome net target secs) probe_suites (later r st) in
            inl (omega (arith, next.counted), u, st)
        | inl over ↦
            let (t, cs, e, listed, _) =
              enumerate-Lists net target acquired secs wait limited granted in
            let same =
              Lists-map net target secs probe_suites cs listed
              ∙ sym (
                  collected-Matches (outcome net target secs) probe_suites s ordered.in_order
                    over) in
            inr (
              omega (arith, ordered.counted),
              t,
              e ∙ ap (λ (l : List CipherResult). done t (ok l)) same,
            )
      ]
