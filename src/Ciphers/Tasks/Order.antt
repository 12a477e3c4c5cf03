-- ===== src/Ciphers/Tasks/Order.antt =====
-- The order and the count that hold in every state that the tasks of scanner/ciphers.rs reach.
use ru_ssl.Prelude.{ℕ, suc, ◌+◌, ◌*◌, ◌≡◌, refl, ap, List, [], ◌∷◌, ◌++◌, length, arith}
use ru_ssl.Text.{Str}
use ru_ssl.Error.{Result}
use ru_ssl.Handshake.{HandshakeInfo}
use ru_ssl.Ciphers.Enumerate.{cipher_result}
use ru_ssl.Ciphers.Tasks.{
  Phase, Task, waiting, running, finished, task, spawned, Step, acquire, release, Run, start, later,
}

-- The steps that a task has before it.
abbrev pub remains : Phase → ℕ
remains waiting = 2
remains running = 1
remains (finished r) = 0

abbrev pub remaining : List Task → ℕ
remaining [] = 0
remaining (t ∷ ts) = remains t.phase + remaining ts

pub remaining-append : (s u : List Task) → remaining (s ++ u) ≡ remaining s + remaining u
remaining-append [] u = omega arith
remaining-append (t ∷ s) u = omega (arith, remaining-append s u)

remaining-spawned : (names : List Str) → remaining (spawned names) ≡ 2 * length names
remaining-spawned [] = refl
remaining-spawned (n ∷ names) = omega (arith, remaining-spawned names)

module _ (outcome : Str → Result HandshakeInfo) where
  -- A finished task has the entry of its suite.
  abbrev pub IsDone : Str → Phase → Type 0
  IsDone n (finished r) = r ≡ cipher_result n (outcome n)
  IsDone n waiting = Unit
  IsDone n running = Unit

  -- The tasks are those of the suites, in order, each with its own entry if it is finished.
  abbrev pub Matches : List Str → List Task → Type 0
  Matches [] [] = Unit
  Matches [] (_ ∷ _) = ⊥
  Matches (_ ∷ _) [] = ⊥
  Matches (n ∷ names) (t ∷ ts) = (t.name ≡ n) × IsDone n t.phase × Matches names ts

  -- Replacing the phase of one task.
  Matches-phase :
      (names : List Str) (before after : List Task) (n : Str) (p p' : Phase)
      → ((m : Str) → n ≡ m → IsDone m p')
      → Matches names (before ++ (task n p ∷ after))
      → Matches names (before ++ (task n p' ∷ after))
  Matches-phase (m ∷ names) [] after n p p' h (e, _, rest) = (e, h m e, rest)
  Matches-phase (m ∷ names) (t ∷ before) after n p p' h (e, d, rest) =
      (e, d, Matches-phase names before after n p p' h rest)
  Matches-phase [] [] after n p p' h x = absurd x
  Matches-phase [] (t ∷ before) after n p p' h x = absurd x

  -- The tasks are in order, and two steps are counted for each.
  pub record IsOrdered (names : List Str) (k : ℕ) (s : List Task) : Type 0 where
    pub in_order : Matches names s
    pub counted : k + remaining s ≡ 2 * length names

  Matches-spawned : (names : List Str) → Matches names (spawned names)
  Matches-spawned [] = tt
  Matches-spawned (n ∷ names) = (refl, tt, Matches-spawned names)

  Step-IsOrdered :
      (names : List Str) (k : ℕ) (s u : List Task)
      → Step outcome s u
      → IsOrdered names k s
      → IsOrdered names (suc k) u
  Step-IsOrdered names k s u (acquire before after n e free e') ordered = rw e' (
      let counted : k + remaining (before ++ (task n waiting ∷ after)) ≡ 2 * length names =
        rw e at ordered.counted in
      record {
        in_order =
            Matches-phase names before after n waiting running (λ m q. tt)
              (rw e at ordered.in_order);
        counted = omega (
          arith,
          remaining-append before (task n waiting ∷ after),
          remaining-append before (task n running ∷ after),
        );
      })
  Step-IsOrdered names k s u (release before after n e e') ordered = rw e' (
      let r = cipher_result n (outcome n) in
      let counted : k + remaining (before ++ (task n running ∷ after)) ≡ 2 * length names =
        rw e at ordered.counted in
      record {
        in_order =
            Matches-phase names before after n running (finished r)
              (λ m q. ap (λ (x : Str). cipher_result x (outcome x)) q) (rw e at ordered.in_order);
        counted = omega (
          arith,
          remaining-append before (task n running ∷ after),
          remaining-append before (task n (finished r) ∷ after),
        );
      })

  -- In every state that the tasks reach the tasks are those of the suites in order, each that has
  -- ended has the entry of its suite, and the steps taken and those that remain are two for each.
  pub Run-IsOrdered :
      (names : List Str) {k : ℕ} {s : List Task} → Run outcome names k s → IsOrdered names k s
  Run-IsOrdered names start = record {
    in_order = Matches-spawned names;
    counted = omega (arith, remaining-spawned names);
  }
  Run-IsOrdered names (later r st) = Step-IsOrdered names _ _ _ st (Run-IsOrdered names r)
