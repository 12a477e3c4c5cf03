-- ===== src/Async/Within.antt =====
-- How long a `do` block takes, by rules for its steps. `search within` builds the derivation.
use ru_ssl.Prelude.{ℕ, ◌+◌, ◌*◌, ◌≤◌, ◌<◌, ◌≡◌, refl, Bool, true, false, arith, if◌then◌else◌}
use ru_ssl.Error.{Result, ok, err}
use ru_ssl.Async.{
  Future, done, hangs, now, settle, ◌>>=◌, timeout_after, with_timeout,
  with_timeout-CompletesWithin, CompletesWithin, CompletesWithin-bind, CompletesWithin-mono,
}

module _ {A : Type 0} where
  pub now_within : (limit : ℕ) (r : Result A) → CompletesWithin limit (now r)
  now_within limit r = omega arith

  pub with_timeout_within :
      (secs : ℕ) (fut : Future A) → 0 < secs → CompletesWithin (secs * 1000) (with_timeout secs fut)
  with_timeout_within secs fut limited = with_timeout-CompletesWithin secs fut limited

  pub timeout_after_within :
      (limit : ℕ) (fut : Future A) → CompletesWithin limit (timeout_after limit fut)
  timeout_after_within limit (done t r) = ground arith
  timeout_after_within limit hangs = omega arith

  pub if_within :
      (limit : ℕ) (b : Bool) (m m' : Future A)
      → CompletesWithin limit m
      → CompletesWithin limit m'
      → CompletesWithin limit (if b then m else m')
  if_within limit true m m' h h' = h
  if_within limit false m m' h h' = h'

module _ {A B : Type 0} where
  -- A step that is there at once takes no time off the limit.
  pub after_now :
      (limit : ℕ) (r : Result A) (f : A → Future B)
      → ((x : A) → CompletesWithin limit (f x))
      → CompletesWithin limit (now r >>= f)
  after_now limit r f h =
      CompletesWithin-mono (0 + limit) limit (now r >>= f) (omega arith)
        (CompletesWithin-bind 0 limit (now r) f (omega arith) h)

  -- Nor does one at the end.
  pub then_now :
      (limit : ℕ) (m : Future A) (f : A → Result B)
      → CompletesWithin limit m
      → CompletesWithin limit (m >>= λ a. now (f a))
  then_now limit (done t (ok a)) f h = omega arith
  then_now limit (done t (err e)) f h = h
  then_now limit hangs f h = h

-- The future completes with a value, within so many milliseconds.
abbrev pub Succeeds : (A : Type 0) → ℕ → Future A → Type 0
Succeeds A limit fut = (t : ℕ) × (a : A) × (fut ≡ done t (ok a)) × (t ≤ limit)

-- A function that handles the error itself always succeeds.
pub settled-Succeeds :
    {A B : Type 0} (limit : ℕ) (f : Result A → B) (m : Future A)
    → CompletesWithin limit m
    → Succeeds B limit (settle m >>= λ r. now (ok (f r)))
settled-Succeeds limit f (done t r) h = (t + 0, f r, refl, omega arith)
settled-Succeeds limit f hangs h = absurd h

-- So does an optional step.
pub if-Succeeds :
    {A : Type 0} (limit : ℕ) (b : Bool) (m : Future A) (a : A)
    → Succeeds A limit m
    → Succeeds A limit (if b then m else now (ok a))
if-Succeeds limit true m a h = h
if-Succeeds limit false m a h = (0, a, refl, omega arith)

pub ruleset within = (
  now_within, with_timeout_within, timeout_after_within, if_within, after_now, then_now,
  CompletesWithin-bind,
)
