-- ===== src/Async.antt =====
-- Futures of the tokio runtime, as far as the program observes them: a future completes after some
-- milliseconds with a result, or never. scanner/mod.rs: `with_timeout`.
pub mod Values
pub mod Within
use Prim.Native.Nat.{max}
use ru_ssl.Prelude.{
  ◌⊎◌, inl, inr, Bool-cases, ℕ, ◌+◌, ◌*◌, ◌≤◌, ◌<◌, ◌≡◌, refl, ◌==◌, leb, if◌then◌else◌, arith,
}
use ru_ssl.Error.{timeout, Result, ok, err}

pub data Future {ℓ} (A : Type ℓ) : Type ℓ where
  done : ℕ → Result A → Future A
  hangs : Future A

-- What follows a future starts when it has completed.
abbrev pub delay {ℓ} : {A : Type ℓ} → ℕ → Future A → Future A
delay t (done t' r) = done (t + t') r
delay t hangs = hangs

-- A value, or an error, that is there at once.
abbrev pub now {ℓ} : {A : Type ℓ} → Result A → Future A
now r = done 0 r

-- `fut.await?`: an error ends the caller too.
infixl 5 ◌>>=◌
abbrev pub ◌>>=◌ {ℓ κ} : {A : Type ℓ} {B : Type κ} → Future A → (A → Future B) → Future B
done t (ok a) >>= f = delay t (f a)
done t (err e) >>= f = done t (err e)
hangs >>= f = hangs

-- `match fut.await { .. }`: the caller handles the error itself.
abbrev pub settle {ℓ} : {A : Type ℓ} → Future A → Future (Result A)
settle (done t r) = done t (ok r)
settle hangs = hangs

-- `tokio::join!` of two: both run at once, and both are awaited, whatever they return.
abbrev pub join {ℓ κ} :
    {A : Type ℓ} {B : Type κ} → Future A → Future B → Future (Result A × Result B)
join (done t r) (done t' r') = done (max t t') (ok (r, r'))
join (done t r) hangs = hangs
join hangs fut = hangs

-- `tokio::time::timeout` with the `Elapsed` error turned into `ScanError::Timeout`. A future that is
-- ready at the deadline is polled first, so its result counts.
abbrev pub timeout_after {ℓ} : {A : Type ℓ} → ℕ → Future A → Future A
timeout_after limit (done t r) = if leb t limit then done t r else done limit (err timeout)
timeout_after limit hangs = done limit (err timeout)

unfoldable pub with_timeout {ℓ} : {A : Type ℓ} → ℕ → Future A → Future A
with_timeout timeout_secs fut =
    if timeout_secs == 0 then fut else timeout_after (timeout_secs * 1000) fut

-- The future completes, within so many milliseconds.
abbrev pub CompletesWithin {ℓ} : {A : Type ℓ} → ℕ → Future A → Type 0
CompletesWithin limit (done t r) = t ≤ limit
CompletesWithin limit hangs = ⊥

module _ {ℓ} {A : Type ℓ} where
  -- Under a limit every future completes in time.
  pub with_timeout-CompletesWithin :
      (secs : ℕ) (fut : Future A) → 0 < secs → CompletesWithin (secs * 1000) (with_timeout secs fut)
  unfolding with_timeout
  with_timeout-CompletesWithin secs (done t r) h = ground arith
  with_timeout-CompletesWithin secs hangs h = ground arith

  -- Under a positive time limit, a future that completes in time is unchanged, and any other,
  -- late or never complete, is replaced by the timeout error at the deadline.
  pub with_timeout_cases :
      (secs : ℕ) (fut : Future A)
      → 0 < secs
      → (CompletesWithin (secs * 1000) fut × (with_timeout secs fut ≡ fut))
        ⊎ ((¬ CompletesWithin (secs * 1000) fut)
            × (with_timeout secs fut ≡ done (secs * 1000) (err timeout)))
  unfolding with_timeout
  with_timeout_cases secs hangs h = inr ((λ k. k), ground arith)
  with_timeout_cases secs (done t r) h = elim (Bool-cases (leb t (secs * 1000))) [
    | inl early ↦ inl (ground arith, ground arith)
    | inr late ↦ inr ((λ k. ground arith), ground arith)
  ]

pub CompletesWithin-mono {ℓ} :
    {A : Type ℓ} (a b : ℕ) (fut : Future A) → a ≤ b → CompletesWithin a fut → CompletesWithin b fut
CompletesWithin-mono a b (done t r) h k = omega arith
CompletesWithin-mono a b hangs h k = k

pub CompletesWithin-delay {ℓ} :
    {A : Type ℓ} (t limit : ℕ) (fut : Future A)
    → CompletesWithin limit fut
    → CompletesWithin (t + limit) (delay t fut)
CompletesWithin-delay t limit (done t' r) h = omega arith
CompletesWithin-delay t limit hangs h = absurd h

-- The bounds of the parts add up.
pub CompletesWithin-bind {ℓ κ} :
    {A : Type ℓ} {B : Type κ} (a b : ℕ) (m : Future A) (f : A → Future B)
    → CompletesWithin a m
    → ((x : A) → CompletesWithin b (f x))
    → CompletesWithin (a + b) (m >>= f)
CompletesWithin-bind a b (done t (ok x)) f h k =
    CompletesWithin-mono (t + b) (a + b) (delay t (f x)) (omega arith)
      (CompletesWithin-delay t b (f x) (k x))
CompletesWithin-bind a b (done t (err e)) f h k = omega arith
CompletesWithin-bind a b hangs f h k = absurd h

pub CompletesWithin-settle {ℓ} :
    {A : Type ℓ} (a : ℕ) (m : Future A) → CompletesWithin a m → CompletesWithin a (settle m)
CompletesWithin-settle a (done t r) h = h
CompletesWithin-settle a hangs h = absurd h

-- A future that completes in time ends with a result then.
pub CompletesWithin-done {ℓ} :
    {A : Type ℓ} (limit : ℕ) (fut : Future A)
    → CompletesWithin limit fut
    → (t : ℕ) × (r : Result A) × (fut ≡ done t r) × (t ≤ limit)
CompletesWithin-done limit (done t r) h = (t, r, refl, h)
CompletesWithin-done limit hangs h = absurd h
