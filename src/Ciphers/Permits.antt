-- ===== src/Ciphers/Permits.antt =====
-- The five permits of `enumerate` of scanner/ciphers.rs over time: how long a task waits for one. The
-- semaphore is tokio's: a task waits only while every permit is held.
use ru_ssl.Prelude.{
  Bool-cases, ℕ, zero, suc, ◌+◌, ◌*◌, ◌≤◌, ◌<◌, ◌≡◌, refl, Bool, ◌&&◌, List, [], ◌∷◌, arith, ltb,
  leb, if◌then◌else◌, length, All, map, ◌∙◌, inl, inr, ◌⊎◌,
}
use ru_ssl.Text.{Str, codes, contains}
use ru_ssl.Error.{ok}
use ru_ssl.Async.{Future, done, hangs, CompletesWithin-done, with_timeout-CompletesWithin}
use ru_ssl.Net.{Net}
use ru_ssl.Target.{Target}
use ru_ssl.Handshake.{with_suite}
use ru_ssl.Handshake.Probe.{attempt_handshake}
use ru_ssl.Ciphers.{CipherResult, classify, probe_suites}
use ru_ssl.Ciphers.Enumerate.{enumerate}
use ru_ssl.Ciphers.Listing.{GrantedWithin, Lists, enumerate-Lists}

-- `Semaphore::new(5)`.
abbrev pub permits : ℕ
permits = 5

abbrev pub count {ℓ} : {A : Type ℓ} → (A → Bool) → List A → ℕ
count p [] = 0
count p (x ∷ xs) = (if p x then 1 else 0) + count p xs

-- The classes of the six probed suites: with a 128-bit key it is adequate, with a longer one strong.
abbrev pub suite_strengths : List Str
suite_strengths =
    codes "Strong"
    ∷ codes "Adequate"
    ∷ codes "Strong"
    ∷ codes "Strong"
    ∷ codes "Adequate"
    ∷ codes "Strong"
    ∷ []

classify-probe_suites : map classify probe_suites ≡ suite_strengths
unfolding classify contains
classify-probe_suites = refl

-- When a future completes, if it does.
abbrev pub elapsed {ℓ} : {A : Type ℓ} → Future A → ℕ
elapsed (done t r) = t
elapsed hangs = 0

-- Tasks that wait until `from`, hold a permit from then on, and give it back after `hold`.
module _ {ℓ} {A : Type ℓ} (from hold : A → ℕ) where
  abbrev pub holds_at : ℕ → A → Bool
  holds_at t x = leb (from x) t && ltb t (from x + hold x)

  abbrev waits_at : ℕ → A → Bool
  waits_at t x = ltb t (from x)

  -- No permit is held at the start and still after the longest hold, nor by a task that waits then.
  shares :
      (limit : ℕ) (xs : List A)
      → All (λ x. hold x ≤ limit) xs
      → count (holds_at 0) xs + count (holds_at limit) xs + count (waits_at limit) xs ≤ length xs
  shares limit [] h = omega arith
  shares limit (x ∷ xs) (hx, hs) = ground (arith, shares limit xs hs)

  none_waits :
      (limit : ℕ) (xs : List A) → count (waits_at limit) xs ≡ 0 → All (λ x. from x ≤ limit) xs
  none_waits limit [] e = tt
  none_waits limit (x ∷ xs) e = (ground arith, none_waits limit xs (ground arith))

  -- While a task waits all permits are held, at the start and after the longest hold.
  held_while_waiting :
      (n limit : ℕ) (all xs : List A)
      → All (λ x. (t : ℕ) → t < from x → n ≤ count (holds_at t) all) xs
      → 0 < count (waits_at limit) xs
      → (n ≤ count (holds_at 0) all) × (n ≤ count (holds_at limit) all)
  held_while_waiting n limit all [] busy h = absurd (omega arith)
  held_while_waiting n limit all (x ∷ xs) (bx, bs) h = elim (Bool-cases (waits_at limit x)) [
    | inl late ↦ (bx 0 (ground arith), bx limit (ground arith))
    | inr early ↦ held_while_waiting n limit all xs bs (ground arith)
  ]

  -- With at least half as many permits as there are tasks, no task waits longer than one hold.
  pub from_le :
      (n limit : ℕ) (xs : List A)
      → length xs ≤ 2 * n
      → All (λ x. hold x ≤ limit) xs
      → All (λ x. (t : ℕ) → t < from x → n ≤ count (holds_at t) xs) xs
      → All (λ x. from x ≤ limit) xs
  from_le n limit xs few short busy = elim (cases (count (waits_at limit) xs)) [
    | inl none_late ↦ none_waits limit xs none_late
    | inr some_late ↦
        let (at_start, at_end) = held_while_waiting n limit xs xs busy some_late in
        absurd (omega (arith, shares limit xs short))
  ]
    where
      cases : (k : ℕ) → (k ≡ 0) ⊎ (0 < k)
      cases zero = inl refl
      cases (suc k) = inr (omega arith)

module _ (net : Net) (target : Target) (acquire : Str → Future (Unit {0})) (secs : ℕ) where
  -- When a task has its permit, and for how long it keeps it.
  abbrev pub granted_at : Str → ℕ
  granted_at name = elapsed (acquire name)

  abbrev pub kept_for : Str → ℕ
  kept_for name = elapsed (attempt_handshake net target (with_suite name) secs)

  -- How many of the tasks hold a permit at a time.
  abbrev pub held_at : ℕ → ℕ
  held_at t = count (holds_at granted_at kept_for t) probe_suites

  -- What tokio documents of a semaphore: each task gets a permit in the end, no more permits are held
  -- than there are, and a task waits only while all of them are held.
  pub record IsSemaphore : Type 0 where
    pub granted : All (λ name. acquire name ≡ done (granted_at name) (ok tt)) probe_suites
    pub bounded : (t : ℕ) → held_at t ≤ permits
    pub busy : All (λ name. (t : ℕ) → t < granted_at name → permits ≤ held_at t) probe_suites

  kept_for_le : 0 < secs → (name : Str) → kept_for name ≤ secs * 1000
  unfolding attempt_handshake
  kept_for_le limited name =
      let (t, r, e, b) =
        CompletesWithin-done (secs * 1000) (attempt_handshake net target (with_suite name) secs)
          (with_timeout-CompletesWithin secs _ limited) in
      rw e b

  kept_for-All : 0 < secs → (names : List Str) → All (λ name. kept_for name ≤ secs * 1000) names
  kept_for-All limited [] = tt
  kept_for-All limited (n ∷ names) = (kept_for_le limited n, kept_for-All limited names)

  in_time :
      (wait : ℕ) (names : List Str)
      → All (λ name. acquire name ≡ done (granted_at name) (ok tt)) names
      → All (λ name. granted_at name ≤ wait) names
      → GrantedWithin acquire wait names
  in_time wait [] g b = tt
  in_time wait (n ∷ names) (g, gs) (b, bs) = ((granted_at n, g, b), in_time wait names gs bs)

  -- Under a time limit each of the six tasks has one of the five permits within it.
  pub IsSemaphore-GrantedWithin :
      0 < secs → IsSemaphore → GrantedWithin acquire (secs * 1000) probe_suites
  IsSemaphore-GrantedWithin limited s = in_time (secs * 1000) probe_suites s.granted (
      from_le granted_at kept_for permits (secs * 1000) probe_suites (omega arith)
        (kept_for-All limited probe_suites) s.busy)

  Lists-strength :
      (names : List Str) (cs : List CipherResult)
      → Lists net target secs names cs
      → map (λ (c : CipherResult). c.strength) cs ≡ map classify names
  Lists-strength [] [] h = refl
  Lists-strength [] (c ∷ cs) h = absurd h
  Lists-strength (n ∷ names) [] h = absurd h
  Lists-strength (n ∷ names) (c ∷ cs) ((_, _, _, _, _, e), h) =
      rw (e, Lists-strength names cs h) refl

  -- Under a positive time limit, if the semaphore keeps what tokio documents of it (each task
  -- gets a permit in the end, no more than five are held, and a task waits only while all of them
  -- are), the enumeration succeeds within two time limits, with one entry for each probed suite,
  -- in order, accepted exactly if the handshake with that suite alone succeeded, and with the
  -- classes strong, adequate, strong, strong, adequate and strong.
  pub IsSemaphore-Lists :
      0 < secs
      → IsSemaphore
      → (t : ℕ) × (cs : List CipherResult) × (enumerate net target acquire secs ≡ done t (ok cs))
        × Lists net target secs probe_suites cs
        × (map (λ (c : CipherResult). c.strength) cs ≡ suite_strengths)
        × (t ≤ 2 * (secs * 1000))
  IsSemaphore-Lists limited s =
      let granted = IsSemaphore-GrantedWithin limited s in
      let (t, cs, e, entries, b) =
        enumerate-Lists net target acquire secs (secs * 1000) limited granted in
      (
        t,
        cs,
        e,
        entries,
        Lists-strength probe_suites cs entries ∙ classify-probe_suites,
        omega arith,
      )
