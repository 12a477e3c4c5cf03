-- ===== src/Ciphers/Listing.antt =====
-- What the enumeration lists, and how long it takes.
use Prim.Native.Nat.{max}
use ru_ssl.Prelude.{
  ℕ, ◌+◌, ◌*◌, ◌≤◌, ◌<◌, ◌≡◌, refl, sym, ap, ◌∙◌, List, [], ◌∷◌, ◌++◌, map, append_assoc,
  append-nil, arith, All, ◌↔◌, true,
}
use ru_ssl.Text.{Str}
use ru_ssl.Error.{Result, ok, err}
use ru_ssl.Async.{Future, done, CompletesWithin-done, with_timeout-CompletesWithin}
use ru_ssl.Net.{Net}
use ru_ssl.Target.{Target}
use ru_ssl.Handshake.{HandshakeInfo, with_suite}
use ru_ssl.Handshake.Probe.{attempt_handshake}
use ru_ssl.Ciphers.{CipherResult, classify, probe_suites}
use ru_ssl.Ciphers.Enumerate.{cipher_result, await_handles, suite_task, enumerate}

-- Each of these tasks is granted its permit within so many milliseconds.
abbrev pub GrantedWithin : (Str → Future (Unit {0})) → ℕ → List Str → Type 0
GrantedWithin acquire wait = All (λ name. (t : ℕ) × (acquire name ≡ done t (ok tt)) × (t ≤ wait))

module _ (net : Net) (target : Target) (secs : ℕ) where
  -- The entry of a suite: its name, whether the handshake with it alone succeeded, and its class.
  abbrev pub IsEntry : Str → CipherResult → Type 0
  IsEntry name c =
      (t : ℕ) × (r : Result HandshakeInfo) × (attempt_handshake net target (with_suite name) secs
        ≡ done t r)
      × (c.suite ≡ name)
      × ((c.accepted ≡ true) ↔ ((info : HandshakeInfo) × (r ≡ ok info)))
      × (c.strength ≡ classify name)

  -- One entry for each suite, in order.
  abbrev pub Lists : List Str → List CipherResult → Type 0
  Lists [] [] = Unit
  Lists [] (_ ∷ _) = ⊥
  Lists (_ ∷ _) [] = ⊥
  Lists (name ∷ names) (c ∷ cs) = IsEntry name c × Lists names cs

module _ (net : Net) (target : Target) (acquire : Str → Future (Unit {0})) (secs wait : ℕ)
    (limited : 0 < secs) (granted : GrantedWithin acquire wait probe_suites) where
  abbrev limit : ℕ
  limit = wait + secs * 1000

  cipher_result-accepted :
      (name : Str) (r : Result HandshakeInfo)
      → ((cipher_result name r).accepted ≡ true) ↔ ((info : HandshakeInfo) × (r ≡ ok info))
  cipher_result-accepted name (ok info) = (λ e. (info, refl), λ h. refl)
  cipher_result-accepted name (err x) = (λ e. absurd (cc), λ h. absurd (let (_, e) = h in cc))

  suite_task-IsEntry :
      (name : Str)
      → (t : ℕ) × (acquire name ≡ done t (ok tt)) × (t ≤ wait)
      → (t : ℕ) × (c : CipherResult) × (suite_task net target acquire secs name ≡ done t (ok c))
        × IsEntry net target secs name c
        × (t ≤ limit)
  unfolding suite_task attempt_handshake
  suite_task-IsEntry name (w, e, b) =
      let (t, r, e', b') =
        CompletesWithin-done (secs * 1000) (attempt_handshake net target (with_suite name) secs)
          (with_timeout-CompletesWithin secs _ limited) in
      (
        w + (t + 0),
        cipher_result name r,
        rw (e, e') refl,
        (t, r, e', refl, cipher_result-accepted name r, refl),
        omega arith,
      )

  await_handles-entries :
      (names : List Str) (t : ℕ) (results : List CipherResult)
      → GrantedWithin acquire wait names
      → t ≤ limit
      → (t' : ℕ) × (cs : List CipherResult) × (await_handles
            (map (suite_task net target acquire secs) names)
            t
            results
          ≡ done t' (ok (results ++ cs)))
        × Lists net target secs names cs
        × (t' ≤ limit)
  unfolding await_handles
  await_handles-entries [] t results g b =
      (t, [], ap (λ (l : List CipherResult). done t (ok l)) (sym (append-nil results)), tt, b)
  await_handles-entries (name ∷ names) t results (g, gs) b =
      let (t', c, e, entry, b') = suite_task-IsEntry name g in
      let (t'', cs, e', entries, b'') =
        await_handles-entries names (max t t') (results ++ (c ∷ [])) gs (omega arith) in
      (
        t'',
        c ∷ cs,
        rw e (
            e'
            ∙ ap (λ (l : List CipherResult). done t'' (ok l)) (append_assoc results (c ∷ []) cs)),
        (entry, entries),
        b'',
      )

  -- Under a positive time limit, if each task is granted its permit within some time, the
  -- enumeration succeeds within that time and the limit, with one entry for each probed suite, in
  -- order, accepted exactly if the handshake with that suite alone succeeded, and with its class.
  pub enumerate-Lists :
      (t : ℕ) × (cs : List CipherResult) × (enumerate net target acquire secs ≡ done t (ok cs))
      × Lists net target secs probe_suites cs
      × (t ≤ limit)
  unfolding enumerate
  enumerate-Lists = await_handles-entries probe_suites 0 [] granted (omega arith)
