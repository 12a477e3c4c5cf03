-- ===== src/Async/Values.antt =====
-- Futures that end with a value, taken apart along the steps of a `do` block.
use ru_ssl.Prelude.{ℕ, ◌≡◌, refl}
use ru_ssl.Error.{Result, ok, err}
use ru_ssl.Async.{Future, done, hangs, now, settle, delay, ◌>>=◌}

-- A delayed future that ends with a value ends with it without the delay.
pub delay-value :
    {A : Type 0} (t' t : ℕ) (m : Future A) (a : A)
    → delay t' m ≡ done t (ok a)
    → (t'' : ℕ) × (m ≡ done t'' (ok a))
delay-value t' t (done t'' r) a e = (t'', cc)
delay-value t' t hangs a e = cc

-- A future that ends with a value has a first step that does.
pub bind-value :
    {A B : Type 0} (m : Future A) (f : A → Future B) (t : ℕ) (b : B)
    → (m >>= f) ≡ done t (ok b)
    → (t' t'' : ℕ) × (a : A) × (m ≡ done t' (ok a)) × (f a ≡ done t'' (ok b))
bind-value (done t' (ok a)) f t b e =
    let (t'', later) = delay-value t' t (f a) b e in (t', t'', a, refl, later)
bind-value (done t' (err x)) f t b e = cc
bind-value hangs f t b e = cc

-- A step that is there at once.
pub now-value :
    {A B : Type 0} (r : Result A) (f : A → Future B) (t : ℕ) (b : B)
    → (now r >>= f) ≡ done t (ok b)
    → (t' : ℕ) × (a : A) × (r ≡ ok a) × (f a ≡ done t' (ok b))
now-value r f t b e = let (_, t'', a, e₁, e₂) = bind-value (now r) f t b e in (t'', a, cc, e₂)

pub done_injective : {A : Type 0} (t t' : ℕ) (r r' : Result A) → done t r ≡ done t' r' → r ≡ r'
done_injective t t' r r' e = cc

-- The caller that settles a future goes on if the future completes.
pub settle-value :
    {A B : Type 0} (m : Future A) (f : Result A → Future B) (t : ℕ) (b : B)
    → (settle m >>= f) ≡ done t (ok b)
    → (t' t'' : ℕ) × (r : Result A) × (m ≡ done t' r) × (f r ≡ done t'' (ok b))
settle-value (done t' r) f t b e =
    let (t'', later) = delay-value t' t (f r) b e in (t', t'', r, refl, later)
settle-value hangs f t b e = cc

pub now_injective : {A : Type 0} (a b : A) (t : ℕ) → now (ok a) ≡ done t (ok b) → a ≡ b
now_injective a b t e = cc
