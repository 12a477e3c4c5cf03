-- ===== src/Http/Chunked.antt =====
-- The rounds of `decode_chunked` in scanner/http.rs.
use ru_ssl.Prelude.{
  ℕ, zero, suc, ◌+◌, ◌≤◌, ◌<◌, ◌≡◌, refl, sym, ◌∙◌, [], ◌∷◌, ◌++◌, Option, none, some, arith, ltb,
  ◌==◌, if◌then◌else◌, length, take, drop, length-drop,
}
use ru_ssl.Text.{Bytes, codes}
use ru_ssl.Error.{ScanError, Result, ok, err, ◌>>=◌, >>=-eq-ok}
use ru_ssl.Http.Search.{IsFirst, find_subsequence-IsFirst}
use ru_ssl.Http.{find_subsequence, crlf, ok_or, chunk_size, chunk_header, skip_crlf, decode_loop}

pub ok_or-eq-ok {ℓ} :
    {A : Type ℓ} (o : Option A) (e : ScanError) {a : A} → ok_or o e ≡ ok a → o ≡ some a
ok_or-eq-ok none e h = cc
ok_or-eq-ok (some a) e h = cc

found_inside : (input : Bytes) (i : ℕ) → find_subsequence input crlf ≡ some i → i < length input
found_inside input i e =
    let first : IsFirst input crlf (some i) =
      rw e at (find_subsequence-IsFirst input 13 (10 ∷ [])) in
    first.1

pub chunk_header_shorter :
    (input rest : Bytes) (size : ℕ)
    → chunk_header input ≡ ok (size, rest)
    → length rest < length input
unfolding chunk_header
chunk_header_shorter input rest size e =
    let (nl, found, e₁) = >>=-eq-ok (ok_or (find_subsequence input crlf) _) _ e in
    let (n, number, e₂) = >>=-eq-ok (chunk_size (take nl input)) _ e₁ in
    let inside = found_inside input nl (ok_or-eq-ok _ _ found) in
    ground (arith, length-drop (nl + 2) input)

length-skip_crlf : (size : ℕ) (rest : Bytes) → length (skip_crlf (drop size rest)) ≤ length rest
length-skip_crlf size rest = ground (arith, length-drop size rest, length-drop 2 (drop size rest))

-- One round of the loop, on the size line that it read.
abbrev pub round : (Bytes → Bytes → Result Bytes) → Bytes → ℕ × Bytes → Result Bytes
round again out (size, rest) =
    if size == 0
    then ok out
    else if ltb (length rest) size
    then err (ScanError.http (codes "truncated chunk body"))
    else again (skip_crlf (drop size rest)) (out ++ take size rest)

round_agrees :
    (f g : Bytes → Bytes → Result Bytes) (out rest : Bytes) (size : ℕ)
    → f (skip_crlf (drop size rest)) (out ++ take size rest)
      ≡ g (skip_crlf (drop size rest)) (out ++ take size rest)
    → round f out (size, rest) ≡ round g out (size, rest)
round_agrees f g out rest size e = ground arith

pub decode_loop_step :
    (fuel : ℕ) (input out : Bytes)
    → decode_loop (suc fuel) input out ≡ (chunk_header input >>= round (decode_loop fuel) out)
unfolding decode_loop
decode_loop_step fuel input out = refl

decode_loop_fuel :
    (fuel fuel' : ℕ) (input out : Bytes)
    → length input < fuel
    → length input < fuel'
    → decode_loop fuel input out ≡ decode_loop fuel' input out
decode_loop_fuel zero fuel' input out h h' = absurd (omega arith)
decode_loop_fuel (suc fuel) zero input out h h' = absurd (omega arith)
decode_loop_fuel (suc fuel) (suc fuel') input out h h' =
    decode_loop_step fuel input out
    ∙ same (λ rest out lt. decode_loop_fuel fuel fuel' rest out (omega arith) (omega arith))
        (chunk_header input) refl
    ∙ sym (decode_loop_step fuel' input out)
  where
    same :
        ((rest out : Bytes)
          → length rest < length input
          → decode_loop fuel rest out ≡ decode_loop fuel' rest out)
        → (r : Result (ℕ × Bytes)) → chunk_header input ≡ r
        → (r >>= round (decode_loop fuel) out) ≡ (r >>= round (decode_loop fuel') out)
    same later (err e) eq = refl
    same later (ok (size, rest)) eq =
        round_agrees (decode_loop fuel) (decode_loop fuel') out rest size (
          later (skip_crlf (drop size rest)) (out ++ take size rest)
            (omega (arith, chunk_header_shorter input rest size eq, length-skip_crlf size rest)))

-- The loop with no bound on its rounds, on what is left of the input and what was decoded.
unfoldable pub decode_from : Bytes → Bytes → Result Bytes
decode_from input out = decode_loop (suc (length input)) input out

-- The chunk loop, from any input and any output so far, satisfies the equation of the unbounded
-- loop: a size line that cannot be read is an error, a zero size ends the body, a chunk that is
-- cut short is an error, and otherwise the loop goes on behind the chunk. Its bound on the rounds
-- is never met.
pub decode_from_lem :
    (input out : Bytes)
    → decode_from input out ≡ (chunk_header input >>= λ h. round decode_from out h)
unfolding decode_from
decode_from_lem input out =
    decode_loop_step (length input) input out ∙ same (chunk_header input) refl
  where
    same :
        (r : Result (ℕ × Bytes))
        → chunk_header input ≡ r
        → (r >>= round (decode_loop (length input)) out)
          ≡ (r >>= λ h. round (λ i o. decode_loop (suc (length i)) i o) out h)
    same (err e) eq = refl
    same (ok (size, rest)) eq =
        let rest' = skip_crlf (drop size rest) in
        let smaller : length rest' < length input =
          omega (arith, chunk_header_shorter input rest size eq, length-skip_crlf size rest) in
        round_agrees (decode_loop (length input)) (λ i o. decode_loop (suc (length i)) i o) out rest
          size
          (decode_loop_fuel (length input) (suc (length rest')) rest' (out ++ take size rest)
            smaller (omega arith))
