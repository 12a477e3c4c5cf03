-- ===== src/Der/Children.antt =====
-- The loop of `children`, and the elements that a content is joined from.
use ru_ssl.Prelude.{
  ℕ, zero, suc, ◌≤◌, ◌<◌, ◌≡◌, refl, sym, ap, ◌∙◌, List, [], ◌∷◌, ◌++◌, none, some, arith, length,
  drop, length-drop, drop-append, length-append, append-nil, append_assoc, Option-cases, inl, inr,
}
use ru_ssl.Der.Reader.{total_len_bounds}
use ru_ssl.Der.RoundTrip.{view, FitsReader, read_tlv-tlv, FitsReader-content}
use ru_ssl.Der.{Tlv, tlv, read_tlv, children_loop, children}
use ru_ssl.Text.{Bytes}

-- One round: the loop's own tests never stop it, since a view moves on and stays inside.
children_loop-some :
    (fuel : ℕ) (rest : Bytes) (out : List Tlv) (t : Tlv)
    → read_tlv rest ≡ some t
    → children_loop (suc fuel) rest out
      ≡ children_loop fuel (drop t.total_len rest) (out ++ (t ∷ []))
unfolding children_loop
children_loop-some fuel rest out t e = ground (arith, total_len_bounds rest t e)

children_loop-none :
    (fuel : ℕ) (rest : Bytes) (out : List Tlv)
    → read_tlv rest ≡ none
    → children_loop fuel rest out ≡ out
unfolding children_loop
children_loop-none zero rest out e = refl
children_loop-none (suc fuel) rest out e = rw (e, children_loop)

children_loop-out :
    (fuel : ℕ) (rest : Bytes) (out : List Tlv)
    → children_loop fuel rest out ≡ out ++ children_loop fuel rest []
children_loop-out zero rest out = unfold children_loop in sym (append-nil out)
children_loop-out (suc fuel) rest out = elim (Option-cases (read_tlv rest)) [
  | inl e ↦
      rw (children_loop-none (suc fuel) rest out e, children_loop-none (suc fuel) rest [] e)
        (sym (append-nil out))
  | inr (t, e) ↦
      let rest' = drop t.total_len rest in
      children_loop-some fuel rest out t e
      ∙ children_loop-out fuel rest' (out ++ (t ∷ []))
      ∙ append_assoc out (t ∷ []) (children_loop fuel rest' [])
      ∙ ap (λ (l : List Tlv). out ++ l)
          (sym (children_loop-some fuel rest [] t e ∙ children_loop-out fuel rest' (t ∷ [])))
]

children_loop_step :
    (fuel : ℕ) (rest : Bytes) (t : Tlv)
    → read_tlv rest ≡ some t
    → children_loop (suc fuel) rest [] ≡ t ∷ children_loop fuel (drop t.total_len rest) []
children_loop_step fuel rest t e =
    children_loop-some fuel rest [] t e ∙ children_loop-out fuel (drop t.total_len rest) (t ∷ [])

shorter :
    (rest : Bytes) (t : Tlv) → read_tlv rest ≡ some t → length (drop t.total_len rest) < length rest
shorter rest t e = omega (arith, total_len_bounds rest t e, length-drop t.total_len rest)

children_loop_fuel :
    (fuel fuel' : ℕ) (rest : Bytes)
    → length rest ≤ fuel
    → length rest ≤ fuel'
    → children_loop fuel rest [] ≡ children_loop fuel' rest []
children_loop_fuel zero fuel' rest h h' = elim (Option-cases (read_tlv rest)) [
  | inl e ↦ children_loop-none zero rest [] e ∙ sym (children_loop-none fuel' rest [] e)
  | inr (t, e) ↦ absurd (omega (arith, shorter rest t e))
]
children_loop_fuel (suc fuel) zero rest h h' = elim (Option-cases (read_tlv rest)) [
  | inl e ↦ children_loop-none (suc fuel) rest [] e ∙ sym (children_loop-none zero rest [] e)
  | inr (t, e) ↦ absurd (omega (arith, shorter rest t e))
]
children_loop_fuel (suc fuel) (suc fuel') rest h h' = elim (Option-cases (read_tlv rest)) [
  | inl e ↦ children_loop-none (suc fuel) rest [] e ∙ sym (children_loop-none (suc fuel') rest [] e)
  | inr (t, e) ↦
      children_loop_step fuel rest t e
      ∙ ap (◌∷◌ t) (
          children_loop_fuel fuel fuel' (drop t.total_len rest) (omega (arith, shorter rest t e))
            (omega (arith, shorter rest t e)))
      ∙ sym (children_loop_step fuel' rest t e)
]

-- `children` satisfies the equation of the unbounded loop, for every input: nothing where no TLV
-- can be read, and otherwise the TLV and the children of what follows it. Its bound on the rounds
-- is never met.
pub children_lem :
    (content : Bytes)
    → children content
      ≡ elim (read_tlv content) [ none ↦ [] | some t ↦ t ∷ children (drop t.total_len content) ]
unfolding children
children_lem content = elim (Option-cases (read_tlv content)) [
  | inl e ↦ rw e (children_loop-none (length content) content [] e)
  | inr (t, e) ↦ rw e (
      children_loop_fuel (length content) (suc (length content)) content (omega arith) (omega arith)
      ∙ children_loop_step (length content) content t e
      ∙ ap (◌∷◌ t) (
          children_loop_fuel (length content) (length (drop t.total_len content))
            (drop t.total_len content) (omega (arith, shorter content t e)) (omega arith)))
]

-- The TLVs of a list, one behind the other.
abbrev pub concat_tlvs : List (ℕ × Bytes) → Bytes
concat_tlvs [] = []
concat_tlvs ((tag, content) ∷ ts) = tlv tag content ++ concat_tlvs ts

abbrev pub views : List (ℕ × Bytes) → List Tlv
views [] = []
views ((tag, content) ∷ ts) = view tag content ∷ views ts

abbrev pub AllFit : List (ℕ × Bytes) → Type 0
AllFit [] = Unit
AllFit ((tag, content) ∷ ts) = FitsReader content × AllFit ts

-- Elements whose contents are each shorter than 2^32 bytes, encoded one behind the other, are all
-- returned by `children`, in order and with nothing else.
pub children-concat_tlvs :
    (ts : List (ℕ × Bytes)) → AllFit ts → children (concat_tlvs ts) ≡ views ts
children-concat_tlvs [] h = unfold children children_loop in refl
children-concat_tlvs ((tag, content) ∷ ts) (fits, h) =
    children_lem (concat_tlvs ((tag, content) ∷ ts))
    ∙ rw (read_tlv-tlv tag content (concat_tlvs ts) fits) (
        ap (λ (rest : Bytes). view tag content ∷ children rest)
          (drop-append (tlv tag content) (concat_tlvs ts))
        ∙ ap (◌∷◌ (view tag content)) (children-concat_tlvs ts h))

-- Each content fits where all the TLVs together do.
pub FitsReader-concat_tlvs : (ts : List (ℕ × Bytes)) → FitsReader (concat_tlvs ts) → AllFit ts
FitsReader-concat_tlvs [] h = tt
FitsReader-concat_tlvs ((tag, content) ∷ ts) h =
    let n = length-append (tlv tag content) (concat_tlvs ts) in
    (FitsReader-content tag content (omega arith), FitsReader-concat_tlvs ts (omega arith))

pub FitsReader-tail :
    (tag : ℕ) (content : Bytes) (ts : List (ℕ × Bytes))
    → FitsReader (concat_tlvs ((tag, content) ∷ ts))
    → FitsReader (concat_tlvs ts)
FitsReader-tail tag content ts h = omega (arith, length-append (tlv tag content) (concat_tlvs ts))

pub children-fitting :
    (ts : List (ℕ × Bytes)) → FitsReader (concat_tlvs ts) → children (concat_tlvs ts) ≡ views ts
children-fitting ts h = children-concat_tlvs ts (FitsReader-concat_tlvs ts h)
