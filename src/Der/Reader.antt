-- ===== src/Der/Reader.antt =====
-- What a successful read says about the input, whoever wrote it.
use ru_ssl.Prelude.{
  ℕ, zero, suc, ◌+◌, ◌-◌, ◌≤◌, ◌≡◌, refl, sym, ap, ◌∙◌, [], ◌∷◌, ◌++◌, none, some, arith, length,
  take, drop, length-append, length-take, length-drop, head?, take-append-drop, Option-cases, inl,
  inr,
}
use ru_ssl.Der.{Tlv, read_len, read_tlv}
use ru_ssl.Text.{Bytes}

head?-take : (h b : ℕ) (s : Bytes) → 1 ≤ h → head? (take h (b ∷ s)) ≡ some b
head?-take zero b s lo = absurd (omega arith)
head?-take (suc h) b s lo = refl

pub read_len_header :
    (first : ℕ) (more : Bytes) {l h : ℕ}
    → read_len first more ≡ some (l, h)
    → (2 ≤ h) × (h ≤ 6) × (h ≤ 2 + length more)
unfolding read_len
read_len_header first more e = ground arith

-- The view lies in the input behind a header of two to six bytes, which its tag opens.
pub record IsView (input : Bytes) (t : Tlv) : Type 0 where
  pub header : Bytes
  pub rest : Bytes
  pub splits : input ≡ header ++ (t.content ++ rest)
  pub tag_first : head? header ≡ some t.tag
  pub header_min : 2 ≤ length header
  pub header_max : length header ≤ 6
  pub covers : t.total_len ≡ length header + length t.content

slice_eq : (h l : ℕ) (input : Bytes) → take (h + l - h) (drop h input) ≡ take l (drop h input)
slice_eq h l input = ap (λ (k : ℕ). take k (drop h input)) (omega arith)

read_tlv_fields :
    (tag first : ℕ) (more : Bytes) (l h : ℕ) (t : Tlv)
    → read_len first more ≡ some (l, h)
    → read_tlv (tag ∷ first ∷ more) ≡ some t
    → (t.tag ≡ tag)
      × (t.total_len ≡ h + l)
      × (t.content ≡ take l (drop h (tag ∷ first ∷ more)))
      × (h + l ≤ length (tag ∷ first ∷ more))
unfolding read_tlv
read_tlv_fields tag first more l h t r e = ground (arith, slice_eq h l (tag ∷ first ∷ more))

read_tlv-some :
    (tag first : ℕ) (more : Bytes) (l h : ℕ) (t : Tlv)
    → read_len first more ≡ some (l, h)
    → read_tlv (tag ∷ first ∷ more) ≡ some t
    → IsView (tag ∷ first ∷ more) t
read_tlv-some tag first more l h t r e =
    let input = tag ∷ first ∷ more in
    let (tag_eq, total, content, fits) = read_tlv_fields tag first more l h t r e in
    let (lo, hi, inside) = read_len_header first more r in
    let head_len : length (take h input) ≡ h = omega (arith, length-take h input) in
    let body_len : length t.content ≡ l =
      ap length content ∙ omega (arith, length-take l (drop h input), length-drop h input) in
    record {
      header = take h input;
      rest = drop l (drop h input);
      splits = rw content (rw (take-append-drop l (drop h input)) (sym (take-append-drop h input)));
      tag_first = head?-take h tag (first ∷ more) (omega arith) ∙ ap some (sym tag_eq);
      header_min = omega arith;
      header_max = omega arith;
      covers = omega arith;
    }

read_tlv-none :
    (tag first : ℕ) (more : Bytes)
    → read_len first more ≡ none
    → read_tlv (tag ∷ first ∷ more) ≡ none
unfolding read_tlv
read_tlv-none tag first more r = rw r

-- A successful `read_tlv` is a view of its input: a header of two to six bytes that begins with
-- the tag, then the content, then the rest, with a total size that covers exactly header and
-- content.
pub read_tlv-IsView : (input : Bytes) (t : Tlv) → read_tlv input ≡ some t → IsView input t
read_tlv-IsView [] t e = unfold read_tlv in cc
read_tlv-IsView (tag ∷ []) t e = unfold read_tlv in cc
read_tlv-IsView (tag ∷ first ∷ more) t e = elim (Option-cases (read_len first more)) [
  | inl bad ↦ cc (read_tlv-none tag first more bad)
  | inr ((l, h), r) ↦ read_tlv-some tag first more l h t r e
]

-- So a view moves the reader on by two bytes at least, and stays inside the input.
pub total_len_bounds :
    (input : Bytes) (t : Tlv)
    → read_tlv input ≡ some t
    → (2 ≤ t.total_len) × (t.total_len ≤ length input)
total_len_bounds input t e =
    let v = read_tlv-IsView input t e in
    let n : length input ≡ length v.header + length (t.content ++ v.rest) =
      ap length v.splits ∙ length-append v.header (t.content ++ v.rest) in
    (
      omega (arith, v.covers, v.header_min),
      omega (arith, v.covers, n, length-append t.content v.rest),
    )
