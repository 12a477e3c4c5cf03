-- ===== src/Der/Slices/InRange.antt =====
-- No slice of the TLV reader is out of range.
use ru_ssl.Prelude.{
  ℕ, zero, suc, ◌≤◌, ◌≡◌, refl, false, List, [], ◌∷◌, ◌++◌, Option, none, some, arith, ltb, ◌==◌,
  ◌||◌, if◌then◌else◌, length, drop, Bool-cases, inl, inr,
}
use ru_ssl.Text.{Bytes}
use ru_ssl.Text.Slice.{slice-fits, slice_from-fits}
use ru_ssl.Der.{
  Tlv, checked_add, slice_to, with_lengths, read_len, read_tlv, children_loop, children,
}
use ru_ssl.Der.Slices.{
  read_len_sliced, content_sliced, view_sliced, read_tlv_sliced, next_sliced, children_loop_sliced,
  children_sliced,
}

read_len-InRange :
    (tag first : ℕ) (more : Bytes)
    → read_len_sliced first (tag ∷ first ∷ more) ≡ some (read_len first more)
unfolding read_len_sliced read_len
read_len-InRange tag first more = ground arith

content-InRange :
    (bytes : Bytes) (tag header_len end : ℕ)
    → header_len ≤ end
    → content_sliced bytes tag header_len (some end) ≡ some (slice_to bytes tag header_len end)
content-InRange bytes tag header_len end h = elim (Bool-cases (ltb (length bytes) end)) [
  | inl short ↦ rw short refl
  | inr whole ↦ rw (whole, slice-fits header_len end bytes h (ground arith)) refl
]

checked_add_le : (a b c : ℕ) → checked_add a b ≡ some c → a ≤ c
checked_add_le a b c e = ground arith

end-InRange :
    (bytes : Bytes) (tag header_len : ℕ) (o : Option ℕ)
    → ((end : ℕ) → o ≡ some end → header_len ≤ end)
    → content_sliced bytes tag header_len o
      ≡ some (elim o [ none ↦ none | some end ↦ slice_to bytes tag header_len end ])
end-InRange bytes tag header_len none h = refl
end-InRange bytes tag header_len (some end) h =
    content-InRange bytes tag header_len end (h end refl)

view-InRange :
    (bytes : Bytes) (tag : ℕ) (lengths : Option (ℕ × ℕ))
    → view_sliced bytes tag lengths ≡ some (with_lengths bytes tag lengths)
view-InRange bytes tag none = refl
view-InRange bytes tag (some (content_len, header_len)) =
    end-InRange bytes tag header_len (checked_add header_len content_len)
      (checked_add_le header_len content_len)

read_tlv-InRange : (bytes : Bytes) → read_tlv_sliced bytes ≡ some (read_tlv bytes)
unfolding read_tlv_sliced read_tlv
read_tlv-InRange [] = refl
read_tlv-InRange (tag ∷ []) = refl
read_tlv-InRange (tag ∷ first ∷ more) =
    let two : ltb (length (tag ∷ first ∷ more)) 2 ≡ false = ground arith in
    rw (two, read_len-InRange tag first more)
      (view-InRange (tag ∷ first ∷ more) tag (read_len first more))

next-InRange :
    (again : Bytes → List Tlv → Option (List Tlv)) (total : Bytes → List Tlv → List Tlv)
    (rest : Bytes) (out : List Tlv) (o : Option Tlv)
    → ((i : Bytes) (o : List Tlv) → again i o ≡ some (total i o))
    → next_sliced again rest out o
      ≡ some (elim o [
        | none ↦ out
        | some t ↦
            if t.total_len == 0 || ltb (length rest) t.total_len
            then out ++ (t ∷ [])
            else total (drop t.total_len rest) (out ++ (t ∷ []))
      ])
next-InRange again total rest out none same = refl
next-InRange again total rest out (some t) same =
    elim (Bool-cases (t.total_len == 0 || ltb (length rest) t.total_len)) [
      | inl stop ↦ rw stop refl
      | inr more ↦
          rw (more, slice_from-fits t.total_len rest (ground arith))
            (same (drop t.total_len rest) (out ++ (t ∷ [])))
    ]

children_loop-InRange :
    (fuel : ℕ) (rest : Bytes) (out : List Tlv)
    → children_loop_sliced fuel rest out ≡ some (children_loop fuel rest out)
unfolding children_loop_sliced children_loop
children_loop-InRange zero rest out = refl
children_loop-InRange (suc fuel) rest out = rw (read_tlv-InRange rest) (
    next-InRange (children_loop_sliced fuel) (children_loop fuel) rest out (read_tlv rest)
      (children_loop-InRange fuel))

-- On any bytes no slice and no index of `read_tlv` and of the walk of `children` is out of range:
-- with each of them checked, and a panic where it is not in range, the results are the same.
pub children-InRange :
    (content : Bytes)
    → (read_tlv_sliced content ≡ some (read_tlv content))
      × (children_sliced content ≡ some (children content))
unfolding children_sliced children
children-InRange content =
    (read_tlv-InRange content, children_loop-InRange (length content) content [])
