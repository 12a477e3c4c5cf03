-- ===== src/Der/Slices.antt =====
-- `read_tlv` and `children` of scanner/der.rs with every slice and every index checked.
pub mod InRange
use ru_ssl.Prelude.{
  ℕ, zero, suc, ◌+◌, Bool, true, false, ◌||◌, List, [], ◌∷◌, ◌++◌, Option, none, some, ltb, ◌==◌,
  if◌then◌else◌, bit_and, length, get_elem?,
}
use ru_ssl.Text.{Bytes}
use ru_ssl.Text.Slice.{slice, slice_from, ◌>>=◌}
use ru_ssl.Der.{Tlv, fold_len, checked_add}

unfoldable pub read_len_sliced : ℕ → Bytes → Option (Option (ℕ × ℕ))
read_len_sliced first bytes =
    if ltb first 0x80
    then some (some (first, 2))
    else let n = bit_and first 0x7f in
      if n == 0 || ltb 4 n || ltb (length bytes) (2 + n)
      then some none
      else (do octets ← slice 2 (2 + n) bytes; some (some (fold_len octets 0, 2 + n)))

abbrev pub content_sliced : Bytes → ℕ → ℕ → Option ℕ → Option (Option Tlv)
content_sliced bytes tag header_len none = some none
content_sliced bytes tag header_len (some end) = if ltb (length bytes) end then some none else (do
  content ← slice header_len end bytes
  some (some (record { tag = tag; content = content; total_len = end })))

abbrev pub view_sliced : Bytes → ℕ → Option (ℕ × ℕ) → Option (Option Tlv)
view_sliced bytes tag none = some none
view_sliced bytes tag (some (content_len, header_len)) =
    content_sliced bytes tag header_len (checked_add header_len content_len)

unfoldable pub read_tlv_sliced : Bytes → Option (Option Tlv)
read_tlv_sliced bytes = if ltb (length bytes) 2 then some none else (do
  tag ← get_elem? bytes 0
  first ← get_elem? bytes 1
  lengths ← read_len_sliced first bytes
  view_sliced bytes tag lengths)

abbrev pub next_sliced :
    (Bytes → List Tlv → Option (List Tlv)) → Bytes → List Tlv → Option Tlv → Option (List Tlv)
next_sliced again rest out none = some out
next_sliced again rest out (some t) =
    if t.total_len == 0 || ltb (length rest) t.total_len
    then some (out ++ (t ∷ []))
    else (do behind ← slice_from t.total_len rest; again behind (out ++ (t ∷ [])))

unfoldable pub children_loop_sliced : ℕ → Bytes → List Tlv → Option (List Tlv)
children_loop_sliced zero rest out = some out
children_loop_sliced (suc fuel) rest out = do
  t ← read_tlv_sliced rest
  next_sliced (children_loop_sliced fuel) rest out t

unfoldable pub children_sliced : Bytes → Option (List Tlv)
children_sliced content = children_loop_sliced (length content) content []
