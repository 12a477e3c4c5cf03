-- ===== src/UnitTests/Der.antt =====
-- The unit tests of scanner/der.rs.
use ru_ssl.Prelude.{refl, Bool, not, ◌&&◌, [], ◌∷◌, ◌++◌, ◌==◌, All, length, get_elem?, is_some}
use ru_ssl.Text.{str_eq}
use ru_ssl.Der.{
  push_bytes, encode_len, tlv, sequence, octet_string, integer, fold_len, read_len, read_tlv,
  children_loop, children,
}
use ru_ssl.UnitTests.{Passes, unwrapped, filled}

abbrev length_encoding : Bool
length_encoding =
    str_eq (encode_len 0) (0 ∷ [])
    && (str_eq (encode_len 127) (0x7f ∷ [])
        && (str_eq (encode_len 128) (0x81 ∷ 0x80 ∷ [])
            && str_eq (encode_len 256) (0x82 ∷ 1 ∷ 0 ∷ [])))

abbrev integer_sign_handling : Bool
integer_sign_handling =
    str_eq (integer (5 ∷ [])) (2 ∷ 1 ∷ 5 ∷ [])
    && (str_eq (integer (0x80 ∷ [])) (2 ∷ 2 ∷ 0 ∷ 0x80 ∷ [])
        && (str_eq (integer []) (2 ∷ 1 ∷ 0 ∷ [])
            && str_eq (integer (0 ∷ 0x80 ∷ [])) (2 ∷ 2 ∷ 0 ∷ 0x80 ∷ [])))

abbrev tlv_constructors : Bool
tlv_constructors =
    str_eq (octet_string (1 ∷ 2 ∷ [])) (4 ∷ 2 ∷ 1 ∷ 2 ∷ []) && str_eq (sequence []) (0x30 ∷ 0 ∷ [])

abbrev read_and_walk : Bool
read_and_walk =
    let inner = sequence (octet_string (0xaa ∷ []) ++ integer (1 ∷ [])) in
    unwrapped (read_tlv inner) (λ t.
      let kids = children t.content in
      (t.tag == 0x30)
      && ((t.total_len == length inner)
          && ((length kids == 2)
              && (unwrapped (get_elem? kids 0)
                    (λ kid. (kid.tag == 4) && str_eq kid.content (0xaa ∷ []))
                  && unwrapped (get_elem? kids 1)
                      (λ kid. (kid.tag == 2) && str_eq kid.content (1 ∷ []))))))

abbrev read_long_form_length : Bool
read_long_form_length =
    unwrapped (read_tlv (octet_string (filled 300 0x41)))
      (λ t. (t.tag == 4) && (length t.content == 300))

abbrev truncated_is_none : Bool
truncated_is_none =
    not (is_some (read_tlv (0x30 ∷ []))) && not (is_some (read_tlv (4 ∷ 5 ∷ 1 ∷ [])))

der_tests : All Passes (
    length_encoding ∷ integer_sign_handling ∷ tlv_constructors ∷ read_and_walk
    ∷ read_long_form_length ∷ truncated_is_none ∷ [])
unfolding str_eq push_bytes encode_len tlv sequence octet_string integer fold_len read_len read_tlv
    children_loop children
der_tests = (refl, (refl, (refl, (refl, (refl, (refl, tt))))))
