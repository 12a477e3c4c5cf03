-- ===== src/UnitTests/Ct.antt =====
-- The unit tests of scanner/ct.rs but the one over the network. The JSON parser is an argument, as
-- it is in `count_entries`; the tests that reach it pass if it reads their documents as they are.
use ru_ssl.Prelude.{◌≡◌, refl, Bool, ◌&&◌, [], ◌∷◌, ◌==◌, All}
use ru_ssl.Text.{Str, Bytes, codes, is_ascii_whitespace}
use ru_ssl.Ct.{Json, array, bad_json, count_entries}
use ru_ssl.UnitTests.{Passes, unwrapped_ok, is_err}

abbrev three_entries : Bytes
three_entries =
    codes
      "[{\"id\":1,\"name_value\":\"a.example.com\"},\n                        {\"id\":2,\"name_value\":\"b.example.com\"},\n                        {\"id\":3,\"name_value\":\"c.example.com\"}]"

module _ (from_slice : Bytes → Json) where
  abbrev counts_json_array_entries : Bool
  counts_json_array_entries = unwrapped_ok (count_entries from_slice three_entries) (λ n. n == 3)

  abbrev empty_body_is_zero : Bool
  empty_body_is_zero =
      unwrapped_ok (count_entries from_slice []) (λ n. n == 0)
      && unwrapped_ok (count_entries from_slice (codes "   \n  ")) (λ n. n == 0)
      && unwrapped_ok (count_entries from_slice (codes "[]")) (λ n. n == 0)

  abbrev malformed_json_errors : Bool
  malformed_json_errors = is_err (count_entries from_slice (codes "not json"))

  ct_tests :
      from_slice three_entries ≡ array 3
      → from_slice (codes "[]") ≡ array 0
      → (e : Str) → from_slice (codes "not json") ≡ bad_json e
      → All Passes (counts_json_array_entries ∷ empty_body_is_zero ∷ malformed_json_errors ∷ [])
  unfolding count_entries is_ascii_whitespace
  ct_tests three none_listed e malformed =
      (rw three refl, (rw none_listed refl, (rw malformed refl, tt)))
