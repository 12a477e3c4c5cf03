-- ===== src/Tests.antt =====
-- The theorems at concrete inputs: data as the source's own tests use it.
mod Demo
mod Revocation
mod Responder
mod Site
mod Log
mod Printed
mod Scanner
mod Session
mod Report
mod Tasks
use Prim.Native.String.{String}
use ru_ssl.Prelude.{
  ℕ, ◌+◌, ◌*◌, ◌≤◌, ◌<◌, ◌≡◌, ◌≢◌, ◌⊎◌, inl, inr, ◌↔◌, refl, Bool, true, false, List, [], ◌∷◌, ◌++◌,
  Option, none, some, arith, length, take, drop, map, all,
}
use ru_ssl.Prelude.Int.{ℤ, pos, ◌≤ℤ◌, later}
use ru_ssl.Text.{
  Str, Bytes, codes, to_string, trim, is_whitespace, split_by, eq_ignore_ascii_case, split, u16_max,
  Lacks, strip_prefix,
}
use ru_ssl.Error.{Result, ok, err, ◌>>=◌, ScanError}
use ru_ssl.Der.{Tlv, tlv, read_len, read_tlv, children}
use ru_ssl.Der.RoundTrip.{view, FitsReader, read_tlv-tlv}
use ru_ssl.Der.Reader.{IsView, read_tlv-IsView}
use ru_ssl.Der.Children.{concat_tlvs, views, AllFit, children_lem, children-concat_tlvs}
use ru_ssl.Der.Integer.{EncodesInteger, integer-EncodesInteger}
use ru_ssl.Http.{find_subsequence, crlf, chunk_header, decode_chunked, parse_response}
use ru_ssl.Http.Extent.{IsResponse, parse_response-IsResponse}
use ru_ssl.Der.Bounds.{IsLength, read_len-IsLength}
use ru_ssl.Http.Slices.{parse_response_sliced}
use ru_ssl.Http.Slices.InRange.{parse_response-InRange}
use ru_ssl.Der.Slices.{read_tlv_sliced, children_sliced}
use ru_ssl.Der.Slices.InRange.{children-InRange}
use ru_ssl.Http.Search.{IsFirst, find_subsequence-IsFirst}
use ru_ssl.Http.Chunked.{round, decode_from, decode_from_lem}
use ru_ssl.Http.ChunkedCoding.{Chunk, encode_chunked, payloads, decode_chunked-encode_chunked}
use ru_ssl.Text.RoundTrip.{to_hex}
use ru_ssl.Http.Truncation.{Fails}
use ru_ssl.Http.CutResponse.{parse_response-cut}
use ru_ssl.Http.HeaderBlock.{IsField, written-IsField, join_lines, print_response}
use ru_ssl.Http.Response.{decode_body, response, parse_response-print_response}

two_octets : read_tlv (tlv 0x04 (1 ∷ 2 ∷ []) ++ (9 ∷ [])) ≡ some (view 0x04 (1 ∷ 2 ∷ []))
two_octets = read_tlv-tlv 0x04 (1 ∷ 2 ∷ []) (9 ∷ []) (omega arith)

children_step :
    children (0x04 ∷ 0x01 ∷ 0xaa ∷ 0x05 ∷ 0x00 ∷ [])
    ≡ elim (read_tlv (0x04 ∷ 0x01 ∷ 0xaa ∷ 0x05 ∷ 0x00 ∷ [])) [
      | none ↦ []
      | some t ↦ t ∷ children (drop t.total_len (0x04 ∷ 0x01 ∷ 0xaa ∷ 0x05 ∷ 0x00 ∷ []))
    ]
children_step = children_lem (0x04 ∷ 0x01 ∷ 0xaa ∷ 0x05 ∷ 0x00 ∷ [])

abbrev elements : List (ℕ × Bytes)
elements = (0x04, 0xaa ∷ []) ∷ (0x02, 0x01 ∷ []) ∷ []

two_children : children (concat_tlvs elements) ≡ views elements
two_children = children-concat_tlvs elements (omega arith, (omega arith, tt))

abbrev wiki : List Chunk
wiki =
    record { extension = []; payload = codes "Wiki" }
    ∷ record { extension = codes ";x=1"; payload = codes "pedia" }
    ∷ []

wiki_decoded : decode_chunked (encode_chunked wiki [] (codes "\r\n")) ≡ ok (payloads wiki)
wiki_decoded =
    decode_chunked-encode_chunked wiki [] (codes "\r\n")
      ((tt, omega arith, omega arith), (((refl, omega arith), omega arith, omega arith), tt)) tt

abbrev fields : List (Str × Str)
fields = (codes "Content-Length", codes "5") ∷ []

fields_IsField : IsField (codes "Content-Length", codes "5")
unfolding ru_ssl.Text.trim
fields_IsField = record {
  name_plain = omega arith;
  value_plain = omega arith;
  name_lacks_colon = omega arith;
  name_trimmed = refl;
  value_trimmed = refl;
}

hello_read :
    parse_response (print_response 200 (codes "OK") fields (codes "hello"))
    ≡ (decode_body fields (codes "hello") >>= λ content. ok (response 200 fields content))
hello_read =
    parse_response-print_response 200 (codes "OK") fields (codes "hello") (omega arith)
      (omega arith) (fields_IsField, tt)

hello_fits :
    IsResponse
      (length (print_response 200 (codes "OK") fields (codes "hello")))
      (response 200 fields (codes "hello"))
unfolding join_lines to_string eq_ignore_ascii_case
hello_fits =
    parse_response-IsResponse (print_response 200 (codes "OK") fields (codes "hello"))
      (response 200 fields (codes "hello")) (omega arith) hello_read

two_octet_form : IsLength 0x82 (1 ∷ 44 ∷ 7 ∷ []) 300 4
two_octet_form =
    read_len-IsLength 0x82 (1 ∷ 44 ∷ 7 ∷ []) 300 4 (omega arith) (omega arith)
      (unfold read_len in refl)

-- A response that breaks off inside a chunk.
cut_read :
    parse_response_sliced (codes "HTTP/1.1 200 OK\r\nTransfer-Encoding: chunked\r\n\r\n9\r\nWiki")
    ≡ some (parse_response (codes "HTTP/1.1 200 OK\r\nTransfer-Encoding: chunked\r\n\r\n9\r\nWiki"))
cut_read =
    parse_response-InRange (codes "HTTP/1.1 200 OK\r\nTransfer-Encoding: chunked\r\n\r\n9\r\nWiki")

cut_walk :
    (read_tlv_sliced (0x04 ∷ 0x82 ∷ 0x01 ∷ []) ≡ some (read_tlv (0x04 ∷ 0x82 ∷ 0x01 ∷ [])))
    × (children_sliced (0x04 ∷ 0x82 ∷ 0x01 ∷ []) ≡ some (children (0x04 ∷ 0x82 ∷ 0x01 ∷ [])))
cut_walk = children-InRange (0x04 ∷ 0x82 ∷ 0x01 ∷ [])

abbrev chunked_fields : List (Str × Str)
chunked_fields = (codes "Transfer-Encoding", codes "chunked") ∷ []

abbrev whole : Bytes
whole = print_response 200 (codes "OK") chunked_fields (encode_chunked wiki [] [])

cut_refused : Fails (parse_response (take 60 whole))
unfolding trim is_whitespace join_lines encode_chunked eq_ignore_ascii_case split split_by to_string
    to_hex
cut_refused =
    parse_response-cut 200 (codes "OK") chunked_fields wiki [] 60 (omega arith) (omega arith)
      (
        written-IsField (codes "Transfer-Encoding") (codes "chunked") (omega arith) (omega arith)
            (omega arith) refl refl,
        tt,
      )
      refl ((tt, omega arith, omega arith), (((refl, omega arith), omega arith, omega arith), tt))
      tt (omega arith)
