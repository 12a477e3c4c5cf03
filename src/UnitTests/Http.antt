-- ===== src/UnitTests/Http.antt =====
-- The unit tests of scanner/http.rs.
use ru_ssl.Prelude.{refl, Bool, ◌&&◌, [], ◌∷◌, ◌==◌, All, is_empty}
use ru_ssl.Text.Utf8.{from_utf8, from_utf8_lossy}
use ru_ssl.Text.{
  Bytes, codes, str_eq, split_crlf, split_once, split, split_by, is_whitespace, split_whitespace,
  trim, eq_ignore_ascii_case, from_str_radix,
}
use ru_ssl.Http.{
  parse_response, read_head, read_status, read_lines, decode_chunked, decode_loop, chunk_header,
  chunk_size, find_subsequence,
}
use ru_ssl.UnitTests.{Passes, unwrapped_ok}

abbrev parses_content_length_body : Bool
parses_content_length_body =
    let raw = codes "HTTP/1.1 200 OK\r\nContent-Length: 5\r\nConnection: close\r\n\r\nhello" in
    unwrapped_ok (parse_response raw)
      (λ resp. (resp.status == 200) && str_eq resp.body (codes "hello"))

abbrev wikipedia : Bytes
wikipedia =
    codes
      "HTTP/1.1 200 OK\r\nTransfer-Encoding: chunked\r\n\r\n4\r\nWiki\r\n5\r\npedia\r\n0\r\n\r\n"

abbrev decodes_chunked_body : Bool
decodes_chunked_body =
    unwrapped_ok (parse_response wikipedia)
      (λ resp. (resp.status == 200) && str_eq resp.body (codes "Wikipedia"))

abbrev surfaces_non_200_status : Bool
surfaces_non_200_status =
    let raw = codes "HTTP/1.1 404 Not Found\r\nContent-Length: 0\r\n\r\n" in
    unwrapped_ok (parse_response raw) (λ resp. (resp.status == 404) && is_empty resp.body)

http_tests :
    All Passes (parses_content_length_body ∷ decodes_chunked_body ∷ surfaces_non_200_status ∷ [])
unfolding str_eq parse_response read_head read_status read_lines decode_chunked decode_loop
    chunk_header chunk_size find_subsequence from_utf8 from_utf8_lossy split_crlf split_once split
    split_by split_whitespace trim is_whitespace eq_ignore_ascii_case from_str_radix
http_tests = (refl, (refl, (refl, tt)))
