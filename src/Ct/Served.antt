-- ===== src/Ct/Served.antt =====
-- `entry_count` of scanner/ct.rs against a log server that reads its requests and answers in chunks.
use ru_ssl.Prelude.{
  ℕ, ◌+◌, ◌≡◌, refl, ap, ◌∙◌, true, false, List, [], ◌∷◌, ◌++◌, Option, none, some, all, All,
  All-append, append_assoc, arith,
}
use ru_ssl.Text.{
  Str, Bytes, codes, strip_prefix, split_once, split_once-append, is_ascii_whitespace, trim,
  is_whitespace, Lacks,
}
use ru_ssl.Error.{ok}
use ru_ssl.Async.{done}
use ru_ssl.Net.{Net}
use ru_ssl.Http.{Scheme, request_bytes}
use ru_ssl.Http.Request.{request}
use ru_ssl.Http.Answers.{Answers, InTime, request-Answers, with_timeout-InTime}
use ru_ssl.Http.ChunkedCoding.{
  Chunk, IsChunk, encode_chunked, payloads, decode_chunked-encode_chunked,
}
use ru_ssl.Http.HeaderBlock.{IsPlain, IsField, written-IsField, any_chunked, print_response}
use ru_ssl.Http.RequestHead.{Request, request_line, read_request, read_request-request_bytes}
use ru_ssl.Http.Response.{response, parse_response-print_response}
use ru_ssl.Ct.{Json, array, count_entries, search_path, read_entries, entry_count}

-- A log server: how many entries it has for each domain, and the chunks in which it sends them as an
-- array, as the JSON parser reads it.
pub record LogServer (from_slice : Bytes → Json) : Type 0 where
  pub count : Str → ℕ
  pub chunks : Str → List Chunk
  pub fields : List (Str × Str)
  pub chunks_well : (domain : Str) → All IsChunk (chunks domain)
  pub array_read : (domain : Str) → from_slice (payloads (chunks domain)) ≡ array (count domain)
  pub not_blank : (domain : Str) → all is_ascii_whitespace (payloads (chunks domain)) ≡ false
  pub fields_well : All IsField fields
  pub chunked : any_chunked fields ≡ true

-- The domain of a search, from the request line.
abbrev before_option : Option (Str × Str) → Option Str
before_option none = none
before_option (some (domain, option)) = some domain

abbrev searched : Option Str → Option Str
searched none = none
searched (some rest) = before_option (split_once rest b'&')

abbrev pub requested_domain : Str → Option Str
requested_domain line = searched (strip_prefix line (codes "GET /?q="))

module _ {from_slice : Bytes → Json} (log : LogServer from_slice) where
  open log use {count, chunks, fields, chunks_well, array_read, not_blank, fields_well, chunked}

  abbrev answer_search : Option Str → Bytes
  answer_search none = print_response 404 (codes "Not Found") [] []
  answer_search (some domain) =
      print_response 200 (codes "OK") fields (encode_chunked (chunks domain) [] [])

  abbrev answer_log : Option Request → Bytes
  answer_log none = print_response 400 (codes "Bad Request") [] []
  answer_log (some (line, (headers, body))) = answer_search (requested_domain line)

  abbrev pub serve_log : Bytes → Bytes
  serve_log raw = answer_log (read_request raw)

requested_domain-search_path :
    (domain : Str)
    → Lacks b'&' domain
    → requested_domain (request_line (codes "GET") (search_path domain)) ≡ some domain
unfolding strip_prefix
requested_domain-search_path domain lacks =
    let rest = codes "output=json" ++ codes " HTTP/1.1" in
    rw append_assoc (rw (split_once-append domain rest b'&' lacks) refl)

crt_host : IsField (codes "Host", codes "crt.sh")
unfolding trim is_whitespace
crt_host =
    written-IsField (codes "Host") (codes "crt.sh") (omega arith) (omega arith) (omega arith) refl
      refl

accepts_json : IsField (codes "Accept", codes "application/json")
unfolding trim is_whitespace
accepts_json =
    written-IsField (codes "Accept") (codes "application/json") (omega arith) (omega arith)
      (omega arith) refl refl

abbrev json_header : List (Str × Str)
json_header = (codes "Accept", codes "application/json") ∷ []

search_path-IsPlain : (domain : Str) → IsPlain domain → IsPlain (search_path domain)
search_path-IsPlain domain h = (
  (omega arith, omega arith),
  (
    (omega arith, omega arith),
    (
      (omega arith, omega arith),
      ((omega arith, omega arith), All-append _ domain (codes "&output=json") h (omega arith)),
    ),
  ),
)

module _ (net : Net) {from_slice : Bytes → Json} (log : LogServer from_slice)
    (there : Answers net Scheme.https (codes "crt.sh") 443 (serve_log log)) (domain : Str)
    (plain : IsPlain domain) (lacks : Lacks b'&' domain) where
  open log use {count, chunks, fields, chunks_well, array_read, not_blank, fields_well, chunked}
  open there use {connects, answers}

  search_served :
      serve_log log
        (request_bytes (codes "GET") (search_path domain) (codes "crt.sh") json_header none)
      ≡ print_response 200 (codes "OK") fields (encode_chunked (chunks domain) [] [])
  search_served =
      rw
        (
          read_request-request_bytes (codes "GET") (search_path domain) (codes "crt.sh") json_header
              none (omega arith) (search_path-IsPlain domain plain) crt_host (accepts_json, tt),
          requested_domain-search_path domain lacks,
        )
        refl

  search_answered :
      request net Scheme.https
        (codes "crt.sh")
        443
        (codes "GET")
        (search_path domain)
        json_header
        none
      ≡ done (connects + (answers + 0)) (ok (response 200 fields (payloads (chunks domain))))
  search_answered =
      request-Answers there (codes "GET") (search_path domain) json_header none
      ∙ rw
          (
            search_served,
            parse_response-print_response 200 (codes "OK") fields
                (encode_chunked (chunks domain) [] []) (omega arith) (omega arith) fields_well,
            chunked,
            decode_chunked-encode_chunked (chunks domain) [] [] (chunks_well domain) tt,
          )
          refl

  entries_read :
      read_entries from_slice (response 200 fields (payloads (chunks domain))) ≡ ok (count domain)
  unfolding read_entries count_entries
  entries_read = rw (not_blank domain, array_read domain) refl

  -- Against a log server at crt.sh that reads each request, takes the domain from its request
  -- line, and answers with status 200, well-formed fields that announce the chunked coding, and
  -- in well-formed chunks a text that is not blank and that the JSON parser reads as an array of
  -- as many values as the server has entries for the domain: for a plain domain with no `&` in
  -- it, under no limit, or if connecting and the answer take no longer than it, the lookup
  -- completes when the server has answered, with that number.
  pub entry_count-served :
      (secs : ℕ)
      → InTime there secs
      → entry_count net from_slice domain secs ≡ done (connects + answers) (ok (count domain))
  unfolding entry_count
  entry_count-served secs in_time =
      rw
        (
          search_answered,
          with_timeout-InTime there secs (ok (response 200 fields (payloads (chunks domain))))
              in_time,
          entries_read,
        )
        (ap (λ (t : ℕ). done t (ok (count domain))) (omega arith))
