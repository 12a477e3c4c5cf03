-- ===== src/Tests/Log.antt =====
-- A log server that has two entries for every domain, and sends them in two chunks.
use ru_ssl.Prelude.{◌+◌, ◌≡◌, inr, refl, [], ◌∷◌, List, arith, if◌then◌else◌}
use ru_ssl.Text.{
  Bytes, codes, str_eq, trim, is_whitespace, is_ascii_whitespace, eq_ignore_ascii_case, split,
  split_by,
}
use ru_ssl.Error.{ok}
use ru_ssl.Async.{done}
use ru_ssl.Net.{Net}
use ru_ssl.Tests.Demo.{quiet_net}
use ru_ssl.Http.{Scheme}
use ru_ssl.Http.Request.{send}
use ru_ssl.Http.Answers.{Answers}
use ru_ssl.Http.ChunkedCoding.{Chunk}
use ru_ssl.Http.HeaderBlock.{IsField, written-IsField}
use ru_ssl.Ct.{Json, array, bad_json, entry_count}
use ru_ssl.Ct.Served.{LogServer, serve_log, entry_count-served}

abbrev two_values : Bytes → Json
two_values bytes = if str_eq bytes (codes "[{},{}]") then array 2 else bad_json (codes "other")

abbrev two_chunks : List Chunk
two_chunks =
    record { extension = []; payload = codes "[{}," }
    ∷ record { extension = []; payload = codes "{}]" }
    ∷ []

coding_header : IsField (codes "Transfer-Encoding", codes "chunked")
unfolding trim is_whitespace
coding_header =
    written-IsField (codes "Transfer-Encoding") (codes "chunked") (omega arith) (omega arith)
      (omega arith) refl refl

abbrev two_entries : LogServer two_values
unfolding str_eq is_ascii_whitespace eq_ignore_ascii_case split split_by trim is_whitespace
two_entries = record {
  count = λ domain. 2;
  chunks = λ domain. two_chunks;
  fields = (codes "Transfer-Encoding", codes "chunked") ∷ [];
  chunks_well = λ domain. ((tt, omega arith, omega arith), ((tt, omega arith, omega arith), tt));
  array_read = λ domain. refl;
  not_blank = λ domain. refl;
  fields_well = (coding_header, tt);
  chunked = refl;
}

abbrev log_net : Net
log_net = record quiet_net { tls_exchange = λ tls req. done 30 (ok (serve_log two_entries req)) }

abbrev log_answers : Answers log_net Scheme.https (codes "crt.sh") 443 (serve_log two_entries)
unfolding send
log_answers = record {
  tcp = tt;
  connects = 5;
  answers = 35;
  connected = refl;
  answered = λ req. refl;
}

entries_counted : entry_count log_net two_values (codes "example.com") 10 ≡ done (5 + 35) (ok 2)
unfolding log_answers two_entries
entries_counted =
    entry_count-served log_net two_entries log_answers (codes "example.com") (omega arith)
      (omega arith) 10 (inr (omega arith))
