-- ===== src/Ct.antt =====
-- scanner/ct.rs: the lookup at crt.sh. The JSON parser is serde_json's, and an argument.
pub mod Limit
pub mod Served
use ru_ssl.Prelude.{
  ℕ, Bool, not, List, [], ◌∷◌, ◌++◌, Option, none, ◌==◌, if◌then◌else◌, all, ◌≡◌, ◌≤◌, ◌<◌, ◌*◌,
  arith, ◌≢◌, refl, true,
}
use ru_ssl.Text.{Str, Bytes, codes, is_ascii_whitespace, to_string}
use ru_ssl.Error.{ScanError, Result, ok, err}
use ru_ssl.Async.{Future, now, ◌>>=◌, with_timeout}
use ru_ssl.Net.{Net}
use ru_ssl.Http.{Scheme, HttpResponse}
use ru_ssl.Http.Request.{request}

-- `serde_json::from_slice::<Vec<Value>>`: the number of values, or the message of the error.
pub data Json : Type 0 where
  array : ℕ → Json
  bad_json : Str → Json

abbrev counted : Json → Result ℕ
counted (array n) = ok n
counted (bad_json e) = err (ScanError.json e)

unfoldable pub count_entries : (Bytes → Json) → Bytes → Result ℕ
count_entries from_slice body =
    if all is_ascii_whitespace body then ok 0 else counted (from_slice body)

abbrev pub search_path : Str → Str
search_path domain = codes "/?q=" ++ (domain ++ codes "&output=json")

-- What the answer says: only status 200 is counted.
unfoldable pub read_entries : (Bytes → Json) → HttpResponse → Result ℕ
read_entries from_slice response =
    if not (response.status == 200)
    then err (ScanError.http (codes "crt.sh returned HTTP " ++ to_string response.status))
    else count_entries from_slice response.body

unfoldable pub entry_count : Net → (Bytes → Json) → Str → ℕ → Future ℕ
entry_count net from_slice domain timeout_secs = do
  response ← with_timeout timeout_secs (
      request net Scheme.https (codes "crt.sh") 443 (codes "GET") (search_path domain)
        ((codes "Accept", codes "application/json") ∷ []) none)
  now (read_entries from_slice response)
