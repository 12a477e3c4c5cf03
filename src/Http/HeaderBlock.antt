-- ===== src/Http/HeaderBlock.antt =====
-- The header block of a response: its lines, its blank line, its status and its fields.
use ru_ssl.Prelude.{
  ℕ, ◌+◌, ◌<◌, ◌≡◌, ◌≢◌, refl, ap, ◌∙◌, Bool, false, ◌||◌, List, [], ◌∷◌, ◌++◌, Option, some, arith,
  length, length-append, append_assoc, append-nil, All, All-append,
}
use ru_ssl.Text.RoundTrip.{to_string-All, IsDecimalDigit}
use ru_ssl.Text.Utf8.{IsAscii}
use ru_ssl.Text.{
  Str, Bytes, codes, trim, split_crlf, split_crlf-Lacks, split_crlf-append, split_once,
  split_once-append, to_string, All-map, Lacks,
}
use ru_ssl.Http.{is_chunked, crlf, find_subsequence, read_line, read_lines}

-- ASCII with no carriage return.
abbrev pub IsPlain : Str → Type 0
IsPlain = All (λ c. (c < 128) × (c ≢ 13))

-- A field name has no colon, and neither part has white space around it.
pub record IsField (h : Str × Str) : Type 0 where
  pub name_plain : IsPlain h.0
  pub value_plain : IsPlain h.1
  pub name_lacks_colon : Lacks b':' h.0
  pub name_trimmed : trim h.0 ≡ h.0
  pub value_trimmed : trim h.1 ≡ h.1

pub written-IsField :
    (k v : Str) → IsPlain k → IsPlain v → Lacks b':' k → trim k ≡ k → trim v ≡ v → IsField (k, v)
written-IsField k v k_plain v_plain lacks k_trimmed v_trimmed = record {
  name_plain = k_plain;
  value_plain = v_plain;
  name_lacks_colon = lacks;
  name_trimmed = k_trimmed;
  value_trimmed = v_trimmed;
}

abbrev pub field_line : Str × Str → Str
field_line h = h.0 ++ (codes ": " ++ h.1)

abbrev pub field_lines : List (Str × Str) → List Str
field_lines [] = []
field_lines (h ∷ hs) = field_line h ∷ field_lines hs

-- Lines joined by line ends.
unfoldable pub join_lines : Str → List Str → Str
join_lines line [] = line
join_lines line (next ∷ lines) = line ++ (crlf ++ join_lines next lines)

abbrev pub status_line : ℕ → Str → Str
status_line status reason = codes "HTTP/1.1 " ++ (to_string status ++ (b' ' ∷ reason))

abbrev pub print_response : ℕ → Str → List (Str × Str) → Bytes → Bytes
print_response status reason headers body =
    join_lines (status_line status reason) (field_lines headers) ++ (crlf ++ (crlf ++ body))

abbrev pub any_chunked : List (Str × Str) → Bool
any_chunked [] = false
any_chunked ((k, v) ∷ hs) = is_chunked k v || any_chunked hs

or_swap : (a b c : Bool) → (a || (b || c)) ≡ ((b || a) || c)
or_swap a b c = ground arith

trim_space : (v : Str) → trim (b' ' ∷ v) ≡ trim v
unfolding trim
trim_space v = refl

split_once-field :
    (h : Str × Str) → IsField h → split_once (field_line h) b':' ≡ some (h.0, b' ' ∷ h.1)
split_once-field (k, v) f = split_once-append k (b' ' ∷ v) b':' f.name_lacks_colon

-- The header loop collects the fields in order, and notices any chunked coding.
pub read_lines-field_lines :
    (hs out : List (Str × Str)) (chunked : Bool)
    → All IsField hs
    → read_lines (field_lines hs) (out, chunked) ≡ (out ++ hs, any_chunked hs || chunked)
unfolding read_lines
read_lines-field_lines [] out chunked h = rw append-nil
read_lines-field_lines ((k, v) ∷ hs) out chunked (f, h) =
    ap (λ (o : Option (Str × Str)). read_lines (field_lines hs) (read_line o (out, chunked)))
      (split_once-field (k, v) f)
    ∙ rw (trim_space v, f.name_trimmed, f.value_trimmed)
        (read_lines-field_lines hs (out ++ ((k, v) ∷ [])) (is_chunked k v || chunked) h
          ∙ rw (append_assoc, or_swap (any_chunked hs) (is_chunked k v) chunked))

-- The blank line is found at the end of the head.
unfoldable pub blank : Bytes
blank = crlf ++ crlf

find-plain :
    (a s : Bytes) (i : ℕ)
    → Lacks 13 a
    → find_subsequence s blank ≡ some i
    → find_subsequence (a ++ s) blank ≡ some (length a + i)
unfolding find_subsequence blank
find-plain [] s i h e = e ∙ ap some (omega arith)
find-plain (c ∷ a) s i (hc, ha) e = ground (arith, find-plain a s i ha e)

find-line_end :
    (c : ℕ) (s : Bytes) (i : ℕ)
    → c ≢ 13
    → find_subsequence (c ∷ s) blank ≡ some i
    → find_subsequence (crlf ++ (c ∷ s)) blank ≡ some (2 + i)
unfolding find_subsequence blank
find-line_end c s i h e = ground arith

find-blank : (body : Bytes) → find_subsequence (crlf ++ (crlf ++ body)) blank ≡ some 0
unfolding find_subsequence blank
find-blank [] = refl
find-blank (c ∷ body) = refl

-- Lines that can follow another: not empty, and with no carriage return.
abbrev IsLine : Str → Type 0
IsLine [] = ⊥
IsLine (c ∷ s) = (c ≢ 13) × Lacks 13 s

join_lines-cons :
    (c : ℕ) (next : Str) (lines : List Str) → (t : Str) × (join_lines (c ∷ next) lines ≡ c ∷ t)
unfolding join_lines
join_lines-cons c next [] = (next, refl)
join_lines-cons c next (l ∷ lines) = (_, refl)

pub find-join_lines :
    (line : Str) (lines : List Str) (body : Bytes)
    → Lacks 13 line
    → All IsLine lines
    → find_subsequence (join_lines line lines ++ (crlf ++ (crlf ++ body))) blank
      ≡ some (length (join_lines line lines))
unfolding join_lines
find-join_lines line [] body h _ =
    find-plain line (crlf ++ (crlf ++ body)) 0 h (find-blank body) ∙ ap some (omega arith)
find-join_lines line ([] ∷ lines) body h (bad, _) = absurd bad
find-join_lines line ((c ∷ next) ∷ lines) body h ((hc, hn), hs) =
    let later = join_lines (c ∷ next) lines in
    let end = crlf ++ (crlf ++ body) in
    let (t, starts) = join_lines-cons c next lines in
    let found : find_subsequence (later ++ end) blank ≡ some (length later) =
      find-join_lines (c ∷ next) lines body (hc, hn) hs in
    let found' : find_subsequence (crlf ++ (later ++ end)) blank ≡ some (2 + length later) =
      rw starts (find-line_end c (t ++ end) (length (c ∷ t)) hc (rw starts at found)) in
    rw (append_assoc line (crlf ++ later) end, length-append line (crlf ++ later))
      (find-plain line (crlf ++ (later ++ end)) (2 + length later) h found' ∙ ap some (omega arith))

pub split_crlf-join_lines :
    (line : Str) (lines : List Str)
    → Lacks 13 line
    → All IsLine lines
    → split_crlf (join_lines line lines) ≡ line ∷ lines
unfolding join_lines
split_crlf-join_lines line [] h _ = split_crlf-Lacks line h
split_crlf-join_lines line ([] ∷ lines) h (bad, _) = absurd bad
split_crlf-join_lines line ((c ∷ next) ∷ lines) h (hn, hs) =
    split_crlf-append line (join_lines (c ∷ next) lines) h
    ∙ ap (◌∷◌ line) (split_crlf-join_lines (c ∷ next) lines hn hs)

pub join_lines-All :
    (P : ℕ → Type 0) (line : Str) (lines : List Str)
    → P 13 × P 10
    → All P line
    → All (All P) lines
    → All P (join_lines line lines)
unfolding join_lines
join_lines-All P line [] ends h _ = h
join_lines-All P line (next ∷ lines) ends h (hn, hs) =
    All-append P line (crlf ++ join_lines next lines) h
      (ends.0, (ends.1, join_lines-All P next lines ends hn hs))

pub IsPlain-line : (s : Str) → IsPlain s → All IsAscii s × Lacks 13 s
IsPlain-line s h = (All-map _ _ (λ c p. p.0) s h, All-map _ _ (λ c p. p.1) s h)

field_line-IsPlain : (h : Str × Str) → IsField h → IsPlain (field_line h)
field_line-IsPlain (k, v) f =
    All-append _ k (codes ": " ++ v) f.name_plain
      (((omega arith), omega arith), (((omega arith), omega arith), f.value_plain))

field_line-IsLine : (h : Str × Str) → IsField h → IsLine (field_line h)
field_line-IsLine ([], v) f =
    (omega arith, (IsPlain-line (b' ' ∷ v) (field_line-IsPlain ([], v) f).1).1)
field_line-IsLine (c ∷ k, v) f =
    (IsPlain-line (field_line (c ∷ k, v)) (field_line-IsPlain (c ∷ k, v) f)).1

pub field_lines-IsLine : (hs : List (Str × Str)) → All IsField hs → All IsLine (field_lines hs)
field_lines-IsLine [] h = tt
field_lines-IsLine (x ∷ hs) (f, h) = (field_line-IsLine x f, field_lines-IsLine hs h)

pub field_lines-IsAscii :
    (hs : List (Str × Str)) → All IsField hs → All (All IsAscii) (field_lines hs)
field_lines-IsAscii [] h = tt
field_lines-IsAscii (x ∷ hs) (f, h) =
    ((IsPlain-line (field_line x) (field_line-IsPlain x f)).0, field_lines-IsAscii hs h)

pub to_string-IsPlain : (n : ℕ) → IsPlain (to_string n)
to_string-IsPlain n =
    All-map IsDecimalDigit _ (λ c d. (omega arith, omega arith)) (to_string n) (to_string-All n)
