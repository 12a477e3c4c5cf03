-- ===== src/Http/StatusLine.antt =====
-- The status line of a response: its words, and the status that `read_status` finds in it.
use ru_ssl.Prelude.{ℕ, ◌≤◌, ◌≡◌, refl, ap, ◌∙◌, false, ◌∷◌, ◌++◌, arith, All, All-append}
use ru_ssl.Text.RoundTrip.{parse-to_string, to_string-cons, to_string-visible}
use ru_ssl.Text.{
  Str, codes, is_whitespace, split_whitespace, split_whitespace-append, to_string, u16_max,
}
use ru_ssl.Error.{ok}
use ru_ssl.Http.{read_status}
use ru_ssl.Http.HeaderBlock.{IsPlain, status_line, to_string-IsPlain}

version-visible : All (λ c. is_whitespace c ≡ false) (codes "HTTP/1.1")
unfolding is_whitespace
version-visible = ground arith

-- The status is the second word of the status line.
status_line_words :
    (status : ℕ) (reason : Str)
    → split_whitespace (status_line status reason)
      ≡ codes "HTTP/1.1" ∷ to_string status ∷ split_whitespace reason
status_line_words status reason =
    let (d, s, e) = to_string-cons status in
    let visible = to_string-visible status in
    split_whitespace-append b'H' b' ' (codes "TTP/1.1") (to_string status ++ (b' ' ∷ reason))
      version-visible (unfold is_whitespace in refl)
    ∙ ap (◌∷◌ (codes "HTTP/1.1")) (
        rw e (
          split_whitespace-append d b' ' s reason (rw e at visible) (unfold is_whitespace in refl)))

pub read_status-status_line :
    (status : ℕ) (reason : Str)
    → status ≤ u16_max
    → read_status (status_line status reason) ≡ ok status
unfolding read_status
read_status-status_line status reason fits =
    rw (status_line_words status reason, parse-to_string u16_max status fits)

pub status_line-IsPlain :
    (status : ℕ) (reason : Str) → IsPlain reason → IsPlain (status_line status reason)
status_line-IsPlain status reason h =
    All-append _ (codes "HTTP/1.1 ") (to_string status ++ (b' ' ∷ reason)) (omega arith) (
      All-append _ (to_string status) (b' ' ∷ reason) (to_string-IsPlain status)
        ((omega arith, omega arith), h))
