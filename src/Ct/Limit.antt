-- ===== src/Ct/Limit.antt =====
-- `entry_count` of scanner/ct.rs under the time limit.
use ru_ssl.Prelude.{ℕ, ◌*◌, ◌<◌}
use ru_ssl.Text.{Str, Bytes}
use ru_ssl.Async.{CompletesWithin}
use ru_ssl.Async.Within.{within}
use ru_ssl.Net.{Net}
use ru_ssl.Ct.{Json, entry_count}

module _ (net : Net) (from_slice : Bytes → Json) (domain : Str) (secs : ℕ) where
  -- Under a positive time limit the lookup at crt.sh completes within the limit, whatever the
  -- network and the JSON parser do.
  pub entry_count-CompletesWithin :
      0 < secs → CompletesWithin (secs * 1000) (entry_count net from_slice domain secs)
  unfolding entry_count
  entry_count-CompletesWithin limited = search within
