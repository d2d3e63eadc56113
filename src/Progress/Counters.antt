-- ===== src/Progress/Counters.antt =====
-- The byte counter under additions and roll-backs.
use files_downloader_golang.Common.{ℕ, ◌+◌, ◌-◌, ◌^◌, ◌<◌, ◌≡◌, arith}
use files_downloader_golang.Common.Int.{pos}
use files_downloader_golang.Common.Word.{add64, sub64, add64-pos}
use files_downloader_golang.Progress.{Tracker, add_bytes, sub_bytes}

pub add_bytes-pos :
    (t : Tracker) (m n : ℕ)
    → t.downloaded_bytes ≡ pos m
    → m + n < 2 ^ 63
    → add_bytes t (pos n) ≡ record t { downloaded_bytes = pos (m + n) }
unfolding add_bytes
add_bytes-pos t m n e h =
    let sum : add64 (pos m) (pos n) ≡ pos (m + n) = add64-pos m n h in ground arith

pub sub_bytes-pos :
    (t : Tracker) (m n : ℕ)
    → t.downloaded_bytes ≡ pos m
    → m < 2 ^ 63
    → n < 2 ^ 63
    → sub_bytes t (pos n) ≡ record t { downloaded_bytes = pos (m - n) }
unfolding sub_bytes add64 sub64
sub_bytes-pos t m n e h k = ground arith
