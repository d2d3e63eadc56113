-- ===== src/Sink/Saving.antt =====
-- When a single-stream download succeeds, and what it leaves.
use files_downloader_golang.Common.{
  ℕ, suc, ◌+◌, ◌^◌, ◌≤◌, ◌<◌, ◌≡◌, refl, sym, ◌∙◌, ap, Bool, true, false, ◌||◌, Option, none, some,
  [], ◌∷◌, ◌++◌, ◌↔◌, ◌⊎◌, inl, inr, append-nil, append_assoc, length, length-append, arith, ltb,
  leb, if_split,
}
use files_downloader_golang.Common.Int.{ℤ, pos}
use files_downloader_golang.Common.Word.{add64, add64-pos}
use files_downloader_golang.Common.Text.{Bytes}
use files_downloader_golang.Progress.{Tracker, new_tracker, add_bytes, worker_started}
use files_downloader_golang.Worker.{
  WriteEnd, accepted, short, refused, ReadError, eof, broken, idle_timeout, Body, more, last,
  response, Response, Error, bad_request, unexpected_status, seen_error,
}
use files_downloader_golang.Sink.Pool.{SinkError, download_failed, sync_failed, open_failed}
use files_downloader_golang.Sink.Single.{
  Single, write_single, finish_single, on_written, copy_single, empty_single, close_single,
  serve_single, download_single, bytes_of, WellWritten, Whole, Saved,
}

-- How the copy loop ends that starts with `s`, of which `m` bytes are counted.
abbrev CopyEnds : Bool → Single → ℕ → Body → Option Error × Single → Type 0
CopyEnds idle s m body (some e, s') = Whole idle body → ⊥
CopyEnds idle s m body (none, s') =
    Whole idle body
    × (s'.file ≡ s.file ++ bytes_of body)
    × (s'.tracker.downloaded_bytes ≡ pos (m + length (bytes_of body)))
    × (s'.tracker.completed_chunks ≡ add64 s.tracker.completed_chunks (pos 1))

-- How a write of `bytes` ends.
abbrev WriteEnds : Single → ℕ → Bytes → WriteEnd → Option Error × Single → Type 0
WriteEnds s m bytes end (some e, s') = WellWritten bytes end → ⊥
WriteEnds s m bytes end (none, s') =
    WellWritten bytes end
    × (s'.file ≡ s.file ++ bytes)
    × (s'.tracker.downloaded_bytes ≡ pos (m + length bytes))
    × (s'.tracker.completed_chunks ≡ s.tracker.completed_chunks)

add_bytes-suc :
    (t : Tracker) (n : ℕ)
    → add_bytes t (pos (suc n))
      ≡ record t { downloaded_bytes = add64 t.downloaded_bytes (pos (suc n)) }
unfolding add_bytes
add_bytes-suc t n = ground arith

write_single-WriteEnds :
    (s : Single) (m : ℕ) (bytes : Bytes) (end : WriteEnd)
    → s.tracker.downloaded_bytes ≡ pos m
    → m + length bytes < 2 ^ 63
    → WriteEnds s m bytes end (write_single s bytes end)
unfolding write_single
write_single-WriteEnds s m [] end e h =
    (tt, sym (append-nil s.file), e ∙ ap pos (omega arith), refl)
write_single-WriteEnds s m (b ∷ bs) accepted e h =
    let sum = add64-pos m (suc (length bs)) (omega arith) in
    let counted = add_bytes-suc s.tracker (length bs) in
    (
      refl,
      refl,
      ap (λ (t : Tracker). t.downloaded_bytes) counted
          ∙ ap (λ n. add64 n (pos (suc (length bs)))) e
          ∙ sum,
      ap (λ (t : Tracker). t.completed_chunks) counted,
    )
write_single-WriteEnds s m (b ∷ bs) (short n) e h = λ w. cc
write_single-WriteEnds s m (b ∷ bs) (refused n) e h = λ w. cc

finish_single-CopyEnds :
    (idle fired : Bool) (e e' : ReadError) (s : Single) (m : ℕ) (bytes : Bytes) (end : WriteEnd)
    (o : Option Error × Single)
    → seen_error idle fired e ≡ e'
    → WriteEnds s m bytes end o
    → CopyEnds idle s m (last false bytes end fired e) (finish_single e' o)
unfolding finish_single
finish_single-CopyEnds idle fired e e' s m bytes end (some x, s') q w = λ (d, well, e). w well
finish_single-CopyEnds idle fired e eof s m bytes end (none, s') q (well, file, count, completed) =
    ((refl, well, q), file, count, ap (λ n. add64 n (pos 1)) completed)
finish_single-CopyEnds idle fired e broken s m bytes end (none, s') q w = λ (d, well, p). cc
finish_single-CopyEnds idle fired e idle_timeout s m bytes end (none, s') q w = λ (d, well, p). cc

on_written-CopyEnds :
    (idle : Bool) (s : Single) (m : ℕ) (bytes : Bytes) (end : WriteEnd) (rest : Body)
    (o : Option Error × Single)
    → ((s' : Single)
        → s'.tracker.downloaded_bytes ≡ pos (m + length bytes)
        → CopyEnds idle s' (m + length bytes) rest (copy_single idle s' rest))
    → WriteEnds s m bytes end o
    → CopyEnds idle s m (more false bytes end rest) (on_written (λ s'. copy_single idle s' rest) o)
on_written-CopyEnds idle s m bytes end rest (some e, s') h w = λ (d, well, later). w well
on_written-CopyEnds idle s m bytes end rest (none, s') h (well, file, count, completed) =
    after_write (copy_single idle s' rest) (h s' count)
  where
    after_write :
        (o : Option Error × Single)
        → CopyEnds idle s' (m + length bytes) rest o
        → CopyEnds idle s m (more false bytes end rest) o
    after_write (some e, u) no_end = λ (d, w, later). no_end later
    after_write (none, u) (later, file', count', completed') = (
      (refl, well, later),
      file' ∙ ap (λ f. f ++ bytes_of rest) file ∙ append_assoc s.file bytes (bytes_of rest),
      count' ∙ ap pos (omega (arith, length-append bytes (bytes_of rest))),
      completed' ∙ ap (λ n. add64 n (pos 1)) completed,
    )

copy_single-CopyEnds :
    (idle : Bool) (s : Single) (m : ℕ) (body : Body)
    → s.tracker.downloaded_bytes ≡ pos m
    → m + length (bytes_of body) < 2 ^ 63
    → CopyEnds idle s m body (copy_single idle s body)
unfolding copy_single
copy_single-CopyEnds idle s m (last true bytes end fired e) q h = λ (d, w, p). cc
copy_single-CopyEnds idle s m (last false bytes end fired e) q h =
    finish_single-CopyEnds idle fired e (seen_error idle fired e) s m bytes end
      (write_single s bytes end) refl (write_single-WriteEnds s m bytes end q (omega arith))
copy_single-CopyEnds idle s m (more true bytes end rest) q h = λ (d, w, p). cc
copy_single-CopyEnds idle s m (more false bytes end rest) q h =
    let sum = length-append bytes (bytes_of rest) in
    on_written-CopyEnds idle s m bytes end rest (write_single s bytes end)
      (λ s' q'. copy_single-CopyEnds idle s' (m + length bytes) rest q' (omega arith))
      (write_single-WriteEnds s m bytes end q (omega arith))

-- When a single-stream download succeeds.
abbrev pub Served : (opened makes_request idle sync_ok : Bool) → Response → Type 0
Served opened makes_request idle sync_ok r =
    (opened ≡ true)
    × (makes_request ≡ true)
    × (sync_ok ≡ true)
    × (200 ≤ r.status)
    × (r.status < 300)
    × Whole idle r.body

-- The three ways a download ends.
abbrev Ends : Bool → Bool → Bool → Bool → Response → Option SinkError × Single → Type 0
Ends opened makes_request idle sync_ok r o =
    ((o.0 ≡ none) ↔ Served opened makes_request idle sync_ok r)
    × (((e : SinkError) × (o.0 ≡ some e)) ⊎ Saved 1 (bytes_of r.body) o.1)

served_or_not :
    (idle sync_ok : Bool) (r : Response) (total : ℤ) (o : Option Error × Single)
    → 200 ≤ r.status
    → r.status < 300
    → CopyEnds idle
        (record (empty_single total) { tracker = worker_started (new_tracker total (pos 1)) })
        0
        r.body
        o
    → Ends true true idle sync_ok r (close_single sync_ok o)
unfolding add64
served_or_not idle true r total (none, s) lo hi (whole, file, count, completed) = (
  (λ e. (refl, refl, refl, lo, hi, whole), λ e. refl),
  inr (file, count ∙ ap pos (omega arith), completed),
)
served_or_not idle false r total (none, s) lo hi (whole, file, count, completed) =
    ((λ e. cc, λ (o, m, q, l, k, whole). cc), inl (sync_failed, refl))
served_or_not idle sync_ok r total (some e, s) lo hi no_end =
    ((λ e'. cc, λ (o, m, q, l, h, whole). absurd (no_end whole)), inl (download_failed e, refl))

-- A download by a single stream of an answer with fewer than 2^63 bytes succeeds exactly if the
-- file can be opened, the request made and the file synced, the status is a 2xx, and the body is
-- read to its end with each write taken, no idle timeout and the context alive. Unless it fails,
-- the file then has exactly the bytes of the body, and the tracker has counted each of them once
-- and one completed chunk.
pub download_single_exact :
    (opened makes_request idle sync_ok : Bool) (total : ℤ) (r : Response)
    → length (bytes_of r.body) < 2 ^ 63
    → Ends opened makes_request idle sync_ok r
        (download_single opened makes_request idle sync_ok total (response r))
unfolding download_single serve_single
download_single_exact false makes_request idle sync_ok total r h =
    ((λ e. cc, λ (o, m, q, l, k, whole). cc), inl (open_failed, refl))
download_single_exact true false idle sync_ok total r h =
    ((λ e. cc, λ (o, m, q, l, k, whole). cc), inl (download_failed bad_request, refl))
download_single_exact true true idle sync_ok total r h =
    let start = record (empty_single total) {
      tracker = worker_started (new_tracker total (pos 1));
    } in
    if_split (Ends true true idle sync_ok r) (ltb r.status 200 || leb 300 r.status)
      (λ bad. (
        (λ e. cc, λ (o, m, q, lo, hi, whole). absurd (ground arith)),
        inl (download_failed unexpected_status, refl),
      ))
      (λ good.
        served_or_not idle sync_ok r total (copy_single idle start r.body) (ground arith)
          (ground arith) (copy_single-CopyEnds idle start 0 r.body refl (omega arith)))
