-- ===== src/Sink/Single.antt =====
-- `downloadSingleStreamToFile` and `downloadSingleStreamToFileHandle`: one request for the whole
-- file, written from offset 0 on to a file that was cut to nothing, so that the file is the bytes
-- written. What comes from outside is data, as for the worker; a write that is short has an error.
use files_downloader_golang.Common.{
  ℕ, ◌≡◌, Bool, false, not, ◌||◌, Option, none, some, [], ◌∷◌, ◌++◌, length, take, ltb, leb,
  if◌then◌else◌,
}
use files_downloader_golang.Common.Int.{ℤ, pos}
use files_downloader_golang.Common.Text.{Bytes}
use files_downloader_golang.Progress.{
  Tracker, new_tracker, add_bytes, worker_started, worker_finished, chunk_completed,
}
use files_downloader_golang.Worker.{
  WriteEnd, accepted, short, refused, ReadError, eof, Body, more, last, Reply, transport_error,
  response, Error, context_done, bad_request, transport_failed, unexpected_status, write_failed,
  read_failed, seen_error,
}
use files_downloader_golang.Sink.Pool.{SinkError, download_failed, sync_failed, open_failed}

pub record Single : Type 0 where
  pub file : Bytes
  pub tracker : Tracker

-- The part of the loop's body under `n > 0`.
unfoldable pub write_single : Single → Bytes → WriteEnd → Option Error × Single
write_single s [] end = (none, s)
write_single s (b ∷ bs) accepted = (
  none,
  record { file = s.file ++ b ∷ bs; tracker = add_bytes s.tracker (pos (length (b ∷ bs))) },
)
write_single s (b ∷ bs) (short n) =
    (some write_failed, record s { file = s.file ++ take n (b ∷ bs) })
write_single s (b ∷ bs) (refused n) =
    (some write_failed, record s { file = s.file ++ take n (b ∷ bs) })

-- Behind a read that returned an error.
unfoldable pub finish_single : ReadError → Option Error × Single → Option Error × Single
finish_single e (some failure, s) = (some failure, s)
finish_single eof (none, s) = (none, record s { tracker = chunk_completed s.tracker })
finish_single e (none, s) = (some (read_failed e), s)

abbrev pub on_written :
    (Single → Option Error × Single) → Option Error × Single → Option Error × Single
on_written k (none, s) = k s
on_written k (some e, s) = (some e, s)

-- The copy loop.
unfoldable pub copy_single : Bool → Single → Body → Option Error × Single
copy_single idle s (last done bytes end fired e) =
    if done
    then (some context_done, s)
    else finish_single (seen_error idle fired e) (write_single s bytes end)
copy_single idle s (more done bytes end rest) =
    if done
    then (some context_done, s)
    else on_written (λ s'. copy_single idle s' rest) (write_single s bytes end)

abbrev pub empty_single : ℤ → Single
empty_single total = record { file = []; tracker = new_tracker total (pos 1) }

-- Behind the copy loop: the worker is finished, and the file is synced if the loop did not fail.
abbrev pub close_single : Bool → Option Error × Single → Option SinkError × Single
close_single sync_ok (none, s) =
    ((if sync_ok then none else some sync_failed), record s { tracker = worker_finished s.tracker })
close_single sync_ok (some e, s) =
    (some (download_failed e), record s { tracker = worker_finished s.tracker })

-- From the answer on.
unfoldable pub serve_single : Bool → Bool → ℤ → Reply → Option SinkError × Single
serve_single idle sync_ok total transport_error =
    (some (download_failed transport_failed), empty_single total)
serve_single idle sync_ok total (response r) =
    let s = empty_single total in
    let done =
      close_single sync_ok
        (copy_single idle (record s { tracker = worker_started s.tracker }) r.body) in
    if ltb r.status 200 || leb 300 r.status
    then (some (download_failed unexpected_status), s)
    else done

-- The whole function. `opened` says that the file can be opened and emptied.
unfoldable pub download_single :
    (opened makes_request idle sync_ok : Bool) → ℤ → Reply → Option SinkError × Single
download_single opened makes_request idle sync_ok total reply =
    if not opened
    then (some open_failed, empty_single total)
    else if not makes_request
    then (some (download_failed bad_request), empty_single total)
    else serve_single idle sync_ok total reply

-- The bytes that a body carries.
abbrev pub bytes_of : Body → Bytes
bytes_of (more done bytes end rest) = bytes ++ bytes_of rest
bytes_of (last done bytes end fired e) = bytes

-- A write of the bytes fails if there are any and it is cut short.
abbrev pub WellWritten : Bytes → WriteEnd → Type 0
WellWritten [] end = Unit
WellWritten (b ∷ bs) end = end ≡ accepted

-- The body comes to its end, with the context alive, and each write is taken.
abbrev pub Whole : Bool → Body → Type 0
Whole idle (more done bytes end rest) = (done ≡ false) × WellWritten bytes end × Whole idle rest
Whole idle (last done bytes end fired e) =
    (done ≡ false) × WellWritten bytes end × (seen_error idle fired e ≡ eof)

-- What a single-stream download that succeeds leaves.
abbrev pub Saved : ℕ → Bytes → Single → Type 0
Saved count body s =
    (s.file ≡ body)
    × (s.tracker.downloaded_bytes ≡ pos (length body))
    × (s.tracker.completed_chunks ≡ pos count)
