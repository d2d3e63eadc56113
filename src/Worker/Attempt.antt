-- ===== src/Worker/Attempt.antt =====
-- `attemptDownloadChunk`: one request, the checks of its answer, and the copying of its body.
use files_downloader_golang.Common.{
  ℕ, Bool, true, false, not, ◌||◌, Option, none, some, [], ◌∷◌, take, length, if◌then◌else◌,
}
use files_downloader_golang.Common.Int.{ℤ, pos, ltb_ℤ, eqb_ℤ}
use files_downloader_golang.Common.Word.{add64, sub64}
use files_downloader_golang.Common.Text.{Bytes}
use files_downloader_golang.Chunk.{set_downloaded}
use files_downloader_golang.Progress.{add_bytes}
use files_downloader_golang.Worker.{
  WriteEnd, accepted, short, refused, ReadError, eof, Body, more, last, Reply, transport_error,
  response, Error, context_done, bad_request, transport_failed, invalid_range, write_failed,
  short_write, read_failed, size_mismatch, seen_error, check_response, Copy,
}

abbrev is_eof : ReadError → Bool
is_eof eof = true
is_eof _ = false

-- The test of a read's error, and the length check behind the loop.
unfoldable pub end_failure : ℤ → ReadError → ℤ → Option Error
end_failure expected e total_read =
    if is_eof e || eqb_ℤ total_read expected
    then if eqb_ℤ total_read expected then none else some size_mismatch
    else some (read_failed e)

-- `put` writes bytes to the destination.
module _ {W : Type 0} (put : W → Bytes → W) where
  -- The first bytes reached the destination, and nothing was counted.
  abbrev pub partly : Copy W → ℕ → Bytes → Copy W
  partly s n bytes = record s { dest = put s.dest (take n bytes) }

  -- All bytes were written: count them.
  unfoldable pub counted : ℤ → Copy W → Bytes → Copy W
  counted from s bytes =
      let n = pos (length bytes) in
      let read = add64 s.total_read n in
      record {
        chunk = set_downloaded s.chunk (sub64 (add64 read from) s.chunk.start);
        tracker = add_bytes s.tracker n;
        attempt_bytes = add64 s.attempt_bytes n;
        total_read = read;
        dest = put s.dest bytes;
      }

  -- The part of the loop's body under `n > 0`.
  unfoldable pub take_bytes : ℤ → Copy W → Bytes → WriteEnd → Option Error × Copy W
  unfolding counted
  take_bytes from s [] end = (none, s)
  take_bytes from s (b ∷ bs) accepted = (none, counted from s (b ∷ bs))
  take_bytes from s (b ∷ bs) (short n) = (some short_write, partly s n (b ∷ bs))
  take_bytes from s (b ∷ bs) (refused n) = (some write_failed, partly s n (b ∷ bs))

  -- Behind a read that returned an error.
  abbrev pub finish : ℤ → ReadError → Option Error × Copy W → Option Error × Copy W
  finish expected e (some failure, s) = (some failure, s)
  finish expected e (none, s) = (end_failure expected e s.total_read, s)

  -- A round of the loop ends it by an error, or goes on.
  abbrev pub on_success :
      (Copy W → Option Error × Copy W) → Option Error × Copy W → Option Error × Copy W
  on_success k (none, s) = k s
  on_success k (some e, s) = (some e, s)

  -- The copy loop.
  unfoldable pub copy_body : ℤ → ℤ → Bool → Copy W → Body → Option Error × Copy W
  unfolding take_bytes
  copy_body from expected idle s (last done bytes end fired e) =
      if done
      then (some context_done, s)
      else finish expected (seen_error idle fired e) (take_bytes from s bytes end)
  copy_body from expected idle s (more done bytes end rest) =
      if done
      then (some context_done, s)
      else on_success (λ s'. copy_body from expected idle s' rest) (take_bytes from s bytes end)

  -- `attemptDownloadChunk` from the answer on.
  unfoldable pub take_reply : ℤ → ℤ → Bool → Copy W → Reply → Option Error × Copy W
  take_reply from expected idle s transport_error = (some transport_failed, s)
  take_reply from expected idle s (response r) = elim (check_response from s.chunk.end r) [
    | some e ↦ (some e, s)
    | none ↦ copy_body from expected idle s r.body
  ]

  -- `attemptDownloadChunk`
  unfoldable pub attempt_chunk : Bool → Bool → (ℤ → ℤ → Reply) → Copy W → Option Error × Copy W
  attempt_chunk idle makes_request reply s =
      let from = add64 s.chunk.start s.chunk.downloaded in
      let expected = add64 (sub64 s.chunk.end from) (pos 1) in
      if not makes_request
      then (some bad_request, s)
      else if ltb_ℤ from s.chunk.start || ltb_ℤ s.chunk.end from
      then (some invalid_range, s)
      else take_reply from expected idle s (reply from s.chunk.end)
