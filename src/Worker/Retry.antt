-- ===== src/Worker/Retry.antt =====
-- `downloadChunk`: attempts with back-off, and the roll-back of the progress of a failed one.
use files_downloader_golang.Common.{
  ℕ, zero, suc, Bool, false, not, Option, none, some, ◌∷◌, if◌then◌else◌,
}
use files_downloader_golang.Common.Int.{ℤ, pos, ltb_ℤ, pos_part}
use files_downloader_golang.Common.Word.{add64}
use files_downloader_golang.Common.Text.{Bytes}
use files_downloader_golang.Chunk.{Chunk, mark_completed}
use files_downloader_golang.Progress.{Tracker, sub_bytes, chunk_completed}
use files_downloader_golang.Worker.{
  Error, context_done, writer_failed, no_attempt, retries_exceeded, fails_fast, WorkerOptions,
  backoff, Copy, Round, Job,
}
use files_downloader_golang.Worker.Attempt.{attempt_chunk}

-- The rounds of `for attempt := 0; attempt <= opts.MaxRetries; attempt++`.
abbrev pub rounds : ℤ → ℕ
rounds max_retries = if ltb_ℤ max_retries (pos 0) then 0 else suc (pos_part max_retries)

abbrev pub give_up : Option Error → Error
give_up none = no_attempt
give_up (some e) = retries_exceeded e

-- A failed attempt takes back the bytes that it counted.
unfoldable pub roll_back : Tracker → ℤ → Tracker
roll_back t n = if ltb_ℤ (pos 0) n then sub_bytes t n else t

-- How a round ends: the loop stops with an outcome, or an error is there to go on from.
pub data RoundEnd (W : Type 0) : Type 0 where
  stop : Option Error → Job W → RoundEnd W
  again : Error → Job W → RoundEnd W

-- A round behind the first counts a retry and enters its back-off.
unfoldable pub start_round : {W : Type 0} → WorkerOptions → ℕ → Job W → Job W
start_round opts zero j = j
start_round opts (suc attempt) j = record {
  chunk = record (j.chunk) { retries = add64 j.chunk.retries (pos 1) };
  tracker = j.tracker;
  waits = backoff opts.retry_delay attempt ∷ j.waits;
  dest = j.dest;
}

abbrev pub after_success : {W : Type 0} → Job W → Copy W → Job W
after_success j s = record {
  chunk = mark_completed s.chunk;
  tracker = chunk_completed s.tracker;
  waits = j.waits;
  dest = s.dest;
}

abbrev pub after_failure : {W : Type 0} → Job W → Copy W → Job W
after_failure j s = record {
  chunk = s.chunk;
  tracker = roll_back s.tracker s.attempt_bytes;
  waits = j.waits;
  dest = s.dest;
}

-- The context is done before the round, or in the back-off that a round behind the first has.
abbrev pub done_in_wait : ℕ → Round → Bool
done_in_wait zero round = false
done_in_wait (suc attempt) round = round.done_waiting

-- `put` writes to a destination, and `factory` is the `WriterFactory`: it sets up the destination
-- for an attempt of the chunk.
module _ {W : Type 0} (put : W → Bytes → W) (factory : Chunk → W → W) where
  unfoldable pub run_attempt : WorkerOptions → Round → Job W → Option Error × Copy W
  run_attempt opts round j =
      attempt_chunk put opts.idle_enabled round.makes_request round.reply (record {
        chunk = j.chunk;
        tracker = j.tracker;
        attempt_bytes = pos 0;
        total_read = pos 0;
        dest = factory j.chunk j.dest;
      })

  abbrev pub settle : Job W → Option Error × Copy W → RoundEnd W
  settle j (none, s) = stop none (after_success j s)
  settle j (some e, s) =
      if fails_fast e then stop (some e) (after_failure j s) else again e (after_failure j s)

  unfoldable pub one_round : WorkerOptions → ℕ → Round → Job W → RoundEnd W
  one_round opts attempt round j =
      let j' = start_round opts attempt j in
      if round.done_before
      then stop (some context_done) j
      else if done_in_wait attempt round
      then stop (some context_done) j'
      else if not round.makes_writer
      then stop (some writer_failed) j'
      else settle j' (run_attempt opts round j')

  unfoldable pub download_from :
      WorkerOptions → (ℕ → Round) → ℕ → ℕ → Option Error → Job W → Option Error × Job W
  download_from opts env zero attempt last_error j = (some (give_up last_error), j)
  download_from opts env (suc left) attempt last_error j =
      elim (one_round opts attempt (env attempt) j) [
        | stop outcome j' ↦ (outcome, j')
        | again e j' ↦ download_from opts env left (suc attempt) (some e) j'
      ]

  -- `downloadChunk`; `none` is success.
  unfoldable pub download_chunk : WorkerOptions → (ℕ → Round) → Job W → Option Error × Job W
  unfolding download_from
  download_chunk opts env j = download_from opts env (rounds opts.max_retries) 0 none j
