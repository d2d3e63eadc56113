-- ===== src/Tests/Sinks.antt =====
-- file_sink.go and fd_sink.go on a file of eight bytes in two chunks.
use files_downloader_golang.Common.{
  ℕ, zero, suc, ◌+◌, ◌*◌, ◌≤◌, ◌<◌, ◌≡◌, refl, ◌⊎◌, true, false, none, some, Option, List, [], ◌∷◌,
  arith, length,
}
use files_downloader_golang.Common.Int.{ℤ, pos, pos_part}
use files_downloader_golang.Common.Word.{add64, sub64, mul64}
use files_downloader_golang.Common.Text.{Bytes, codes, text_eq}
use files_downloader_golang.Common.Split.{fields_from, split_at, parse_int}
use files_downloader_golang.Chunk.{
  Chunk, new_chunk, size, set_downloaded, mark_completed, calculate_chunks, chunks_from, chunk_size,
}
use files_downloader_golang.Progress.{add_bytes, sub_bytes}
use files_downloader_golang.Probe.{FileInfo}
use files_downloader_golang.Checkpoint.{
  Checkpoint, ChunkState, new_checkpoint, sync_from_chunks, sync_states, restore_chunks,
  initial_bytes, is_resume_valid,
}
use files_downloader_golang.Worker.Header.{parse_content_range, equal_fold}
use files_downloader_golang.Worker.{
  Reply, response, last, accepted, eof, Round, WorkerOptions, check_response,
}
use files_downloader_golang.Worker.Attempt.{copy_body, take_reply, attempt_chunk, end_failure}
use files_downloader_golang.Worker.Retry.{
  download_chunk, start_round, run_attempt, one_round, roll_back,
}
use files_downloader_golang.Worker.Content.{HonestReply}
use files_downloader_golang.Worker.FileSink.{put_file, file_factory, write_at}
use files_downloader_golang.Sink.Pool.{
  Pool, PoolEvent, worker, caller_end, gone, start_pool, pending, first_tracker, count_completed,
  pool_size, end_download, next_job, load_chunk, step_stage, step_pool, outcome, last_checkpoint,
  Runs, here, by_step,
}
use files_downloader_golang.Sink.Multipart.{multipart_content, multipart_safe}
use files_downloader_golang.Sink.Sessions.{Sessions, begun, session, resume_valid, resume_content}
use files_downloader_golang.Sink.Ending.{worker_steps, pool_ends}

abbrev content : ℕ → ℕ
content i = 10 + i

abbrev partial : Bytes → Bytes → Reply
partial range bytes =
    response
      (record { status = 206; content_range = range; body = last false bytes accepted false eof })

-- Behind the other offsets the server has only a page that says so.
abbrev refusal : Reply
refusal =
    response
      (record { status = 404; content_range = []; body = last false (1 ∷ []) accepted false eof })

abbrev reply_from : ℕ → Reply
reply_from zero = partial (codes "bytes 0-3/8") (10 ∷ 11 ∷ 12 ∷ 13 ∷ [])
reply_from (suc (suc (suc (suc zero)))) = partial (codes "bytes 4-7/8") (14 ∷ 15 ∷ 16 ∷ 17 ∷ [])
reply_from _ = refusal

abbrev round : Round
round = record {
  done_before = false;
  done_waiting = false;
  makes_writer = true;
  makes_request = true;
  reply = λ from to. reply_from (pos_part from);
}

part_start :
    (n p : ℕ) {l s l' s' : ℤ}
    → ◌≡◌ {A = Option (ℤ × ℤ × ℤ)} (some (pos n, l, s)) (some (pos p, l', s'))
    → p ≡ n
part_start n p e = cc

reply_from-HonestReply : (r : ℕ) → HonestReply content 8 (reply_from r)
unfolding parse_content_range equal_fold fields_from split_at parse_int text_eq
reply_from-HonestReply zero = (
  λ e. absurd (omega arith),
  λ p l s e given. rw (part_start 0 p given) ((refl, (refl, (refl, (refl, tt)))), omega arith),
)
reply_from-HonestReply (suc (suc (suc (suc zero)))) = (
  λ e. absurd (omega arith),
  λ p l s e given. rw (part_start 4 p given) ((refl, (refl, (refl, (refl, tt)))), omega arith),
)
reply_from-HonestReply _ = (λ e. absurd (omega arith), λ p l s e. absurd (omega arith))

abbrev opts : WorkerOptions
opts = record { max_retries = pos 5; retry_delay = pos 1000000000; idle_enabled = true }

-- The pool after the events that have a step.
abbrev drive : List PoolEvent → Pool → Pool
drive [] s = s
drive (e ∷ es) s = elim (step_pool opts (λ i k. round) e s) [
  | none ↦ drive es s
  | some u ↦ drive es u
]

driven_step :
    (s t : Pool) (e : PoolEvent) (k : Pool → Pool) (o : Option Pool)
    → step_pool opts (λ i k. round) e t ≡ o
    → Runs opts (λ i k. round) s t
    → ((u : Pool) → Runs opts (λ i k. round) s u → Runs opts (λ i k. round) s (k u))
    → Runs opts (λ i k. round) s (elim o as (λ x. Pool) [ none ↦ k t | some u ↦ k u ])
driven_step s t e k none e' run h = h t run
driven_step s t e k (some u) e' run h = h u (by_step e run e')

drive-Runs :
    (es : List PoolEvent) (s t : Pool)
    → Runs opts (λ i k. round) s t
    → Runs opts (λ i k. round) s (drive es t)
drive-Runs [] s t run = run
drive-Runs (e ∷ es) s t run =
    driven_step s t e (drive es) (step_pool opts (λ i k. round) e t) refl run (drive-Runs es s)

abbrev chunks : List Chunk
chunks = new_chunk (pos 0) (pos 0) (pos 3) ∷ new_chunk (pos 1) (pos 4) (pos 7) ∷ []

divided : calculate_chunks (pos 8) (pos 4) (pos 2) ≡ some chunks
unfolding calculate_chunks chunks_from chunk_size add64 sub64
divided = refl

abbrev start : Pool
start = start_pool 2 (pos 8) chunks (λ i. 0)

abbrev both_events : List PoolEvent
both_events =
    worker 0 ∷ worker 1 ∷ worker 1 ∷ worker 0 ∷ worker 1 ∷ worker 0 ∷ worker 0 ∷ worker 1 ∷ []

complete_run :
    (outcome true (drive both_events start) ≡ none)
    × ((drive both_events start).stage 0 ≡ gone)
    × ((drive both_events start).stage 1 ≡ gone)
    × ((drive both_events start).disk 2 ≡ 12)
    × ((drive both_events start).disk 7 ≡ 17)
    × ((drive both_events start).disk 8 ≡ 0)
    × ((drive both_events start).tracker.downloaded_bytes ≡ pos 8)
unfolding start_pool pending first_tracker count_completed initial_bytes end_download next_job
    load_chunk step_stage step_pool outcome download_chunk one_round start_round run_attempt
    attempt_chunk take_reply check_response copy_body end_failure roll_back add64 sub64 mul64
    set_downloaded mark_completed size add_bytes sub_bytes parse_content_range equal_fold
    fields_from split_at parse_int text_eq put_file file_factory write_at
complete_run = (refl, refl, refl, refl, refl, refl, refl)

abbrev finished : Pool
finished = drive both_events start

finished_gone : (w : ℕ) → w < 2 → finished.stage w ≡ gone
unfolding start_pool pending first_tracker count_completed initial_bytes end_download next_job
    load_chunk step_stage step_pool outcome download_chunk one_round start_round run_attempt
    attempt_chunk take_reply check_response copy_body end_failure roll_back add64 sub64 mul64
    set_downloaded mark_completed size add_bytes sub_bytes parse_content_range equal_fold
    fields_from split_at parse_int text_eq put_file file_factory write_at
finished_gone zero lt = refl
finished_gone (suc zero) lt = refl
finished_gone (suc (suc w)) lt = absurd (omega arith)

two_workers : pool_size (pos 2) (length chunks) ≡ pos 2
unfolding pool_size
two_workers = refl

multipart_content_example : finished.disk 7 ≡ content 7
multipart_content_example =
    multipart_content content (λ i. 0) 8 (pos 4) (pos 2) chunks 2 opts (λ i k. round) finished true
      7 (omega arith) (omega arith) (ground arith) divided two_workers
      (λ i k r e. reply_from-HonestReply r) (drive-Runs both_events start start here) finished_gone
      complete_run.0 (omega arith)

-- One worker has a chunk when the caller's context ends, the other has finished its own.
abbrev stopped_events : List PoolEvent
stopped_events = worker 0 ∷ worker 0 ∷ worker 1 ∷ worker 0 ∷ caller_end ∷ worker 1 ∷ worker 0 ∷ []

abbrev stopped : Pool
stopped = drive stopped_events start

stopped_gone : (w : ℕ) → w < 2 → stopped.stage w ≡ gone
unfolding start_pool pending first_tracker count_completed initial_bytes end_download next_job
    load_chunk step_stage step_pool outcome download_chunk one_round start_round run_attempt
    attempt_chunk take_reply check_response copy_body end_failure roll_back add64 sub64 mul64
    set_downloaded mark_completed size add_bytes sub_bytes parse_content_range equal_fold
    fields_from split_at parse_int text_eq put_file file_factory write_at
stopped_gone zero lt = refl
stopped_gone (suc zero) lt = refl
stopped_gone (suc (suc w)) lt = absurd (omega arith)

multipart_safe_example :
    ((stopped.disk 1 ≡ 0) ⊎ (stopped.disk 1 ≡ content 1))
    × (m : ℕ) × (stopped.tracker.downloaded_bytes ≡ pos m)
    × (m ≤ 8)
multipart_safe_example =
    multipart_safe content (λ i. 0) 8 (pos 4) (pos 2) chunks 2 opts (λ i k. round) stopped 1
      (omega arith) (omega arith) (ground arith) divided (λ i k r e. reply_from-HonestReply r)
      (drive-Runs stopped_events start start here) stopped_gone

pool_ends_example :
    (worker_steps opts (λ i k. round) (drive-Runs both_events start start here)
      ≤ 3 * length (pending 0 chunks) + 2)
    × ((w : ℕ)
        → (finished.stage w ≡ gone)
          ⊎ ((u : Pool) × (step_pool opts (λ i k. round) (worker w) finished ≡ some u)))
pool_ends_example =
    pool_ends opts (λ i k. round) 2 (pos 8) chunks (λ i. 0) finished
      (drive-Runs both_events start start here)

abbrev info : FileInfo
info = record {
  url = codes "u";
  final_url = codes "u";
  filename = codes "f";
  content_length = pos 8;
  accept_ranges = true;
  etag = codes "e";
  last_modified = none;
  content_type = [];
  status_code = pos 206;
}

abbrev first_checkpoint : Checkpoint
first_checkpoint = new_checkpoint info chunks (pos 4)

abbrev stopped_states : List (Option ChunkState)
stopped_states =
    some
      (record { index = pos 0; start = pos 0; end = pos 3; downloaded = pos 4; completed = true })
    ∷ some (record {
      index = pos 1;
      start = pos 4;
      end = pos 7;
      downloaded = pos 0;
      completed = false;
    })
    ∷ []

abbrev stopped_checkpoint : Checkpoint
stopped_checkpoint = record first_checkpoint { completed_size = pos 4; chunks = stopped_states }

first_restores : restore_chunks first_checkpoint.chunks ≡ some chunks
unfolding new_checkpoint restore_chunks
first_restores = refl

stops : last_checkpoint first_checkpoint stopped ≡ some stopped_checkpoint
unfolding start_pool pending first_tracker count_completed initial_bytes end_download next_job
    load_chunk step_stage step_pool outcome download_chunk one_round start_round run_attempt
    attempt_chunk take_reply check_response copy_body end_failure roll_back add64 sub64 mul64
    set_downloaded mark_completed size add_bytes sub_bytes parse_content_range equal_fold
    fields_from split_at parse_int text_eq put_file file_factory write_at last_checkpoint
    sync_from_chunks sync_states new_checkpoint
stops = refl

one_session :
    Sessions opts
      (pos 2)
      8
      (λ n i k. round)
      first_checkpoint
      (λ i. 0)
      1
      stopped_checkpoint
      stopped.disk
one_session =
    session chunks 2 stopped begun first_restores two_workers
      (drive-Runs stopped_events start start here) stopped_gone stops

resume_valid_example :
    (is_resume_valid stopped_checkpoint (some info) ≡ true)
    × (cs : List Chunk) × (restore_chunks stopped_checkpoint.chunks ≡ some cs)
resume_valid_example =
    resume_valid content (λ i. 0) 8 info (pos 4) (pos 2) chunks opts (λ n i k. round) 1
      stopped_checkpoint stopped.disk (omega arith) (omega arith) (ground arith) refl refl divided
      (λ n i k r e. reply_from-HonestReply r) one_session

abbrev rest : List Chunk
rest =
    record (new_chunk (pos 0) (pos 0) (pos 3)) { downloaded = pos 4; completed = true }
    ∷ new_chunk (pos 1) (pos 4) (pos 7)
    ∷ []

abbrev again : Pool
again = start_pool 2 (pos 8) rest stopped.disk

abbrev again_events : List PoolEvent
again_events = worker 1 ∷ worker 0 ∷ worker 1 ∷ worker 1 ∷ worker 1 ∷ []

abbrev resumed : Pool
resumed = drive again_events again

stopped_restores : restore_chunks stopped_checkpoint.chunks ≡ some rest
unfolding restore_chunks
stopped_restores = refl

two_workers_again : pool_size (pos 2) (length rest) ≡ pos 2
unfolding pool_size
two_workers_again = refl

resumed_run : (w : ℕ) → w < 2 → (resumed.stage w ≡ gone) × (outcome true resumed ≡ none)
unfolding start_pool pending first_tracker count_completed initial_bytes end_download next_job
    load_chunk step_stage step_pool outcome download_chunk one_round start_round run_attempt
    attempt_chunk take_reply check_response copy_body end_failure roll_back add64 sub64 mul64
    set_downloaded mark_completed size add_bytes sub_bytes parse_content_range equal_fold
    fields_from split_at parse_int text_eq put_file file_factory write_at
resumed_run zero lt = (refl, refl)
resumed_run (suc zero) lt = (refl, refl)
resumed_run (suc (suc w)) lt = absurd (omega arith)

resume_content_example : resumed.disk 2 ≡ content 2
resume_content_example =
    resume_content content (λ i. 0) 8 info (pos 4) (pos 2) chunks opts (λ n i k. round) 1
      stopped_checkpoint stopped.disk rest 2 resumed 2 (omega arith) (omega arith) (ground arith)
      refl refl divided (λ n i k r e. reply_from-HonestReply r) one_session stopped_restores
      two_workers_again (drive-Runs again_events again again here) (λ w lt. (resumed_run w lt).0)
      (resumed_run 0 (omega arith)).1 (omega arith)
