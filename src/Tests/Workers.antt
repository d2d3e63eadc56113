-- ===== src/Tests/Workers.antt =====
-- worker.go on a chunk of four bytes, whose first answer breaks off behind two of them.
use files_downloader_golang.Common.{
  if◌then◌else◌, ltb, ℕ, zero, suc, ◌+◌, ◌≡◌, refl, ◌⊎◌, inl, true, false, none, some, Option, [],
  ◌∷◌, ◌≤◌, arith, length,
}
use files_downloader_golang.Common.Int.{ℤ, pos, negsuc, pos_part}
use files_downloader_golang.Common.Word.{add64, sub64, mul64}
use files_downloader_golang.Common.Text.{Bytes, codes, text_eq}
use files_downloader_golang.Common.Split.{fields_from, split_at, parse_int, decimal}
use files_downloader_golang.Chunk.{new_chunk, size, set_downloaded, mark_completed}
use files_downloader_golang.Chunk.Methods.{Spans}
use files_downloader_golang.Progress.{new_tracker, add_bytes, sub_bytes}
use files_downloader_golang.Worker.Header.{
  parse_content_range, content_range, equal_fold, parse_content_range_roundtrip,
}
use files_downloader_golang.Worker.{
  Reply, transport_error, response, Response, Body, last, accepted, eof, broken, Round, Job,
  WorkerOptions, Error, check_response, backoff,
}
use files_downloader_golang.Worker.Attempt.{copy_body, take_reply, attempt_chunk, end_failure}
use files_downloader_golang.Worker.Retry.{
  download_chunk, start_round, run_attempt, one_round, roll_back,
}
use files_downloader_golang.Worker.Content.{HonestReply}
use files_downloader_golang.Worker.FileSink.{
  FileWriter, put_file, file_factory, write_at, Resumable, Written, download_chunk_to_file,
}
use files_downloader_golang.Worker.Buffer.{
  put_buffer, buffer_factory, Pending, Collected, download_chunk_to_buffer,
}
use files_downloader_golang.Worker.Success.{Good, download_chunk_succeeds}
use files_downloader_golang.Worker.Waiting.{Capped, download_chunk_waits}

-- The remote file has eight bytes: byte `i` is 10 + i.
abbrev content : ℕ → ℕ
content i = 10 + i

abbrev partial : Bytes → Body → Response
partial range body = record { status = 206; content_range = range; body = body }

abbrev broken_answer : Response
broken_answer = partial (codes "bytes 2-5/8") (last false (12 ∷ 13 ∷ []) accepted false broken)

abbrev rest_answer : Response
rest_answer = partial (codes "bytes 4-5/8") (last false (14 ∷ 15 ∷ []) accepted false eof)

abbrev whole_answer : Response
whole_answer = record {
  status = 200;
  content_range = [];
  body = last false (10 ∷ 11 ∷ 12 ∷ 13 ∷ []) accepted false eof;
}

-- From byte 2 on the answer breaks off behind two bytes, from byte 4 on it is complete, and from any other
-- byte on the range is ignored.
abbrev reply_from : ℕ → Reply
reply_from (suc (suc zero)) = response broken_answer
reply_from (suc (suc (suc (suc zero)))) = response rest_answer
reply_from _ = response whole_answer

abbrev round : Round
round = record {
  done_before = false;
  done_waiting = false;
  makes_writer = true;
  makes_request = true;
  reply = λ from to. reply_from (pos_part from);
}

part_start :
    (n p : ℕ) {l s l' s' : ℤ}
    → ◌≡◌ {A = Option (ℤ × ℤ × ℤ)} (some (pos n, l, s)) (some (pos p, l', s'))
    → p ≡ n
part_start n p e = cc

reply_from-HonestReply : (k r : ℕ) → HonestReply content 8 (reply_from r)
unfolding parse_content_range equal_fold fields_from split_at parse_int text_eq
reply_from-HonestReply k (suc (suc zero)) = (
  λ e. absurd (omega arith),
  λ p l s e given. rw (part_start 2 p given) ((refl, (refl, tt)), omega arith),
)
reply_from-HonestReply k (suc (suc (suc (suc zero)))) = (
  λ e. absurd (omega arith),
  λ p l s e given. rw (part_start 4 p given) ((refl, (refl, tt)), omega arith),
)
reply_from-HonestReply k _ =
    (λ e. ((refl, (refl, (refl, (refl, tt)))), omega arith), λ p l s e. absurd (omega arith))

abbrev opts : WorkerOptions
opts = record { max_retries = pos 5; retry_delay = pos 1000000000; idle_enabled = true }

abbrev file_job : Job FileWriter
file_job = record {
  chunk = new_chunk (pos 1) (pos 2) (pos 5);
  tracker = new_tracker (pos 8) (pos 2);
  waits = [];
  dest = record { disk = λ i. 0; offset = 0 };
}

abbrev buffer_job : ℤ → Job Bytes
buffer_job downloaded = record {
  chunk = record {
    index = pos 1;
    start = pos 2;
    end = pos 5;
    downloaded = downloaded;
    completed = false;
    retries = pos 0;
  };
  tracker = new_tracker (pos 8) (pos 2);
  waits = [];
  dest = [];
}

abbrev covers : {n : ℤ} → Spans (record (new_chunk (pos 1) (pos 2) (pos 5)) { downloaded = n }) 2 5
covers = record { start_eq = refl; end_eq = refl; ordered = omega arith; fits = omega arith }

abbrev file_after : Option Error × Job FileWriter
file_after = download_chunk put_file file_factory opts (λ k. round) file_job

-- The file gets all four bytes, but the tracker counts only the last two.
file_run :
    (file_after.0 ≡ none)
    × (file_after.1.dest.disk 2 ≡ 12)
    × (file_after.1.dest.disk 5 ≡ 15)
    × (file_after.1.chunk.downloaded ≡ pos 4)
    × (file_after.1.tracker.downloaded_bytes ≡ pos 2)
unfolding download_chunk one_round start_round run_attempt attempt_chunk take_reply check_response
    copy_body end_failure roll_back add64 sub64 mul64 set_downloaded mark_completed size add_bytes
    sub_bytes parse_content_range equal_fold fields_from split_at parse_int text_eq put_file
    file_factory write_at
file_run = (refl, refl, refl, refl, refl)

abbrev buffer_after : Option Error × Job Bytes
buffer_after = download_chunk put_buffer buffer_factory opts (λ k. round) (buffer_job (pos 0))

-- The reader of the stream gets only the last two bytes of the chunk.
buffer_run : (buffer_after.0 ≡ none) × (buffer_after.1.dest ≡ 14 ∷ 15 ∷ [])
unfolding download_chunk one_round start_round run_attempt attempt_chunk take_reply check_response
    copy_body end_failure roll_back add64 sub64 mul64 set_downloaded mark_completed size add_bytes
    sub_bytes parse_content_range equal_fold fields_from split_at parse_int text_eq put_buffer
    buffer_factory
buffer_run = (refl, refl)

download_chunk_to_file_example :
    ((file_after.0 ≡ none)
      × Written content 8 2 5 0 (λ i. 0) (omega arith) (omega arith) (omega arith) 0 file_after.1)
    ⊎ ((e : Error) × (file_after.0 ≡ some e)
        × (d' : ℕ) × (0 ≤ d')
        × Resumable content 8 2 5 0
            (λ i. 0)
            (omega arith)
            (omega arith)
            (omega arith)
            d'
            file_after.1)
download_chunk_to_file_example =
    download_chunk_to_file content 8 2 5 0 (λ i. 0) (omega arith) (omega arith) (omega arith) opts
      (λ k. round) 0 file_job reply_from-HonestReply
      (record {
        spans = covers;
        downloaded_eq = refl;
        within = omega arith;
        counter_eq = refl;
        right = record { filled = λ i lo hi. absurd (omega arith); safe = λ i. inl refl };
      })

pending :
    (d : ℕ)
    → d ≤ 4
    → Pending content 8 2 5 0 (omega arith) (omega arith) (omega arith) d (buffer_job (pos d))
pending d h = record { spans = covers; downloaded_eq = refl; within = h; counter_eq = refl }

download_chunk_to_buffer_example :
    (d' : ℕ) × (0 ≤ d')
    × (((buffer_after.0 ≡ none)
          × Collected content 8 2 5 0
              (omega arith)
              (omega arith)
              (omega arith)
              (λ k. round)
              d'
              buffer_after.1)
        ⊎ ((e : Error) × (buffer_after.0 ≡ some e)
            × Pending content 8 2 5 0 (omega arith) (omega arith) (omega arith) d' buffer_after.1))
download_chunk_to_buffer_example =
    download_chunk_to_buffer content 8 2 5 0 (omega arith) (omega arith) (omega arith) opts
      (λ k. round) 0 (buffer_job (pos 0)) reply_from-HonestReply (pending 0 (omega arith))

-- The first two answers get lost.
abbrev late_round : ℕ → Round
late_round k = record {
  done_before = false;
  done_waiting = false;
  makes_writer = true;
  makes_request = true;
  reply = λ from to. if ltb k 2 then transport_error else reply_from (pos_part from);
}

rest_Good : Good content 8 5 4 (reply_from 4)
unfolding parse_content_range equal_fold fields_from split_at parse_int text_eq
rest_Good = record {
  answer = rest_answer;
  reply_eq = refl;
  status_eq = refl;
  range_eq = refl;
  honest = ((refl, (refl, tt)), omega arith);
  complete = (refl, refl, refl, refl, refl);
}

download_chunk_succeeds_example :
    (download_chunk put_buffer buffer_factory opts late_round (buffer_job (pos 2))).0 ≡ none
download_chunk_succeeds_example =
    download_chunk_succeeds put_buffer buffer_factory content 8 2 5 2 0 (omega arith) (omega arith)
      (omega arith) (omega arith) opts late_round 5 2 (buffer_job (pos 2)) refl (omega arith) covers
      refl refl (λ i. record { before = refl; waiting = refl; writer = refl; request = refl })
      (λ i lo. ground arith) rest_Good

parse_content_range_roundtrip_example :
    parse_content_range (content_range 2 5 (decimal 8)) ≡ some (pos 2, pos 5, pos 8)
parse_content_range_roundtrip_example =
    parse_content_range_roundtrip 2 5 8 (omega arith) (omega arith) (omega arith)

-- With a delay of one second the product wraps behind 34 doublings, and the back-off is negative.
backoff_wraps : backoff (pos 1000000000) 34 ≡ negsuc 1266874889709551615
unfolding backoff mul64
backoff_wraps = refl

download_chunk_waits_example : Capped buffer_after.1.waits × (length buffer_after.1.waits ≤ 5)
download_chunk_waits_example =
    download_chunk_waits put_buffer buffer_factory opts (λ k. round) 5 (buffer_job (pos 0)) refl tt
