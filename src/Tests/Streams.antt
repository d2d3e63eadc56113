-- ===== src/Tests/Streams.antt =====
-- The prefetching reader, run on two small chunks.
use files_downloader_golang.Common.{
  ℕ, ◌+◌, ◌≤◌, ◌<◌, ◌≡◌, ◌≢◌, refl, true, false, none, some, ◌⊎◌, List, [], ◌∷◌, arith, inl, ◌++◌,
}
use files_downloader_golang.Common.Int.{pos}
use files_downloader_golang.Common.Text.{Bytes}
use files_downloader_golang.Common.Word.{add64}
use files_downloader_golang.Stream.{
  take_job, enter_window, step_phase, deliver, read_loop, ChunkResult, Stream, Next, running, Event,
  worker, read_call, start_stream, Reaches, read, starved, step, panicked, close, slot_in,
}
use files_downloader_golang.Stream.Reach.{steps, steps-Reaches}
use files_downloader_golang.Stream.Order.{joined, AllFetched}
use files_downloader_golang.Stream.Reading.{stream_in_order, stream_complete, read_ends}
use files_downloader_golang.Stream.Bounds.{prefetch_bounded, fetched_once}
use files_downloader_golang.Stream.Awake.{CanStep, stream_progress}
use files_downloader_golang.Stream.Closing.{close_panics}

abbrev letter : ℕ → ChunkResult
letter i = record { content = (i + 65) ∷ []; err = none }

abbrev state : Next → Stream
state (running s) = s
state _ = start_stream 0 0

abbrev begin : Stream
begin = start_stream 1 2

abbrev after : List Event → Stream
after es = state (steps 2 (pos 1) letter es begin)

-- The worker downloads the first chunk.
abbrev downloading : List Event
downloading = worker 0 ∷ worker 0 ∷ []

-- The first chunk has been read, and the worker holds the second.
abbrev one_read : List Event
one_read = worker 0 ∷ read_call 9 ∷ worker 0 ∷ worker 0 ∷ worker 0 ∷ []

abbrev all_read : List Event
all_read = read_call 9 ∷ worker 0 ∷ worker 0 ∷ one_read

run_downloading : Reaches 2 (pos 1) letter begin (after downloading)
unfolding start_stream step step_phase take_job enter_window add64
run_downloading = steps-Reaches 2 (pos 1) letter downloading begin _ refl

run_one_read : Reaches 2 (pos 1) letter begin (after one_read)
unfolding start_stream step step_phase take_job enter_window add64 deliver read read_loop
run_one_read = steps-Reaches 2 (pos 1) letter one_read begin _ refl

run_all_read : Reaches 2 (pos 1) letter begin (after all_read)
unfolding start_stream step step_phase take_job enter_window add64 deliver read read_loop
run_all_read = steps-Reaches 2 (pos 1) letter all_read begin _ refl

stream_in_order_example : (rest : Bytes) × ((after one_read).received ++ rest ≡ joined letter 2)
stream_in_order_example = stream_in_order 2 (pos 1) letter 1 (after one_read) run_one_read

stream_complete_example :
    ((read 2 (pos 1) letter 9 (after all_read)).1.received ≡ joined letter 2) × AllFetched letter 2
unfolding start_stream step step_phase take_job enter_window add64 deliver read read_loop
stream_complete_example =
    stream_complete 2 (pos 1) letter 1 9 (after all_read) _ run_all_read refl refl

read_ends_example : (read 2 (pos 1) letter 9 (after all_read)).0 ≢ starved
read_ends_example = read_ends 2 (pos 1) letter 1 9 (after all_read) run_all_read

prefetch_bounded_example :
    ((after downloading).current_index ≤ 0) × (0 < (after downloading).current_index + 1)
unfolding start_stream step step_phase take_job enter_window add64
prefetch_bounded_example =
    prefetch_bounded 2 1 letter (omega arith) 1 0 (after downloading) run_downloading
      (inl (0, refl))

fetched_once_example : (◌≡◌ {A = ℕ} 0 0) × (slot_in (after downloading).slots 0 ≡ none)
unfolding start_stream step step_phase take_job enter_window add64
fetched_once_example =
    fetched_once 2 1 letter (omega arith) 1 0 0 0 (after downloading) run_downloading refl refl

-- The worker has the second chunk and is asleep until the first has been read.
abbrev sleeping : List Event
sleeping = worker 0 ∷ worker 0 ∷ worker 0 ∷ worker 0 ∷ worker 0 ∷ []

run_sleeping : Reaches 2 (pos 1) letter begin (after sleeping)
unfolding start_stream step step_phase take_job enter_window add64 deliver
run_sleeping = steps-Reaches 2 (pos 1) letter sleeping begin (after sleeping) refl

worker_sleeps : (after sleeping).asleep 0 ≡ true
unfolding start_stream step step_phase take_job enter_window add64 deliver
worker_sleeps = refl

stream_progress_example :
    ((r : ChunkResult) × (slot_in (after sleeping).slots (after sleeping).current_index ≡ some r)
      × ((after sleeping).reader_asleep ≡ false))
    ⊎ ((w : ℕ) × CanStep 2 1 letter (omega arith) 1 w (after sleeping))
unfolding start_stream step step_phase take_job enter_window add64 deliver
stream_progress_example =
    stream_progress 2 1 letter (omega arith) 1 (after sleeping) (omega arith) (omega arith)
      run_sleeping refl (omega arith)

close_panics_example :
    step 2 (pos 1) letter (worker 0) (close 2 (pos 1) letter (after downloading)) ≡ panicked
unfolding start_stream step step_phase take_job enter_window add64
close_panics_example = close_panics 2 (pos 1) letter 0 0 (after downloading) refl refl
