-- ===== src/Stream.antt =====
-- pkg/engine/stream_sink.go: the prefetching stream reader, its workers and the reader's loop.
-- A step is what one goroutine does between two points at which others can get in: a critical
-- section under `slotsMu`, a receive from the job channel, or the cancellation by a failed worker.
-- `readyCond.Wait` puts a goroutine to sleep until the next `Broadcast`. One goroutine reads. A chunk stands for its index, which `CalculateChunks` makes its position.
pub mod Reach
pub mod Order
pub mod Reading
pub mod Window
pub mod Bounds
pub mod Liveness
pub mod Waking
pub mod Awake
pub mod Closing
use files_downloader_golang.Common.{
  ℕ, zero, suc, ◌+◌, ◌-◌, Bool, true, false, ◌||◌, Option, none, some, List, [], ◌∷◌, ◌++◌, take,
  drop, length, ◌==◌, ◌≡◌, ltb, leb, if◌then◌else◌,
}
use files_downloader_golang.Common.Int.{ℤ, pos, leb_ℤ, ltb_ℤ, pos_part}
use files_downloader_golang.Common.Word.{add64}
use files_downloader_golang.Common.Text.{Bytes}
use files_downloader_golang.Chunk.{Chunk, default_concurrency}
use files_downloader_golang.Progress.{Tracker}
use files_downloader_golang.Worker.{Error, Round, WorkerOptions}
use files_downloader_golang.Worker.Retry.{download_chunk}
use files_downloader_golang.Worker.Buffer.{put_buffer, buffer_factory}

pub record ChunkResult : Type 0 where
  pub content : Bytes
  pub err : Option Error

-- A worker's download of a chunk: the bytes of the last attempt's buffer, and the error.
unfoldable pub fetch_chunk : WorkerOptions → (ℕ → Round) → Tracker → Chunk → ChunkResult
fetch_chunk opts env tracker chunk =
    let (failure, j) =
      download_chunk put_buffer buffer_factory opts env
        (record { chunk = chunk; tracker = tracker; waits = []; dest = [] }) in
    record { content = j.dest; err = failure }

-- The number of workers for `count` chunks, and the prefetch window.
unfoldable pub worker_count : ℤ → ℕ → ℤ
worker_count concurrency count =
    let least = if ltb_ℤ (pos count) concurrency then pos count else concurrency in
    if leb_ℤ least (pos 0) then default_concurrency else least

unfoldable pub prefetch_window : ℤ → ℤ
prefetch_window stream_prefetch = if leb_ℤ stream_prefetch (pos 0) then pos 4 else stream_prefetch

-- Where a worker is: at the channel, with a chunk and waiting for the window, downloading it,
-- before its `cancel` behind a failed download, or gone.
pub data Phase : Type 0 where
  idle : Phase
  holding fetching : ℕ → Phase
  failing finished : Phase

-- `chunkSlots`, or nil.
abbrev pub Slots : Type 0
Slots = Option (ℕ → Option ChunkResult)

abbrev pub slot_in : Slots → ℕ → Option ChunkResult
slot_in none i = none
slot_in (some slots) i = slots i

-- `delete`
abbrev pub free_slot : Slots → ℕ → Slots
free_slot none i = none
free_slot (some slots) i = some (λ k. if k == i then none else slots k)

-- The reader's state. `slots` is `none` once `Close` has set the map to nil; `cancelled` says that
-- the stream's context is done; `waiting` is the size of a `Read` that waits; `received` are the
-- bytes that the reads have returned. `asleep` and `reader_asleep` say who is in `readyCond.Wait`.
pub record Stream : Type 0 where
  pub jobs : List ℕ
  pub phase : ℕ → Phase
  pub slots : Slots
  pub current_index : ℕ
  pub current_buf : Bytes
  pub closed : Bool
  pub cancelled : Bool
  pub waiting : Option ℕ
  pub received : Bytes
  pub asleep : ℕ → Bool
  pub reader_asleep : Bool

-- A step goes on, cannot be taken now, or panics.
pub data Next : Type 0 where
  running : Stream → Next
  blocked panicked : Next

-- What a `Read` returns; `starved` means that the model's fuel ran out.
pub data ReadEnd : Type 0 where
  got : Bytes → ReadEnd
  end_of_stream : ReadEnd
  chunk_failed : Error → ReadEnd
  context_failed waits starved : ReadEnd

-- What can happen next: a worker goes on, the consumer reads or its waiting `Read` goes on, it
-- closes the stream, or the caller's context ends. `wakes` is the `Broadcast` of a goroutine that
-- has waited for the context or for the workers; that it has is not asked.
pub data Event : Type 0 where
  worker read_call : ℕ → Event
  woken close_call context_end wakes : Event

-- `readyCond.Broadcast`
abbrev pub broadcast : Stream → Stream
broadcast s = record s { asleep = λ w. false; reader_asleep = false }

-- `readyCond.Wait` in a worker.
abbrev pub fall_asleep : ℕ → Stream → Stream
fall_asleep w s = record s { asleep = λ v. if v == w then true else s.asleep v }

abbrev pub set_phase : ℕ → Phase → Stream → Stream
set_phase w p s = record s { phase = λ v. if v == w then p else s.phase v }

-- The indices of `n` chunks from `i` on.
abbrev pub range_from : ℕ → ℕ → List ℕ
range_from i zero = []
range_from i (suc n) = i ∷ range_from (suc i) n

-- `newPrefetchStreamReader` and the start of the workers.
unfoldable pub start_stream : ℕ → ℕ → Stream
start_stream workers count = record {
  jobs = range_from 0 count;
  phase = λ w. if ltb w workers then idle else finished;
  slots = some (λ i. none);
  current_index = 0;
  current_buf = [];
  closed = false;
  cancelled = false;
  waiting = none;
  received = [];
  asleep = λ w. false;
  reader_asleep = false;
}

-- `result i` is what the download of chunk `i` comes to: a run downloads no chunk twice.
module _ (count : ℕ) (window : ℤ) (result : ℕ → ChunkResult) where
  -- `for chunk := range jobChan`
  unfoldable pub take_job : ℕ → List ℕ → Stream → Stream
  take_job w [] s = set_phase w finished s
  take_job w (i ∷ jobs) s = set_phase w (holding i) (record s { jobs = jobs })

  -- The wait for the window.
  unfoldable pub enter_window : ℕ → ℕ → Stream → Next
  enter_window w i s =
      if s.closed || s.cancelled
      then running (set_phase w finished s)
      else if leb_ℤ (add64 (pos s.current_index) window) (pos i)
      then running (fall_asleep w s)
      else running (set_phase w (fetching i) s)

  -- A worker goes on behind a success, and cancels behind an error.
  abbrev pub after_fetch : Option Error → Phase
  after_fetch none = idle
  after_fetch (some e) = failing

  -- The result into its slot, and a `Broadcast`: an assignment to a nil map panics.
  abbrev pub put_slot : ℕ → ℕ → Stream → Slots → Next
  put_slot w i s none = panicked
  put_slot w i s (some slots) = running (
      set_phase w (after_fetch (result i).err)
        (broadcast (record s { slots = some (λ k. if k == i then some (result i) else slots k) })))

  unfoldable pub deliver : ℕ → ℕ → Stream → Next
  deliver w i s = put_slot w i s s.slots

  -- What worker `w` does next.
  unfoldable pub step_phase : ℕ → Phase → Stream → Next
  step_phase w idle s = running (take_job w s.jobs s)
  step_phase w (holding i) s = enter_window w i s
  step_phase w (fetching i) s = deliver w i s
  step_phase w failing s = running (set_phase w finished (record s { cancelled = true }))
  step_phase w finished s = blocked

  -- A worker that is asleep does nothing.
  abbrev pub step_worker : ℕ → Stream → Next
  step_worker w s = if s.asleep w then blocked else step_phase w (s.phase w) s

  abbrev pub hand_over : ℕ → Stream → Stream
  hand_over room s = record s {
    current_buf = drop room s.current_buf;
    received = s.received ++ take room s.current_buf;
  }

  -- The next chunk's data become the current buffer, its slot is freed, and a `Broadcast` follows.
  abbrev pub advance : Bytes → Stream → Stream
  advance bytes s = broadcast (record s {
    current_buf = bytes;
    slots = free_slot s.slots s.current_index;
    current_index = suc s.current_index;
  })

  -- What the reader does with the slot of its next chunk.
  abbrev pub read_result : Stream → ReadEnd × Stream → Option Error → ReadEnd × Stream
  read_result s behind none = behind
  read_result s behind (some e) = (chunk_failed e, s)

  abbrev pub read_slot :
      ℕ → Stream → (Bytes → ReadEnd × Stream) → Option ChunkResult → ReadEnd × Stream
  read_slot room s go_on none = (waits, record s { waiting = some room; reader_asleep = true })
  read_slot room s go_on (some r) = read_result s (go_on r.content) r.err

  -- The loop of `Read`, for a buffer of `room` bytes; each round but the last passes one chunk.
  unfoldable pub read_loop : ℕ → ℕ → Stream → ReadEnd × Stream
  read_loop zero room s = (starved, s)
  read_loop (suc fuel) room s =
      let next =
        read_slot room s (λ bytes. read_loop fuel room (advance bytes s))
          (slot_in s.slots s.current_index) in
      if s.cancelled
      then (context_failed, s)
      else if ltb 0 (length s.current_buf)
      then (got (take room s.current_buf), hand_over room s)
      else if leb count s.current_index
      then (end_of_stream, s)
      else next

  -- One round for each chunk that is left, and one to end.
  abbrev pub read_fuel : Stream → ℕ
  read_fuel s = suc (count - s.current_index)

  -- `Read`; no `closeErr` is ever set.
  unfoldable pub read : ℕ → Stream → ReadEnd × Stream
  read room s = if s.closed then (end_of_stream, s) else read_loop (read_fuel s) room s

  -- A waiting `Read` that has been woken goes on at the head of its loop.
  unfoldable pub resume : ℕ → Stream → ReadEnd × Stream
  resume room s = read_loop (read_fuel s) room (record s { waiting = none })

  -- The consumer calls `Read` when no call of it waits.
  abbrev pub start_read : ℕ → Stream → Option ℕ → Next
  start_read room s none = running (read room s).1
  start_read room s (some waiting) = blocked

  abbrev pub go_on_read : Stream → Option ℕ → Next
  go_on_read s none = blocked
  go_on_read s (some room) = if s.reader_asleep then blocked else running (resume room s).1

  -- `Close`
  unfoldable pub close : Stream → Stream
  close s =
      if s.closed
      then s
      else broadcast (record s { closed = true; cancelled = true; slots = none; current_buf = [] })

  unfoldable pub step : Event → Stream → Next
  step (worker w) s = step_worker w s
  step (read_call room) s = start_read room s s.waiting
  step woken s = go_on_read s s.waiting
  step close_call s = running (close s)
  step context_end s = running (record s { cancelled = true })
  step wakes s = running (broadcast s)

  -- The states that steps lead to.
  pub data Reaches (s : Stream) : Stream → Type 0 where
    here : Reaches s s
    by_step : {t u : Stream} (e : Event) → Reaches s t → step e t ≡ running u → Reaches s u
