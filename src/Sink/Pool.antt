-- ===== src/Sink/Pool.antt =====
-- The worker pool of `downloadMultipartToFile` and `downloadMultipartToFileHandleWithCheckpoint`.
-- A step is what one worker does between two points at which the others can get in. The download of
-- a chunk is taken as one step, at its end. It reads and writes only its own chunk and the bytes that
-- an honest answer puts behind the chunk's start, and the additions to the tracker commute, so that
-- the order is lost only while a download runs: what is claimed of chunks, disk and tracker is
-- claimed when all workers have returned. What a reader of the tracker, or a save of the checkpoint,
-- finds in the midst of a download is not modelled, nor is the count of active workers.
use files_downloader_golang.Common.{
  ℕ, suc, Bool, true, false, ◌&&◌, ◌||◌, Option, none, some, List, [], ◌∷◌, length, ◌==◌, ◌≡◌, ltb,
  get_elem?, set, if◌then◌else◌,
}
use files_downloader_golang.Common.Int.{ℤ, pos, ltb_ℤ, leb_ℤ}
use files_downloader_golang.Chunk.{Chunk, default_concurrency}
use files_downloader_golang.Progress.{Tracker, new_tracker, add_bytes, chunk_completed}
use files_downloader_golang.Checkpoint.{Checkpoint, sync_from_chunks, initial_bytes}
use files_downloader_golang.Worker.{Error, Round, Job, WorkerOptions}
use files_downloader_golang.Worker.Retry.{download_chunk}
use files_downloader_golang.Worker.FileSink.{FileWriter, put_file, file_factory}

-- Where a worker is: at the channel, with a chunk, downloading it, or returned.
pub data Stage : Type 0 where
  free : Stage
  taken loading : ℕ → Stage
  gone : Stage

-- `worker_done` and `caller_done` say that `workerCtx` and `ctx` are done; `failure` is
-- `downloadErr`.
pub record Pool : Type 0 where
  pub jobs : List ℕ
  pub stage : ℕ → Stage
  pub chunks : List Chunk
  pub tracker : Tracker
  pub disk : ℕ → ℕ
  pub failure : Option Error
  pub worker_done : Bool
  pub caller_done : Bool

-- The positions of the chunks that are not complete, which go into the channel.
unfoldable pub pending : ℕ → List Chunk → List ℕ
pending i [] = []
pending i (c ∷ cs) = let rest = pending (suc i) cs in if c.completed then rest else i ∷ rest

-- The tracker counts the complete chunks, and the bytes that all chunks hold.
unfoldable pub count_completed : List Chunk → Tracker → Tracker
count_completed [] t = t
count_completed (c ∷ cs) t = count_completed cs (if c.completed then chunk_completed t else t)

unfoldable pub first_tracker : ℤ → List Chunk → Tracker
first_tracker total chunks =
    let t = new_tracker total (pos (length chunks)) in
    let held = initial_bytes chunks (pos 0) in
    count_completed chunks (if ltb_ℤ (pos 0) held then add_bytes t held else t)

-- The number of workers for `count` chunks.
unfoldable pub pool_size : ℤ → ℕ → ℤ
pool_size concurrency count =
    let least = if ltb_ℤ (pos count) concurrency then pos count else concurrency in
    if leb_ℤ least (pos 0) then default_concurrency else least

-- The pool before its `workers` workers have taken a step, over the chunks and the disk given.
unfoldable pub start_pool : ℕ → ℤ → List Chunk → (ℕ → ℕ) → Pool
start_pool workers total chunks disk = record {
  jobs = pending 0 chunks;
  stage = λ w. if ltb w workers then free else gone;
  chunks = chunks;
  tracker = first_tracker total chunks;
  disk = disk;
  failure = none;
  worker_done = false;
  caller_done = false;
}

abbrev pub set_stage : ℕ → Stage → Pool → Pool
set_stage w p s = record s { stage = λ v. if v == w then p else s.stage v }

-- `errOnce`
abbrev pub first_of : Option Error → Error → Option Error
first_of none e = some e
first_of (some e') e = some e'

-- A download's chunk, tracker and disk.
abbrev pub take_over : ℕ → Job FileWriter → Pool → Pool
take_over i j s = record s {
  chunks = set s.chunks i j.chunk;
  tracker = j.tracker;
  disk = j.dest.disk;
}

unfoldable pub end_download : ℕ → ℕ → Pool → Option Error × Job FileWriter → Pool
end_download w i s (none, j) = set_stage w free (take_over i j s)
end_download w i s (some e, j) =
    set_stage w gone
      (record (take_over i j s) { failure = first_of s.failure e; worker_done = true })

abbrev pub job_of : Chunk → Pool → Job FileWriter
job_of c s = record {
  chunk = c;
  tracker = s.tracker;
  waits = [];
  dest = record { disk = s.disk; offset = 0 };
}

-- What can happen next: a worker goes on, or the caller's context ends.
pub data PoolEvent : Type 0 where
  worker : ℕ → PoolEvent
  caller_end : PoolEvent

-- `for chunk := range jobs`
unfoldable pub next_job : ℕ → List ℕ → Pool → Pool
next_job w [] s = set_stage w gone s
next_job w (i ∷ jobs) s = set_stage w (taken i) (record s { jobs = jobs })

-- What the workers' `outcome` makes of the pool: the first failure, or the end of the caller's
-- context, or the result of `file.Sync`.
pub data SinkError : Type 0 where
  download_failed : Error → SinkError
  caller_cancelled sync_failed open_failed : SinkError

unfoldable pub outcome : Bool → Pool → Option SinkError
outcome sync_ok s = elim (s.failure) [
  | some e ↦ some (download_failed e)
  | none ↦
      if s.worker_done && s.caller_done
      then some caller_cancelled
      else if sync_ok
      then none
      else some sync_failed
]

abbrev failed : Option Error → Bool
failed none = false
failed (some e) = true

-- The checkpoint as the workers' return leaves it: saved again if the download was stopped.
unfoldable pub last_checkpoint : Checkpoint → Pool → Option Checkpoint
last_checkpoint cp s =
    if s.worker_done || s.caller_done || failed s.failure
    then sync_from_chunks cp s.chunks
    else some cp

-- `env i` is what the download of the chunk at position `i` meets.
module _ (opts : WorkerOptions) (env : ℕ → ℕ → Round) where
  -- The download of the chunk at position `i`.
  unfoldable pub load_chunk : ℕ → ℕ → Pool → Option Chunk → Option Pool
  load_chunk w i s none = none
  load_chunk w i s (some c) =
      some (end_download w i s (download_chunk put_file file_factory opts (env i) (job_of c s)))

  -- What worker `w` does next; `none` is that it does nothing.
  unfoldable pub step_stage : ℕ → Stage → Pool → Option Pool
  step_stage w free s = some (next_job w s.jobs s)
  step_stage w (taken i) s =
      some (if s.worker_done then set_stage w gone s else set_stage w (loading i) s)
  step_stage w (loading i) s = load_chunk w i s (get_elem? s.chunks i)
  step_stage w gone s = none

  unfoldable pub step_pool : PoolEvent → Pool → Option Pool
  step_pool (worker w) s = step_stage w (s.stage w) s
  step_pool caller_end s = some (record s { worker_done = true; caller_done = true })

  -- The pools that steps lead to.
  pub data Runs (s : Pool) : Pool → Type 0 where
    here : Runs s s
    by_step : {t u : Pool} (e : PoolEvent) → Runs s t → step_pool e t ≡ some u → Runs s u
