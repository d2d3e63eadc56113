-- ===== src/Progress.antt =====
-- pkg/engine/progress.go: the counters of the progress tracker. Each operation on a counter is one
-- atomic step. The speed, the percentage and the estimate are floats, and are left out.
pub mod Counters
use files_downloader_golang.Common.{Bool, true, false, ◌&&◌, if◌then◌else◌}
use files_downloader_golang.Common.Int.{ℤ, pos, ltb_ℤ, leb_ℤ, ◌-ℤ◌}
use files_downloader_golang.Common.Word.{add64, sub64}

pub record Tracker : Type 0 where
  pub total_bytes : ℤ
  pub downloaded_bytes : ℤ
  pub active_workers : ℤ
  pub total_chunks : ℤ
  pub completed_chunks : ℤ
  pub done : Bool

-- The counters of `NewProgressTracker`.
abbrev pub new_tracker : ℤ → ℤ → Tracker
new_tracker total_bytes total_chunks = record {
  total_bytes = total_bytes;
  downloaded_bytes = pos 0;
  active_workers = pos 0;
  total_chunks = total_chunks;
  completed_chunks = pos 0;
  done = false;
}

-- `AddBytes`
unfoldable pub add_bytes : Tracker → ℤ → Tracker
add_bytes t n =
    if ltb_ℤ (pos 0) n then record t { downloaded_bytes = add64 t.downloaded_bytes n } else t

-- `SubBytes`, with no other call between its subtraction and its compare-and-swap.
unfoldable pub sub_bytes : Tracker → ℤ → Tracker
sub_bytes t n =
    let left = add64 t.downloaded_bytes (sub64 (pos 0) n) in
    if ltb_ℤ (pos 0) n
    then record t { downloaded_bytes = if leb_ℤ (pos 0) left then left else pos 0 }
    else t

-- `WorkerStarted`, `WorkerFinished` and `ChunkCompleted`
abbrev pub worker_started : Tracker → Tracker
worker_started t = record t { active_workers = add64 t.active_workers (pos 1) }

abbrev pub worker_finished : Tracker → Tracker
worker_finished t = record t { active_workers = sub64 t.active_workers (pos 1) }

abbrev pub chunk_completed : Tracker → Tracker
chunk_completed t = record t { completed_chunks = add64 t.completed_chunks (pos 1) }

-- The downloaded bytes that `Snapshot` reports.
unfoldable pub snapshot_bytes : Tracker → ℤ
snapshot_bytes t =
    if ltb_ℤ (pos 0) t.total_bytes && ltb_ℤ t.total_bytes t.downloaded_bytes
    then t.total_bytes
    else t.downloaded_bytes
