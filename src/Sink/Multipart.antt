-- ===== src/Sink/Multipart.antt =====
-- A download of a file in chunks, from the division into chunks to the last worker's return.
use files_downloader_golang.Common.{
  ℕ, ◌+◌, ◌-◌, ◌^◌, ◌≤◌, ◌<◌, ◌≡◌, sym, subst, ◌∙◌, ap, Bool, true, none, some, List, get_elem?,
  arith, length, ◌⊎◌,
}
use files_downloader_golang.Common.Int.{ℤ, pos, pos_part, ◌≤ℤ◌}
use files_downloader_golang.Chunk.{Chunk, calculate_chunks}
use files_downloader_golang.Chunk.Tiling.{calculate_chunks-Tiles}
use files_downloader_golang.Checkpoint.Progress.{held-le}
use files_downloader_golang.Worker.{Round, WorkerOptions}
use files_downloader_golang.Worker.Content.{HonestReply}
use files_downloader_golang.Sink.Pool.{Pool, gone, start_pool, pool_size, outcome, Runs}
use files_downloader_golang.Sink.Table.{get_elem?-Placed, locate}
use files_downloader_golang.Sink.Safety.{Sound, Runs-Sound}
use files_downloader_golang.Sink.Start.{fresh_pool-Sound}
use files_downloader_golang.Sink.Completion.{
  Accounted-complete, Runs-Accounted, start_pool-Accounted,
}

pub pool_size-positive :
    (concurrency : ℤ) (count workers : ℕ) → pool_size concurrency count ≡ pos workers → 0 < workers
unfolding pool_size
pool_size-positive concurrency count workers e = ground arith

-- Sound chunks that are all complete leave the whole file on disk.
pub Sound-content :
    (content before : ℕ → ℕ) (total : ℕ) (fits : total < 2 ^ 62) (s : Pool)
    → Sound content before total fits s
    → ((k : ℕ) (c : Chunk) → get_elem? s.chunks k ≡ some c → c.completed ≡ true)
    → (x : ℕ) → x < total
    → s.disk x ≡ content x
Sound-content content before total fits s o complete x lt =
    let (k, c, b, e, found, s_eq, e_eq, le, le') =
      locate total 0 0 x s.chunks o.cover (omega arith) lt in
    let (i, b', e', d, covers) = get_elem?-Placed total 0 0 k s.chunks o.cover found in
    let all : d ≡ e' + 1 - b' = covers.whole (complete k c found) in
    let starts : b' ≡ b = ap pos_part (sym covers.start_eq ∙ s_eq) in
    let ends : e' ≡ e = ap pos_part (sym covers.end_eq ∙ e_eq) in
    let start : pos_part c.start ≡ b = ap pos_part s_eq in
    let bytes : pos_part c.downloaded ≡ d = ap pos_part covers.downloaded_eq in
    o.on_disk k x c found (omega arith) (omega arith)

-- The same at the end of a run.
pub ended-content :
    (content before : ℕ → ℕ) (total : ℕ) (fits : total < 2 ^ 62) (opts : WorkerOptions)
    (env : ℕ → ℕ → Round) (workers : ℕ) (chunks : List Chunk) (sync_ok : Bool) (s : Pool)
    → ((i k r e : ℕ) → HonestReply content total ((env i k).reply (pos r) (pos e)))
    → 0 < workers
    → Sound content before total fits (start_pool workers (pos total) chunks before)
    → Runs opts env (start_pool workers (pos total) chunks before) s
    → ((w : ℕ) → w < workers → s.stage w ≡ gone)
    → outcome sync_ok s ≡ none
    → (x : ℕ) → x < total
    → s.disk x ≡ content x
ended-content content before total fits opts env workers chunks sync_ok s honest some_worker o run
      left fine =
    let o' = Runs-Sound content before total fits opts env honest _ s o run in
    let a =
      Runs-Accounted workers opts env _ s (start_pool-Accounted workers (pos total) chunks before)
        run in
    Sound-content content before total fits s o'
      (λ k c found. Accounted-complete workers s sync_ok k c some_worker a left fine found)

fresh-Sound :
    (content before : ℕ → ℕ) (total : ℕ) (preferred concurrency : ℤ) (chunks : List Chunk)
    (workers : ℕ) (fits : total < 2 ^ 62)
    → 1 ≤ total
    → concurrency ≤ℤ pos (2 ^ 61 - 1)
    → calculate_chunks (pos total) preferred concurrency ≡ some chunks
    → Sound content before total fits (start_pool workers (pos total) chunks before)
fresh-Sound content before total preferred concurrency chunks workers fits lo few divided =
    let (cs, n, e, n_lo, tiles) =
      calculate_chunks-Tiles total preferred concurrency lo (omega arith) few in
    let same : cs ≡ chunks = cc in
    subst (λ ds. Sound content before total fits (start_pool workers (pos total) ds before)) same
      (fresh_pool-Sound content before total fits workers n cs n_lo tiles)

-- A file of 1 to 2^62 - 1 bytes is divided by `CalculateChunks` and downloaded by the pool, over
-- any disk, with any interleaving of the workers' steps, any failures and any moment at which the
-- caller's context ends. What each answer says of its body holds: a 200 carries the file from its
-- start and a 206 the file from where its `Content-Range` starts, whichever range was asked for;
-- other answers are arbitrary.
-- When all workers have returned and the outcome is no error, every byte of the file is on disk.
pub multipart_content :
    (content before : ℕ → ℕ) (total : ℕ) (preferred concurrency : ℤ) (chunks : List Chunk)
    (workers : ℕ) (opts : WorkerOptions) (env : ℕ → ℕ → Round) (s : Pool) (sync_ok : Bool) (x : ℕ)
    → 1 ≤ total
    → total < 2 ^ 62
    → concurrency ≤ℤ pos (2 ^ 61 - 1)
    → calculate_chunks (pos total) preferred concurrency ≡ some chunks
    → pool_size concurrency (length chunks) ≡ pos workers
    → ((i k r e : ℕ) → HonestReply content total ((env i k).reply (pos r) (pos e)))
    → Runs opts env (start_pool workers (pos total) chunks before) s
    → ((w : ℕ) → w < workers → s.stage w ≡ gone)
    → outcome sync_ok s ≡ none
    → x < total
    → s.disk x ≡ content x
multipart_content content before total preferred concurrency chunks workers opts env s sync_ok x lo
      fits few divided size honest run left fine lt =
    let o =
      fresh-Sound content before total preferred concurrency chunks workers fits lo few divided in
    ended-content content before total fits opts env workers chunks sync_ok s honest
      (pool_size-positive concurrency (length chunks) workers size) o run left fine x lt

-- A file of 1 to 2^62 - 1 bytes is divided by `CalculateChunks` and downloaded by the pool, with any
-- interleaving and any failures; a 200 carries the file from its start and a 206 the file from where
-- its `Content-Range` starts, and other answers are arbitrary. When all workers have returned,
-- whether or not the download succeeds, a byte on disk is the byte that was there before or the
-- file's, and the tracker counts at most the file's bytes.
pub multipart_safe :
    (content before : ℕ → ℕ) (total : ℕ) (preferred concurrency : ℤ) (chunks : List Chunk)
    (workers : ℕ) (opts : WorkerOptions) (env : ℕ → ℕ → Round) (s : Pool) (x : ℕ)
    → 1 ≤ total
    → total < 2 ^ 62
    → concurrency ≤ℤ pos (2 ^ 61 - 1)
    → calculate_chunks (pos total) preferred concurrency ≡ some chunks
    → ((i k r e : ℕ) → HonestReply content total ((env i k).reply (pos r) (pos e)))
    → Runs opts env (start_pool workers (pos total) chunks before) s
    → ((w : ℕ) → w < workers → s.stage w ≡ gone)
    → ((s.disk x ≡ before x) ⊎ (s.disk x ≡ content x))
      × (m : ℕ) × (s.tracker.downloaded_bytes ≡ pos m)
      × (m ≤ total)
multipart_safe content before total preferred concurrency chunks workers opts env s x lo fits few
      divided honest run left =
    let o =
      fresh-Sound content before total preferred concurrency chunks workers fits lo few divided in
    let o' = Runs-Sound content before total fits opts env honest _ s o run in
    let le = held-le total 0 0 s.chunks o'.cover in
    let le' = o'.count_le in (o'.safe x, o'.count, o'.counter_eq, omega arith)
