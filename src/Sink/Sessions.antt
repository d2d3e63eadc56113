-- ===== src/Sink/Sessions.antt =====
-- A download that is stopped and resumed any number of times, each time by a new process that has
-- the checkpoint and the disk of the one before.
use files_downloader_golang.Common.{
  ℕ, zero, suc, ◌-◌, ◌^◌, ◌≤◌, ◌<◌, ◌≡◌, refl, sym, subst, ◌∙◌, ap, true, none, some, List, arith,
  length, if_split, map,
}
use files_downloader_golang.Common.Int.{ℤ, pos, pos_part, ◌≤ℤ◌}
use files_downloader_golang.Chunk.{Chunk, calculate_chunks}
use files_downloader_golang.Chunk.Tiling.{Tiles, calculate_chunks-Tiles}
use files_downloader_golang.Probe.{FileInfo}
use files_downloader_golang.Checkpoint.{Checkpoint, is_resume_valid, restore_chunks, new_checkpoint}
use files_downloader_golang.Checkpoint.Validity.{new_checkpoint-is_resume_valid}
use files_downloader_golang.Checkpoint.Progress.{Aligned, as_restored, restore_chunks-states_of}
use files_downloader_golang.Worker.{Round, WorkerOptions}
use files_downloader_golang.Worker.Content.{HonestReply}
use files_downloader_golang.Sink.Pool.{
  Pool, gone, start_pool, pool_size, last_checkpoint, outcome, Runs,
}
use files_downloader_golang.Sink.Safety.{Sound, Runs-Sound}
use files_downloader_golang.Sink.Table.{some-injective}
use files_downloader_golang.Sink.Start.{Tiles-empty}
use files_downloader_golang.Sink.Multipart.{pool_size-positive, ended-content}
use files_downloader_golang.Sink.Resume.{
  Kept, resumed-Sound, synced-Kept, unsynced-Kept, Runs-Aligned, restore_chunks-inverse,
  states_of-Aligned, get_elem?-as_restored,
}

-- One session: the chunks that the checkpoint gives, the number of workers, the pool when all
-- workers have returned, finished or stopped, and the checkpoint that is saved then. `envs n` is
-- what session `n` meets.
pub data Sessions (opts : WorkerOptions) (concurrency : ℤ) (total : ℕ) (envs : ℕ → ℕ → ℕ → Round)
    (cp : Checkpoint) (disk : ℕ → ℕ) : ℕ → Checkpoint → (ℕ → ℕ) → Type 0 where
  begun : Sessions opts concurrency total envs cp disk 0 cp disk
  session :
      {n : ℕ} {cp' cp'' : Checkpoint} {disk' : ℕ → ℕ} (chunks : List Chunk) (workers : ℕ) (s : Pool)
      → Sessions opts concurrency total envs cp disk n cp' disk'
      → restore_chunks cp'.chunks ≡ some chunks
      → pool_size concurrency (length chunks) ≡ pos workers
      → Runs opts (envs n) (start_pool workers (pos total) chunks disk') s
      → ((w : ℕ) → w < workers → s.stage w ≡ gone)
      → last_checkpoint cp' s ≡ some cp''
      → Sessions opts concurrency total envs cp disk (suc n) cp'' s.disk

module _ (content : ℕ → ℕ) (total : ℕ) (fits : total < 2 ^ 62) (info : FileInfo) where
  last_checkpoint-Kept :
      (cp : Checkpoint) (before : ℕ → ℕ) (s : Pool)
      → 1 ≤ total
      → Kept content total fits info cp before
      → Aligned cp.chunks s.chunks
      → Sound content before total fits s
      → (cp' : Checkpoint) × (last_checkpoint cp s ≡ some cp')
        × Kept content total fits info cp' s.disk
  unfolding last_checkpoint
  last_checkpoint-Kept cp before s lo k a o =
      if_split (λ r. (cp' : Checkpoint) × (r ≡ some cp') × Kept content total fits info cp' s.disk)
        _ (λ t. synced-Kept content total fits info cp before s lo k a o)
        (λ f. (cp, refl, unsynced-Kept content total fits info cp before s k o))

  module _ (opts : WorkerOptions) (concurrency : ℤ) (envs : ℕ → ℕ → ℕ → Round)
      (honest : (n i k r e : ℕ)
        → HonestReply content total ((envs n i k).reply (pos r) (pos e))) where
    next-Kept :
        (n : ℕ) (cp cp' : Checkpoint) (disk : ℕ → ℕ) (chunks : List Chunk) (workers : ℕ) (s : Pool)
        → 1 ≤ total
        → Kept content total fits info cp disk
        → restore_chunks cp.chunks ≡ some chunks
        → Runs opts (envs n) (start_pool workers (pos total) chunks disk) s
        → last_checkpoint cp s ≡ some cp'
        → Kept content total fits info cp' s.disk
    unfolding start_pool
    next-Kept n cp cp' disk chunks workers s lo k restores run left =
        let start = start_pool workers (pos total) chunks disk in
        let o = resumed-Sound content total fits info cp disk chunks workers lo k restores in
        let o' = Runs-Sound content disk total fits opts (envs n) (honest n) start s o run in
        let lined : Aligned cp.chunks chunks =
          subst (λ t. Aligned t chunks) (restore_chunks-inverse cp.chunks chunks restores)
            (states_of-Aligned chunks) in
        let a = Runs-Aligned opts (envs n) cp.chunks start s lined run in
        let (made, e, k') = last_checkpoint-Kept cp disk s lo k a o' in
        subst (λ c. Kept content total fits info c s.disk) (some-injective (sym e ∙ left)) k'

    Sessions-Kept :
        (cp : Checkpoint) (disk : ℕ → ℕ) (n : ℕ) (cp' : Checkpoint) (disk' : ℕ → ℕ)
        → 1 ≤ total
        → Kept content total fits info cp disk
        → Sessions opts concurrency total envs cp disk n cp' disk'
        → Kept content total fits info cp' disk'
    Sessions-Kept cp disk zero cp' disk' lo k begun = k
    Sessions-Kept cp disk (suc n) cp'' disk'' lo k
          (session {cp' = cp'} {disk' = disk'} chunks workers s earlier restores size run returned
            left) =
        next-Kept n cp' cp'' disk' chunks workers s lo
          (Sessions-Kept cp disk n cp' disk' lo k earlier) restores run left

  -- The checkpoint of a new download holds no bytes.
  new_checkpoint-Kept :
      (disk : ℕ → ℕ) (preferred concurrency : ℤ) (cs : List Chunk)
      → info.content_length ≡ pos total
      → info.accept_ranges ≡ true
      → 1 ≤ total
      → concurrency ≤ℤ pos (2 ^ 61 - 1)
      → calculate_chunks (pos total) preferred concurrency ≡ some cs
      → Kept content total fits info (new_checkpoint info cs preferred) disk
  unfolding new_checkpoint
  new_checkpoint-Kept disk preferred concurrency cs e ranges lo few divided =
      let (ds, n, made, n_lo, tiles) =
        calculate_chunks-Tiles total preferred concurrency lo (omega arith) few in
      let same : ds ≡ cs = cc in
      record {
        length_eq = e;
        valid =
            new_checkpoint-is_resume_valid info total preferred concurrency cs e ranges lo
              (omega arith) few divided;
        chunks = map as_restored cs;
        restores = restore_chunks-states_of cs;
        on_disk = λ k x c found le lt.
            let (c', found', e') = get_elem?-as_restored k cs c found in
            let empty =
              ap pos_part
                (Tiles-empty n total 0 0 k cs c' (subst (Tiles n total 0 0) same tiles) found') in
            let bytes = ap (λ (y : Chunk). pos_part y.downloaded) e' in absurd (omega arith);
      }

-- A new download of a file of 1 to 2^62 - 1 bytes, whose probe gives its length and says that
-- ranges are accepted, is stopped and resumed any number of times; each session is a run of the pool
-- from the chunks that the checkpoint restores, on the disk that the session before left, with any
-- interleaving and any failures, until all its workers have returned. A 200 carries the file from
-- its start and a 206 the file from where its `Content-Range` starts; other answers are arbitrary.
-- The checkpoint that a session leaves when its workers have returned passes `IsResumeValid` against the same probe, and its chunks can be restored.
pub resume_valid :
    (content before : ℕ → ℕ) (total : ℕ) (info : FileInfo) (preferred concurrency : ℤ)
    (cs : List Chunk) (opts : WorkerOptions) (envs : ℕ → ℕ → ℕ → Round) (n : ℕ) (cp : Checkpoint)
    (disk : ℕ → ℕ)
    → 1 ≤ total
    → total < 2 ^ 62
    → concurrency ≤ℤ pos (2 ^ 61 - 1)
    → info.content_length ≡ pos total
    → info.accept_ranges ≡ true
    → calculate_chunks (pos total) preferred concurrency ≡ some cs
    → ((n i k r e : ℕ) → HonestReply content total ((envs n i k).reply (pos r) (pos e)))
    → Sessions opts concurrency total envs (new_checkpoint info cs preferred) before n cp disk
    → (is_resume_valid cp (some info) ≡ true)
      × (chunks : List Chunk) × (restore_chunks cp.chunks ≡ some chunks)
resume_valid content before total info preferred concurrency cs opts envs n cp disk lo fits few e
      ranges divided honest run =
    let start =
      new_checkpoint-Kept content total fits info before preferred concurrency cs e ranges lo few
        divided in
    let k =
      Sessions-Kept content total fits info opts concurrency envs honest
        (new_checkpoint info cs preferred) before n cp disk lo start run in
    (k.valid, k.chunks, k.restores)

-- A new download of a file of 1 to 2^62 - 1 bytes, whose probe gives its length and says that
-- ranges are accepted, is stopped and resumed any number of times, with any interleaving and any
-- failures in each session, where the workers of each session return before the next begins. A 200
-- carries the file from its start and a 206 the file from where its `Content-Range` starts; other
-- answers are arbitrary. A session behind these in which all
-- workers return and the outcome is no error leaves every byte of the file on disk.
pub resume_content :
    (content before : ℕ → ℕ) (total : ℕ) (info : FileInfo) (preferred concurrency : ℤ)
    (cs : List Chunk) (opts : WorkerOptions) (envs : ℕ → ℕ → ℕ → Round) (n : ℕ) (cp : Checkpoint)
    (disk : ℕ → ℕ) (chunks : List Chunk) (workers : ℕ) (s : Pool) (x : ℕ)
    → 1 ≤ total
    → total < 2 ^ 62
    → concurrency ≤ℤ pos (2 ^ 61 - 1)
    → info.content_length ≡ pos total
    → info.accept_ranges ≡ true
    → calculate_chunks (pos total) preferred concurrency ≡ some cs
    → ((n i k r e : ℕ) → HonestReply content total ((envs n i k).reply (pos r) (pos e)))
    → Sessions opts concurrency total envs (new_checkpoint info cs preferred) before n cp disk
    → restore_chunks cp.chunks ≡ some chunks
    → pool_size concurrency (length chunks) ≡ pos workers
    → Runs opts (envs n) (start_pool workers (pos total) chunks disk) s
    → ((w : ℕ) → w < workers → s.stage w ≡ gone)
    → outcome true s ≡ none
    → x < total
    → s.disk x ≡ content x
resume_content content before total info preferred concurrency cs opts envs n cp disk chunks workers
      s x lo fits few e ranges divided honest earlier restores size run left fine lt =
    let start =
      new_checkpoint-Kept content total fits info before preferred concurrency cs e ranges lo few
        divided in
    let k =
      Sessions-Kept content total fits info opts concurrency envs honest
        (new_checkpoint info cs preferred) before n cp disk lo start earlier in
    ended-content content disk total fits opts (envs n) workers chunks true s (honest n)
      (pool_size-positive concurrency (length chunks) workers size)
      (resumed-Sound content total fits info cp disk chunks workers lo k restores) run left fine x
      lt
