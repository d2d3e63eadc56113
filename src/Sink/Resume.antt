-- ===== src/Sink/Resume.antt =====
-- Downloads that are interrupted and resumed from their checkpoint.
use files_downloader_golang.Common.{
  ℕ, zero, suc, ◌+◌, ◌^◌, ◌≤◌, ◌<◌, ◌≡◌, refl, sym, subst, ◌∙◌, ap, true, Option, none, some, List,
  [], ◌∷◌, get_elem?, set, arith, map, if_case, inl, inr,
}
use files_downloader_golang.Common.Int.{pos, pos_part}
use files_downloader_golang.Chunk.{Chunk}
use files_downloader_golang.Probe.{FileInfo}
use files_downloader_golang.Checkpoint.{
  ChunkState, Checkpoint, is_resume_valid, restore_chunks, sync_from_chunks,
}
use files_downloader_golang.Checkpoint.Validity.{Cover, is_resume_valid-Agrees}
use files_downloader_golang.Checkpoint.Progress.{
  states_of, Aligned, as_restored, restore_chunks-states_of, sync_from_chunks_lem,
  sync_from_chunks-is_resume_valid,
}
use files_downloader_golang.Worker.{Error, Round, WorkerOptions, Job}
use files_downloader_golang.Worker.Frame.{Framed, download_chunk-Leaves, Leaves-Framed}
use files_downloader_golang.Worker.FileSink.{FileWriter, put_file, file_factory}
use files_downloader_golang.Sink.Pool.{
  Pool, Stage, free, taken, loading, gone, start_pool, end_download, job_of, next_job, load_chunk,
  step_stage, step_pool, PoolEvent, worker, caller_end, Runs,
}
use files_downloader_golang.Sink.Steps.{Left, Runs-Left}
use files_downloader_golang.Sink.Table.{some-injective}
use files_downloader_golang.Sink.Safety.{Sound}
use files_downloader_golang.Sink.Start.{start_pool-Sound}

set-Aligned :
    (k : ℕ) (sts : List (Option ChunkState)) (cs : List Chunk) {c : Chunk} (c' : Chunk)
    → get_elem? cs k ≡ some c
    → Framed c c'
    → Aligned sts cs
    → Aligned sts (set cs k c')
set-Aligned k [] [] c' found f a = absurd cc
set-Aligned k [] (x ∷ cs) c' found f a = absurd a
set-Aligned k (none ∷ sts) cs c' found f a = absurd a
set-Aligned k (some st ∷ sts) [] c' found f a = absurd a
set-Aligned zero (some st ∷ sts) (x ∷ cs) c' found f (i_eq, s_eq, e_eq, a) =
    let same = some-injective found in
    (
      i_eq ∙ ap (λ (y : Chunk). y.index) same ∙ sym f.index_eq,
      s_eq ∙ ap (λ (y : Chunk). y.start) same ∙ sym f.start_eq,
      e_eq ∙ ap (λ (y : Chunk). y.end) same ∙ sym f.end_eq,
      a,
    )
set-Aligned (suc k) (some st ∷ sts) (x ∷ cs) c' found f (i_eq, s_eq, e_eq, a) =
    (i_eq, s_eq, e_eq, set-Aligned k sts cs c' found f a)

module _ (opts : WorkerOptions) (env : ℕ → ℕ → Round) (sts : List (Option ChunkState)) where
  abbrev InLine : Pool → Type 0
  InLine s = Aligned sts s.chunks

  next_job-InLine : (w : ℕ) (jobs : List ℕ) (s : Pool) → InLine s → InLine (next_job w jobs s)
  unfolding next_job
  next_job-InLine w [] s a = a
  next_job-InLine w (i ∷ jobs) s a = a

  end_download-InLine :
      (w i : ℕ) (s : Pool) (o : Option Error × Job FileWriter)
      → Aligned sts (set s.chunks i o.1.chunk)
      → InLine (end_download w i s o)
  unfolding end_download
  end_download-InLine w i s (none, j) a = a
  end_download-InLine w i s (some e, j) a = a

  load_chunk-InLine :
      (w i : ℕ) (s : Pool) (found : Option Chunk)
      → get_elem? s.chunks i ≡ found
      → InLine s
      → Left InLine (load_chunk opts env w i s found)
  unfolding load_chunk
  load_chunk-InLine w i s none e a = tt
  load_chunk-InLine w i s (some c) e a = end_download-InLine w i s _ (
      set-Aligned i sts s.chunks _ e
        (Leaves-Framed put_file file_factory c _
          (download_chunk-Leaves put_file file_factory opts (env i) (job_of c s)))
        a)

  step_stage-InLine :
      (w : ℕ) (p : Stage) (s : Pool) → InLine s → Left InLine (step_stage opts env w p s)
  unfolding step_stage
  step_stage-InLine w free s a = next_job-InLine w s.jobs s a
  step_stage-InLine w (taken i) s a = if_case InLine s.worker_done a a
  step_stage-InLine w (loading i) s a = load_chunk-InLine w i s (get_elem? s.chunks i) refl a
  step_stage-InLine w gone s a = tt

  step_pool-InLine : (e : PoolEvent) (s : Pool) → InLine s → Left InLine (step_pool opts env e s)
  unfolding step_pool
  step_pool-InLine (worker w) s a = step_stage-InLine w (s.stage w) s a
  step_pool-InLine caller_end s a = a

  pub Runs-Aligned : (s u : Pool) → Aligned sts s.chunks → Runs opts env s u → Aligned sts u.chunks
  Runs-Aligned s u a run = Runs-Left opts env InLine s (λ e t r. step_pool-InLine e t) u a run

abbrev restored : ChunkState → Chunk
restored st = record {
  index = st.index;
  start = st.start;
  end = st.end;
  downloaded = st.downloaded;
  completed = st.completed;
  retries = pos 0;
}

restored-inverse :
    (st : ChunkState) (sts : List (Option ChunkState)) (cs : List Chunk) (r : Option (List Chunk))
    → ((ds : List Chunk) → r ≡ some ds → states_of ds ≡ sts)
    → (elim r as (λ x. Option (List Chunk)) [ none ↦ none | some ds ↦ some (restored st ∷ ds) ])
      ≡ some cs
    → states_of cs ≡ some st ∷ sts
restored-inverse st sts cs none h e = absurd cc
restored-inverse st sts cs (some ds) h e =
    ap states_of (sym (some-injective e)) ∙ ap (λ t. some st ∷ t) (h ds refl)

pub restore_chunks-inverse :
    (sts : List (Option ChunkState)) (cs : List Chunk)
    → restore_chunks sts ≡ some cs
    → states_of cs ≡ sts
unfolding restore_chunks
restore_chunks-inverse [] cs e = ap states_of (sym (some-injective {x = []} {c = cs} e))
restore_chunks-inverse (none ∷ sts) cs e = absurd cc
restore_chunks-inverse (some st ∷ sts) cs e =
    restored-inverse st sts cs (restore_chunks sts) (restore_chunks-inverse sts) e

pub states_of-Aligned : (cs : List Chunk) → Aligned (states_of cs) cs
states_of-Aligned [] = tt
states_of-Aligned (c ∷ cs) = (refl, refl, refl, states_of-Aligned cs)

pub get_elem?-as_restored :
    (k : ℕ) (cs : List Chunk) (c : Chunk)
    → get_elem? (map as_restored cs) k ≡ some c
    → (c' : Chunk) × (get_elem? cs k ≡ some c') × (c ≡ as_restored c')
get_elem?-as_restored k [] c found = absurd cc
get_elem?-as_restored zero (x ∷ cs) c found = (x, refl, sym (some-injective found))
get_elem?-as_restored (suc k) (x ∷ cs) c found = get_elem?-as_restored k cs c found

module _ (content : ℕ → ℕ) (total : ℕ) (fits : total < 2 ^ 62) (info : FileInfo) where
  -- A checkpoint that `IsResumeValid` accepts, all of whose bytes are on disk.
  pub record Kept (cp : Checkpoint) (disk : ℕ → ℕ) : Type 0 where
    pub length_eq : cp.content_length ≡ pos total
    pub valid : is_resume_valid cp (some info) ≡ true
    pub chunks : List Chunk
    pub restores : restore_chunks cp.chunks ≡ some chunks
    pub on_disk :
        (k x : ℕ) (c : Chunk)
        → get_elem? chunks k ≡ some c
        → pos_part c.start ≤ x
        → x < pos_part c.start + pos_part c.downloaded
        → disk x ≡ content x

  Kept-Cover :
      (cp : Checkpoint) (disk : ℕ → ℕ) (cs : List Chunk)
      → 1 ≤ total
      → Kept cp disk
      → restore_chunks cp.chunks ≡ some cs
      → Cover total 0 0 (states_of cs)
  Kept-Cover cp disk cs lo k e =
      let (agrees, cover) =
        (is_resume_valid-Agrees cp info total lo (omega arith) k.length_eq).0 k.valid in
      subst (Cover total 0 0) (sym (restore_chunks-inverse cp.chunks cs e)) cover

  pub resumed-Sound :
      (cp : Checkpoint) (disk : ℕ → ℕ) (cs : List Chunk) (workers : ℕ)
      → 1 ≤ total
      → Kept cp disk
      → restore_chunks cp.chunks ≡ some cs
      → Sound content disk total fits (start_pool workers (pos total) cs disk)
  resumed-Sound cp disk cs workers lo k e =
      let same : k.chunks ≡ cs = some-injective (sym k.restores ∙ e) in
      start_pool-Sound content disk total fits workers cs (Kept-Cover cp disk cs lo k e)
        (λ i x c found. k.on_disk i x c (ap (λ ds. get_elem? ds i) same ∙ found))

  pub synced-Kept :
      (cp : Checkpoint) (before : ℕ → ℕ) (s : Pool)
      → 1 ≤ total
      → Kept cp before
      → Aligned cp.chunks s.chunks
      → Sound content before total fits s
      → (cp' : Checkpoint) × (sync_from_chunks cp s.chunks ≡ some cp') × Kept cp' s.disk
  synced-Kept cp before s lo k a o =
      let (cp', e, valid) =
        sync_from_chunks-is_resume_valid cp info s.chunks total lo (omega arith) k.length_eq k.valid
          a o.cover in
      let synced = sync_from_chunks_lem cp s.chunks total (omega arith) a o.cover in
      let same = some-injective (sym synced ∙ e) in
      (
        cp',
        e,
        record {
          length_eq = ap (λ (c : Checkpoint). c.content_length) (sym same) ∙ k.length_eq;
          valid = valid;
          chunks = map as_restored s.chunks;
          restores =
              ap (λ (c : Checkpoint). restore_chunks c.chunks) (sym same)
              ∙ restore_chunks-states_of s.chunks;
          on_disk = λ i x c found le lt.
              let (c', found', e') = get_elem?-as_restored i s.chunks c found in
              let start = ap (λ (y : Chunk). pos_part y.start) e' in
              let bytes = ap (λ (y : Chunk). pos_part y.downloaded) e' in
              o.on_disk i x c' found' (omega arith) (omega arith);
        },
      )

  -- The checkpoint of a download is still good for the disk on which no byte has gone wrong.
  pub unsynced-Kept :
      (cp : Checkpoint) (before : ℕ → ℕ) (s : Pool)
      → Kept cp before
      → Sound content before total fits s
      → Kept cp s.disk
  unsynced-Kept cp before s k o = record {
    length_eq = k.length_eq;
    valid = k.valid;
    chunks = k.chunks;
    restores = k.restores;
    on_disk = λ i x c found le lt. elim (o.safe x) [
      | inl same ↦ same ∙ k.on_disk i x c found le lt
      | inr right ↦ right
    ];
  }
