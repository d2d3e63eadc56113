-- ===== src/Sink/Safety.antt =====
-- The pool's invariant: what the chunks say they hold is on disk.
use files_downloader_golang.Common.{
  ℕ, ◌+◌, ◌-◌, ◌^◌, ◌≤◌, ◌<◌, ◌≡◌, refl, sym, ◌∙◌, ap, true, Option, none, some, List, [], ◌∷◌,
  get_elem?, arith, inl, inr, ◌⊎◌, Bool-cases, ◌==◌, if_case,
}
use files_downloader_golang.Common.Int.{ℤ, pos, pos_part}
use files_downloader_golang.Chunk.{Chunk}
use files_downloader_golang.Checkpoint.{state_of}
use files_downloader_golang.Checkpoint.Validity.{Covers, Cover}
use files_downloader_golang.Checkpoint.Progress.{states_of, held, held-le}
use files_downloader_golang.Worker.{Error, Round, Job, WorkerOptions}
use files_downloader_golang.Worker.Content.{HonestReply}
use files_downloader_golang.Worker.Frame.{
  Framed, download_chunk-Leaves, Leaves-Framed, Leaves-completed,
}
use files_downloader_golang.Worker.Retry.{download_chunk}
use files_downloader_golang.Worker.FileSink.{
  FileWriter, put_file, file_factory, download_chunk_to_file,
}
use files_downloader_golang.Sink.Pool.{
  Pool, Stage, free, taken, loading, gone, take_over, end_download, job_of, next_job, load_chunk,
  step_stage, step_pool, PoolEvent, worker, caller_end, Runs,
}
use files_downloader_golang.Sink.Table.{get_elem?-Placed, set-Cover, held-set, get_elem?-set}
use files_downloader_golang.Sink.Steps.{Left, Runs-Left}

module _ (content before : ℕ → ℕ) (total : ℕ) (fits : total < 2 ^ 62) where
  -- The chunks tile the file, the bytes that they say they hold are on disk, no byte has gone wrong,
  -- and the tracker counts no more than the chunks hold.
  pub record SoundIn (chunks : List Chunk) (disk : ℕ → ℕ) (counter : ℤ) : Type 0 where
    pub cover : Cover total 0 0 (states_of chunks)
    pub on_disk :
        (k x : ℕ) (c : Chunk)
        → get_elem? chunks k ≡ some c
        → pos_part c.start ≤ x
        → x < pos_part c.start + pos_part c.downloaded
        → disk x ≡ content x
    pub safe : (x : ℕ) → (disk x ≡ before x) ⊎ (disk x ≡ content x)
    pub count : ℕ
    pub counter_eq : counter ≡ pos count
    pub count_le : count ≤ held chunks

  abbrev pub Sound : Pool → Type 0
  Sound s = SoundIn s.chunks s.disk s.tracker.downloaded_bytes

  -- What the download of a chunk that spans `a` to `b` and holds `d` bytes does to the pool.
  record Advanced (m a b d : ℕ) (c : Chunk) (s : Pool) (j : Job FileWriter) : Type 0 where
    pub framed : Framed c j.chunk
    pub bytes : ℕ
    pub bytes_eq : j.chunk.downloaded ≡ pos bytes
    pub more : d ≤ bytes
    pub bytes_le : bytes ≤ b + 1 - a
    pub whole : j.chunk.completed ≡ true → bytes ≡ b + 1 - a
    pub filled : (x : ℕ) → a ≤ x → x < a + bytes → j.dest.disk x ≡ content x
    pub kept : (x : ℕ) → (j.dest.disk x ≡ s.disk x) ⊎ (j.dest.disk x ≡ content x)
    pub counted : ℕ
    pub counter_eq : j.tracker.downloaded_bytes ≡ pos counted
    pub counted_le : counted + d ≤ m + bytes

  take_over-Sound :
      (i a b d : ℕ) (c : Chunk) (s : Pool) (j : Job FileWriter) (o : Sound s)
      → get_elem? s.chunks i ≡ some c
      → c.start ≡ pos a
      → c.end ≡ pos b
      → c.downloaded ≡ pos d
      → Advanced o.count a b d c s j
      → Sound (take_over i j s)
  take_over-Sound i a b d c s j o found s_eq e_eq d_eq adv = record {
    cover =
        set-Cover total 0 0 i a b adv.bytes s.chunks j.chunk o.cover found adv.framed adv.bytes_eq
          s_eq e_eq adv.bytes_le adv.whole;
    on_disk = λ k x c' found' lo hi.
        let entry = sym (get_elem?-set i k s.chunks j.chunk found) ∙ found' in
        elim (Bool-cases (i == k)) [
          | inl same ↦
              let chunk_eq : j.chunk ≡ c' = ground arith in
              let start_eq : pos_part c'.start ≡ a =
                ap (λ (y : Chunk). pos_part y.start) (sym chunk_eq)
                ∙ ap pos_part (adv.framed.start_eq ∙ s_eq) in
              let bytes_eq : pos_part c'.downloaded ≡ adv.bytes =
                ap (λ (y : Chunk). pos_part y.downloaded) (sym chunk_eq)
                ∙ ap pos_part adv.bytes_eq in
              adv.filled x (omega arith) (omega arith)
          | inr other ↦
              let old = o.on_disk k x c' (ground arith) lo hi in
              elim (adv.kept x) [ inl e ↦ e ∙ old | inr e ↦ e ]
        ];
    safe = λ x. elim (adv.kept x) [
      | inl e ↦ elim (o.safe x) [ inl e' ↦ inl (e ∙ e') | inr e' ↦ inr (e ∙ e') ]
      | inr e ↦ inr e
    ];
    count = adv.counted;
    counter_eq = adv.counter_eq;
    count_le =
        let sum = held-set i s.chunks j.chunk found in
        let old = ap pos_part d_eq in
        let new = ap pos_part adv.bytes_eq in
        let le = adv.counted_le in let le' = o.count_le in omega arith;
  }

  -- The download of a chunk, as the pool's other workers see it.
  load-Advanced :
      (opts : WorkerOptions) (env : ℕ → Round) (i m b e d : ℕ) (c : Chunk) (s : Pool)
      → ((k r : ℕ) → HonestReply content total ((env k).reply (pos r) (pos e)))
      → Covers total i b e d (state_of c)
      → s.tracker.downloaded_bytes ≡ pos m
      → m ≤ total
      → ((x : ℕ) → b ≤ x → x < b + d → s.disk x ≡ content x)
      → Advanced m b e d c s (download_chunk put_file file_factory opts env (job_of c s)).1
  load-Advanced opts env i m b e d c s honest covers counter_eq m_le on_disk =
      let ordered = covers.ordered in
      let inside = covers.inside in
      let frame = download_chunk-Leaves put_file file_factory opts env (job_of c s) in
      elim (download_chunk_to_file content total b e m s.disk inside (omega arith) (omega arith)
        opts env d (job_of c s) honest
        (record {
          spans = record {
            start_eq = covers.start_eq;
            end_eq = covers.end_eq;
            ordered = ordered;
            fits = omega arith;
          };
          downloaded_eq = covers.downloaded_eq;
          within = covers.counted;
          counter_eq = counter_eq;
          right = record { filled = on_disk; safe = λ x. inl refl };
        })) [
          | inl (ok, w) ↦ record {
            framed = Leaves-Framed put_file file_factory c _ frame;
            bytes = e + 1 - b;
            bytes_eq = w.downloaded_eq;
            more = covers.counted;
            bytes_le = omega arith;
            whole = λ h. refl;
            filled = λ x lo hi. w.filled x lo (omega arith);
            kept = w.safe;
            counted = m + w.counted;
            counter_eq = w.counter_eq;
            counted_le = let le = w.counted_le in omega arith;
          }
          | inr (x, failed, d', le, r) ↦ record {
            framed = Leaves-Framed put_file file_factory c _ frame;
            bytes = d';
            bytes_eq = r.downloaded_eq;
            more = le;
            bytes_le = r.within;
            whole = λ h.
                let all =
                  covers.whole
                    (sym (Leaves-completed put_file file_factory c _ frame failed) ∙ h) in
                let le' = r.within in omega arith;
            filled = r.right.filled;
            kept = r.right.safe;
            counted = m;
            counter_eq = r.counter_eq;
            counted_le = omega arith;
          }
        ]

  end_download-Sound :
      (w i : ℕ) (s : Pool) (o : Option Error × Job FileWriter)
      → Sound (take_over i o.1 s)
      → Sound (end_download w i s o)
  unfolding end_download
  end_download-Sound w i s (none, j) sound = sound
  end_download-Sound w i s (some e, j) sound = sound

  next_job-Sound : (w : ℕ) (jobs : List ℕ) (s : Pool) → Sound s → Sound (next_job w jobs s)
  unfolding next_job
  next_job-Sound w [] s o = o
  next_job-Sound w (i ∷ jobs) s o = o

  module _ (opts : WorkerOptions) (env : ℕ → ℕ → Round)
      (honest : (i k r e : ℕ) → HonestReply content total ((env i k).reply (pos r) (pos e))) where
    load_chunk-Sound :
        (w i : ℕ) (s : Pool) (found : Option Chunk)
        → get_elem? s.chunks i ≡ found
        → Sound s
        → Left Sound (load_chunk opts env w i s found)
    unfolding load_chunk
    load_chunk-Sound w i s none e o = tt
    load_chunk-Sound w i s (some c) e o =
        let (p, a, b, d, covers) = get_elem?-Placed total 0 0 i s.chunks o.cover e in
        let le = o.count_le in
        let le' = held-le total 0 0 s.chunks o.cover in
        let start : pos_part c.start ≡ a = ap pos_part covers.start_eq in
        let bytes : pos_part c.downloaded ≡ d = ap pos_part covers.downloaded_eq in
        end_download-Sound w i s _ (
          take_over-Sound i a b d c s _ o e covers.start_eq covers.end_eq covers.downloaded_eq (
            load-Advanced opts (env i) p o.count a b d c s (λ k r. honest i k r b) covers
              o.counter_eq (omega arith)
              (λ x lo hi. o.on_disk i x c e (omega arith) (omega arith))))

    step_stage-Sound :
        (w : ℕ) (p : Stage) (s : Pool) → Sound s → Left Sound (step_stage opts env w p s)
    unfolding step_stage
    step_stage-Sound w free s o = next_job-Sound w s.jobs s o
    step_stage-Sound w (taken i) s o = if_case Sound s.worker_done o o
    step_stage-Sound w (loading i) s o = load_chunk-Sound w i s (get_elem? s.chunks i) refl o
    step_stage-Sound w gone s o = tt

    step_pool-Sound : (e : PoolEvent) (s : Pool) → Sound s → Left Sound (step_pool opts env e s)
    unfolding step_pool
    step_pool-Sound (worker w) s o = step_stage-Sound w (s.stage w) s o
    step_pool-Sound caller_end s o = o

    pub Runs-Sound : (s u : Pool) → Sound s → Runs opts env s u → Sound u
    Runs-Sound s u o run = Runs-Left opts env Sound s (λ e t r. step_pool-Sound e t) u o run
