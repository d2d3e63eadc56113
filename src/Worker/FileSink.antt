-- ===== src/Worker/FileSink.antt =====
-- The destination of file_sink.go and fd_sink.go: `io.NewOffsetWriter` over the shared file.
use files_downloader_golang.Common.{
  ℕ, ◌+◌, ◌-◌, ◌^◌, ◌≤◌, ◌<◌, ◌≡◌, ap, ap₂, ◌∙◌, ◌⊎◌, true, ◌&&◌, none, some, [], ◌∷◌, length,
  arith, ltb, leb, ◌==◌, if◌then◌else◌, inl, inr,
}
use files_downloader_golang.Common.Int.{pos, pos_part}
use files_downloader_golang.Common.Word.{add64, add64-pos}
use files_downloader_golang.Common.Text.{Bytes}
use files_downloader_golang.Chunk.{Chunk}
use files_downloader_golang.Chunk.Methods.{Spans}
use files_downloader_golang.Worker.{Error, Round, Job, WorkerOptions}
use files_downloader_golang.Worker.Retry.{download_chunk, rounds}
use files_downloader_golang.Worker.Content.{Matches, HonestReply}
use files_downloader_golang.Worker.Delivery.{download_from-Ended}

-- The bytes of the file, by their offset, and where the writer writes next.
pub record FileWriter : Type 0 where
  pub disk : ℕ → ℕ
  pub offset : ℕ

unfoldable pub write_at : (ℕ → ℕ) → ℕ → Bytes → ℕ → ℕ
write_at disk p [] = disk
write_at disk p (b ∷ bs) = write_at (λ i. if i == p then b else disk i) (p + 1) bs

-- `OffsetWriter.Write`
unfoldable pub put_file : FileWriter → Bytes → FileWriter
put_file w bs = record { disk = write_at w.disk w.offset bs; offset = w.offset + length bs }

-- `destFactory`: a writer at `chunk.Start + chunk.GetDownloaded()`, which is no negative offset for
-- a chunk whose start is none.
unfoldable pub file_factory : Chunk → FileWriter → FileWriter
file_factory c w = record w { offset = pos_part (add64 c.start c.downloaded) }

-- What a write of the file's own bytes leaves at offset `i`.
write_at-Matches :
    (content disk : ℕ → ℕ) (p i : ℕ) (bs : Bytes)
    → Matches content p bs
    → write_at disk p bs i ≡ (if leb p i && ltb i (p + length bs) then content i else disk i)
unfolding write_at
write_at-Matches content disk p i [] match = ground arith
write_at-Matches content disk p i (b ∷ bs) (e, match) =
    let later = write_at-Matches content (λ k. if k == p then b else disk k) (p + 1) i bs match in
    later ∙ ground arith

module _ (content : ℕ → ℕ) (total a b m : ℕ) (before : ℕ → ℕ) (inside : b < total)
    (fits : total ≤ 2 ^ 62) (counter_fits : m + total < 2 ^ 63) where
  -- Every byte of the file is as it was before the job, or the right one; those of the chunk below
  -- `p` are right.
  pub record Right (p : ℕ) (disk : ℕ → ℕ) : Type 0 where
    pub filled : (i : ℕ) → a ≤ i → i < p → disk i ≡ content i
    pub safe : (i : ℕ) → (disk i ≡ before i) ⊎ (disk i ≡ content i)

  abbrev Holds : ℕ → ℕ → FileWriter → Type 0
  Holds r p w = (w.offset ≡ p) × Right p w.disk

  abbrev Kept : ℕ → FileWriter → Type 0
  Kept d w = Right (a + d) w.disk

  write_at-Right :
      (p : ℕ) (disk : ℕ → ℕ) (bs : Bytes)
      → Matches content p bs
      → Right p disk
      → Right (p + length bs) (write_at disk p bs)
  write_at-Right p disk bs match right = record {
    filled = λ i lo hi.
        let filled = right.filled i lo in
        ground (arith, write_at-Matches content disk p i bs match);
    safe = λ i. elim (right.safe i) [
      | inl e ↦ ground (arith, write_at-Matches content disk p i bs match)
      | inr e ↦ ground (arith, write_at-Matches content disk p i bs match)
    ];
  }

  put_file-Holds :
      (r p : ℕ) (w : FileWriter) (bs : Bytes)
      → Matches content p bs
      → Holds r p w
      → Holds r (p + length bs) (put_file w bs)
  unfolding put_file
  put_file-Holds r p w bs match (e, right) =
      (ap (λ o. o + length bs) e, rw e (write_at-Right p w.disk bs match right))

  Holds-Kept : (r p d : ℕ) (w : FileWriter) → a + d ≤ p → Holds r p w → Kept d w
  Holds-Kept r p d w le (e, right) = record {
    filled = λ i lo hi. right.filled i lo (omega arith);
    safe = right.safe;
  }

  file_factory-Holds :
      (c : Chunk) (d : ℕ) (w : FileWriter)
      → Spans c a b
      → c.downloaded ≡ pos d
      → d ≤ b + 1 - a
      → Kept d w
      → Holds (a + d) (a + d) (file_factory c w)
  unfolding file_factory
  file_factory-Holds c d w s e le right =
      let ordered = s.ordered in
      (ap pos_part (ap₂ add64 s.start_eq e ∙ add64-pos a d (omega arith)), right)

  -- The chunk's part of the file is the remote file's, and no byte outside it is wrong that was not
  -- so before. The tracker counts at most the bytes behind the first `d`.
  pub record Written (d : ℕ) (j : Job FileWriter) : Type 0 where
    pub filled : (i : ℕ) → a ≤ i → i ≤ b → j.dest.disk i ≡ content i
    pub safe : (i : ℕ) → (j.dest.disk i ≡ before i) ⊎ (j.dest.disk i ≡ content i)
    pub downloaded_eq : j.chunk.downloaded ≡ pos (b + 1 - a)
    pub completed_eq : j.chunk.completed ≡ true
    pub counted : ℕ
    pub counter_eq : j.tracker.downloaded_bytes ≡ pos (m + counted)
    pub counted_le : d + counted ≤ b + 1 - a

  -- The chunk can be resumed at `d` bytes: all of these are on disk, and no byte has gone wrong.
  pub record Resumable (d : ℕ) (j : Job FileWriter) : Type 0 where
    pub spans : Spans j.chunk a b
    pub downloaded_eq : j.chunk.downloaded ≡ pos d
    pub within : d ≤ b + 1 - a
    pub counter_eq : j.tracker.downloaded_bytes ≡ pos m
    pub right : Right (a + d) j.dest.disk

  -- A chunk's download into the file, from any state that can be resumed, against a server where a
  -- 200 carries the file from its start, a 206 the file from where its `Content-Range` starts
  -- (either also too few bytes, or too many), and other answers are arbitrary, with any failures of
  -- the network, the disk and the context: it succeeds with every byte of the chunk on disk and the
  -- chunk marked completed and no byte of it counted that was there before, or it fails in a state
  -- that can be resumed with no fewer bytes. In both cases no byte of the file has gone wrong, also
  -- outside the chunk.
  pub download_chunk_to_file :
      (opts : WorkerOptions) (env : ℕ → Round) (d : ℕ) (j : Job FileWriter)
      → ((k r : ℕ) → HonestReply content total ((env k).reply (pos r) (pos b)))
      → Resumable d j
      → let (failure, j') = download_chunk put_file file_factory opts env j in
        ((failure ≡ none) × Written d j')
        ⊎ ((e : Error) × (failure ≡ some e) × (d' : ℕ) × (d ≤ d') × Resumable d' j')
  unfolding download_chunk
  download_chunk_to_file opts env d j honest ready =
      let (d', le, end) =
        download_from-Ended put_file file_factory content total Holds Kept put_file-Holds a b m
          inside fits counter_fits Holds-Kept file_factory-Holds opts env (rounds opts.max_retries)
          0 d none j honest
          (record {
            spans = ready.spans;
            downloaded_eq = ready.downloaded_eq;
            within = ready.within;
            counter_eq = ready.counter_eq;
            kept = ready.right;
          }) in
      elim end [
        | inl (e, c) ↦ inl (
          e,
          record {
            filled = λ i lo hi. c.holds.1.filled i lo (omega arith);
            safe = c.holds.1.safe;
            downloaded_eq = c.downloaded_eq;
            completed_eq = c.completed_eq;
            counted = b + 1 - a - d';
            counter_eq = c.counter_eq;
            counted_le = let within = ready.within in omega arith;
          },
        )
        | inr (x, e, c) ↦ inr (
          x,
          e,
          d',
          le,
          record {
            spans = c.spans;
            downloaded_eq = c.downloaded_eq;
            within = c.within;
            counter_eq = c.counter_eq;
            right = c.kept;
          },
        )
      ]
