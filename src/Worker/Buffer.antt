-- ===== src/Worker/Buffer.antt =====
-- The destination of stream_sink.go: a new `bytes.Buffer` for each attempt.
use files_downloader_golang.Common.{
  ℕ, zero, suc, ◌+◌, ◌-◌, ◌^◌, ◌≤◌, ◌<◌, ◌≡◌, refl, ap, ap₂, ◌∙◌, ◌⊎◌, true, none, some, [], ◌∷◌,
  ◌++◌, length, arith, inl, inr,
}
use files_downloader_golang.Common.Int.{pos}
use files_downloader_golang.Common.Text.{Bytes}
use files_downloader_golang.Chunk.{Chunk}
use files_downloader_golang.Chunk.Methods.{Spans}
use files_downloader_golang.Worker.{
  Error, Response, response, check_response, Round, Job, WorkerOptions,
}
use files_downloader_golang.Worker.Retry.{download_chunk, rounds}
use files_downloader_golang.Worker.Content.{Matches, HonestReply}
use files_downloader_golang.Worker.Delivery.{Delivered, download_from-Ended}

-- `bytes.Buffer.Write`
unfoldable pub put_buffer : Bytes → Bytes → Bytes
put_buffer buf bs = buf ++ bs

-- `destFactory`: an empty buffer, whatever the chunk has downloaded already.
unfoldable pub buffer_factory : Chunk → Bytes → Bytes
buffer_factory c buf = []

-- The `n` bytes of the file from offset `r` on.
abbrev pub slice : (ℕ → ℕ) → ℕ → ℕ → Bytes
slice content r zero = []
slice content r (suc n) = content r ∷ slice content (r + 1) n

length-slice : (content : ℕ → ℕ) (r n : ℕ) → length (slice content r n) ≡ n
length-slice content r zero = refl
length-slice content r (suc n) = ap suc (length-slice content (r + 1) n)

Matches-slice :
    (content : ℕ → ℕ) (p : ℕ) (bs : Bytes) → Matches content p bs → bs ≡ slice content p (length bs)
Matches-slice content p [] match = refl
Matches-slice content p (b ∷ bs) (e, match) = ap₂ ◌∷◌ e (Matches-slice content (p + 1) bs match)

slice-Matches :
    (content : ℕ → ℕ) (r n p : ℕ) (bs : Bytes)
    → r + n ≡ p
    → Matches content p bs
    → slice content r n ++ bs ≡ slice content r (n + length bs)
slice-Matches content r zero p bs e match =
    let r_eq : p ≡ r = omega arith in
    let n_eq : length bs ≡ 0 + length bs = omega arith in
    Matches-slice content p bs match ∙ ap₂ (slice content) r_eq n_eq
slice-Matches content r (suc n) p bs e match =
    let n_eq : suc (n + length bs) ≡ suc n + length bs = omega arith in
    ap (◌∷◌ (content r)) (slice-Matches content (r + 1) n p bs (omega arith) match)
    ∙ ap (slice content r) n_eq

module _ (content : ℕ → ℕ) (total a b m : ℕ) (inside : b < total) (fits : total ≤ 2 ^ 62)
    (counter_fits : m + total < 2 ^ 63) where
  abbrev Holds : ℕ → ℕ → Bytes → Type 0
  Holds r p buf = (n : ℕ) × (r + n ≡ p) × (buf ≡ slice content r n)

  abbrev Kept : ℕ → Bytes → Type 0
  Kept d buf = Unit

  put_buffer-Holds :
      (r p : ℕ) (buf bs : Bytes)
      → Matches content p bs
      → Holds r p buf
      → Holds r (p + length bs) (put_buffer buf bs)
  unfolding put_buffer
  put_buffer-Holds r p buf bs match (n, e, same) =
      (n + length bs, omega arith, ap (λ x. x ++ bs) same ∙ slice-Matches content r n p bs e match)

  buffer_factory-Holds :
      (c : Chunk) (d : ℕ) (buf : Bytes)
      → Spans c a b
      → c.downloaded ≡ pos d
      → d ≤ b + 1 - a
      → Kept d buf
      → Holds (a + d) (a + d) (buffer_factory c buf)
  unfolding buffer_factory
  buffer_factory-Holds c d buf s e le k = (0, omega arith, refl)

  -- The chunk is complete: some bytes were left behind the first `d`, in some round a request for
  -- these was answered, and the answer was accepted; the buffer holds these bytes, and only these
  -- were added to the tracker's count.
  pub record Collected (env : ℕ → Round) (d : ℕ) (j : Job Bytes) : Type 0 where
    pub some_left : a + d ≤ b
    pub answered :
        (k : ℕ) × (r : Response) × ((env k).reply (pos (a + d)) (pos b) ≡ response r)
        × (check_response (pos (a + d)) (pos b) r ≡ none)
    pub buffer_eq : j.dest ≡ slice content (a + d) (b + 1 - (a + d))
    pub counter_eq : j.tracker.downloaded_bytes ≡ pos (m + (b + 1 - a - d))
    pub downloaded_eq : j.chunk.downloaded ≡ pos (b + 1 - a)
    pub completed_eq : j.chunk.completed ≡ true

  -- The job stands before an attempt, with `d` bytes of the chunk downloaded and `m` counted.
  pub record Pending (d : ℕ) (j : Job Bytes) : Type 0 where
    pub spans : Spans j.chunk a b
    pub downloaded_eq : j.chunk.downloaded ≡ pos d
    pub within : d ≤ b + 1 - a
    pub counter_eq : j.tracker.downloaded_bytes ≡ pos m

  Delivered-Collected :
      (env : ℕ → Round) (d : ℕ) (j : Job Bytes)
      → Delivered put_buffer buffer_factory content total Holds Kept put_buffer-Holds a b m inside
          fits counter_fits
          (λ r p d buf le h. tt)
          buffer_factory-Holds
          env
          d
          j
      → Collected env d j
  Delivered-Collected env d j c =
      let (n, e, same) = c.holds in
      let n_eq : n ≡ b + 1 - (a + d) = omega arith in
      let (k, (r, given, checked)) = c.answered in
      record {
        some_left = c.some_left;
        answered = (k, r, given, checked);
        buffer_eq = same ∙ ap (slice content (a + d)) n_eq;
        counter_eq = c.counter_eq;
        downloaded_eq = c.downloaded_eq;
        completed_eq = c.completed_eq;
      }

  -- A chunk's download into a buffer, against a server where a 200 carries the file from its start
  -- and a 206 the file from where its `Content-Range` starts. On success there is a `d'`, at least the
  -- `d` bytes downloaded before, such that some of the chunk's bytes are behind the first `d'`, a
  -- request for these was answered in some round, and the answer passed the checks; the buffer holds,
  -- in order, exactly these bytes of the file. On an error the tracker counts what it counted before.
  pub download_chunk_to_buffer :
      (opts : WorkerOptions) (env : ℕ → Round) (d : ℕ) (j : Job Bytes)
      → ((k r : ℕ) → HonestReply content total ((env k).reply (pos r) (pos b)))
      → Pending d j
      → let (failure, j') = download_chunk put_buffer buffer_factory opts env j in
        (d' : ℕ) × (d ≤ d')
        × (((failure ≡ none) × Collected env d' j')
            ⊎ ((e : Error) × (failure ≡ some e) × Pending d' j'))
  unfolding download_chunk
  download_chunk_to_buffer opts env d j honest ready =
      let (d', le, end) =
        download_from-Ended put_buffer buffer_factory content total Holds Kept put_buffer-Holds a b
          m inside fits counter_fits (λ r p d buf le h. tt) buffer_factory-Holds opts env
          (rounds opts.max_retries) 0 d none j honest
          (record {
            spans = ready.spans;
            downloaded_eq = ready.downloaded_eq;
            within = ready.within;
            counter_eq = ready.counter_eq;
            kept = tt;
          }) in
      (
        d',
        le,
        elim end [
          | inl (e, c) ↦ inl (e, Delivered-Collected env d' _ c)
          | inr (x, e, c) ↦ inr (
            x,
            e,
            record {
              spans = c.spans;
              downloaded_eq = c.downloaded_eq;
              within = c.within;
              counter_eq = c.counter_eq;
            },
          )
        ],
      )
