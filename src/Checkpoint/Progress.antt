-- ===== src/Checkpoint/Progress.antt =====
-- `SyncFromChunks`, and the chunks that a resumed download starts from.
use files_downloader_golang.Common.{
  ℕ, suc, sym, length-map, ◌+◌, ◌^◌, ◌≤◌, ◌<◌, ◌≡◌, refl, ◌∙◌, ap, true, Option, none, some, List,
  [], ◌∷◌, arith, map, length,
}
use files_downloader_golang.Common.Int.{ℤ, pos, pos_part}
use files_downloader_golang.Common.Word.{add64, add64-pos}
use files_downloader_golang.Chunk.{Chunk}
use files_downloader_golang.Probe.{FileInfo}
use files_downloader_golang.Checkpoint.Validity.{Cover, is_resume_valid-Agrees}
use files_downloader_golang.Checkpoint.{
  ChunkState, Checkpoint, state_of, sync_states, sync_from_chunks, is_resume_valid, restore_chunks,
  initial_bytes,
}

abbrev pub states_of : List Chunk → List (Option ChunkState)
states_of = map λ ch. some (state_of ch)

-- The entries are about the same ranges as the chunks.
abbrev pub Aligned : List (Option ChunkState) → List Chunk → Type 0
Aligned [] [] = Unit
Aligned (some st ∷ sts) (c ∷ cs) =
    (st.index ≡ c.index) × (st.start ≡ c.start) × (st.end ≡ c.end) × Aligned sts cs
Aligned _ _ = ⊥

-- The bytes that the chunks hold, as an exact sum.
abbrev pub held : List Chunk → ℕ
held [] = 0
held (c ∷ cs) = pos_part c.downloaded + held cs

-- Chunks that tile the rest of the file hold at most the bytes of it.
pub held-le :
    (total i s : ℕ) (cs : List Chunk) → Cover total i s (states_of cs) → held cs + s ≤ total
held-le total i s [] c = omega arith
held-le total i s (ch ∷ cs) (e, d, c, rest) =
    let later = held-le total (i + 1) (e + 1) cs rest in
    let now : pos_part ch.downloaded ≡ d = ap pos_part c.downloaded_eq in
    let counted = c.counted in let ordered = c.ordered in omega arith

sync_states-states_of :
    (total i s n : ℕ) (sts : List (Option ChunkState)) (cs : List Chunk)
    → total < 2 ^ 63
    → n ≤ s
    → s ≤ total
    → Aligned sts cs
    → Cover total i s (states_of cs)
    → sync_states sts cs (pos n) ≡ some (states_of cs, pos (n + held cs))
unfolding sync_states
sync_states-states_of total i s n [] [] h k b a c = ground arith
sync_states-states_of total i s n [] (ch ∷ cs) h k b a c = absurd a
sync_states-states_of total i s n (none ∷ sts) cs h k b a c = absurd a
sync_states-states_of total i s n (some st ∷ sts) [] h k b a c = absurd a
sync_states-states_of total i s n (some st ∷ sts) (ch ∷ cs) h k b (i_eq, s_eq, e_eq, a)
      (e, d, c, rest) =
    let counted = c.counted in
    let inside = c.inside in
    let ordered = c.ordered in
    let start : s ≤ e = ordered in
    let sum : add64 (pos n) (pos d) ≡ pos (n + d) = add64-pos n d (omega arith) in
    let later =
      sync_states-states_of total (i + 1) (e + 1) (n + d) sts cs h (omega arith) (omega arith) a
        rest in
    ground (arith, c.downloaded_eq)

-- While the chunks tile the file, `SyncFromChunks` never meets a nil entry: it leaves exactly the
-- chunks' present states, their exact total as the completed size, and the rest as it was.
pub sync_from_chunks_lem :
    (cp : Checkpoint) (cs : List Chunk) (total : ℕ)
    → total < 2 ^ 63
    → Aligned cp.chunks cs
    → Cover total 0 0 (states_of cs)
    → sync_from_chunks cp cs
      ≡ some (record cp { chunks = states_of cs; completed_size = pos (held cs) })
unfolding sync_from_chunks
sync_from_chunks_lem cp cs total h a c =
    ground (arith, sync_states-states_of total 0 0 0 cp.chunks cs h (omega arith) (omega arith) a c)

length-Aligned :
    (sts : List (Option ChunkState)) (cs : List Chunk) → Aligned sts cs → length sts ≡ length cs
length-Aligned [] [] a = refl
length-Aligned [] (ch ∷ cs) a = absurd a
length-Aligned (none ∷ sts) cs a = absurd a
length-Aligned (some st ∷ sts) [] a = absurd a
length-Aligned (some st ∷ sts) (ch ∷ cs) (x, y, z, a) = ap suc (length-Aligned sts cs a)

-- A valid checkpoint that is synced in the course of its download is valid again.
pub sync_from_chunks-is_resume_valid :
    (cp : Checkpoint) (info : FileInfo) (cs : List Chunk) (total : ℕ)
    → 1 ≤ total
    → total < 2 ^ 63
    → cp.content_length ≡ pos total
    → is_resume_valid cp (some info) ≡ true
    → Aligned cp.chunks cs
    → Cover total 0 0 (states_of cs)
    → (cp' : Checkpoint) × (sync_from_chunks cp cs ≡ some cp')
      × (is_resume_valid cp' (some info) ≡ true)
sync_from_chunks-is_resume_valid cp info cs total lo h e valid a c =
    let cp' = record cp { chunks = states_of cs; completed_size = pos (held cs) } in
    let (agrees, old) = (is_resume_valid-Agrees cp info total lo h e).0 valid in
    let (e1, e2, ranges, version, count) = agrees in
    (
      cp',
      sync_from_chunks_lem cp cs total h a c,
      (is_resume_valid-Agrees cp' info total lo h e).1 (
        (
          e1,
          e2,
          ranges,
          version,
          count ∙ ap pos (length-Aligned cp.chunks cs a ∙ sym (length-map cs _)),
        ),
        c,
      ),
    )

-- Chunks as a new process starts with them: the retry counts are not saved.
abbrev pub as_restored : Chunk → Chunk
as_restored c = record c { retries = pos 0 }

pub restore_chunks-states_of :
    (cs : List Chunk) → restore_chunks (states_of cs) ≡ some (map as_restored cs)
unfolding restore_chunks
restore_chunks-states_of [] = refl
restore_chunks-states_of (c ∷ cs) = rw (restore_chunks-states_of cs)

pub initial_bytes-held :
    (total i s n : ℕ) (cs : List Chunk)
    → total < 2 ^ 63
    → n ≤ s
    → s ≤ total
    → Cover total i s (states_of cs)
    → initial_bytes cs (pos n) ≡ pos (n + held cs)
unfolding initial_bytes
initial_bytes-held total i s n [] h k b c = ground arith
initial_bytes-held total i s n (ch ∷ cs) h k b (e, d, c, rest) =
    let counted = c.counted in
    let inside = c.inside in
    let ordered = c.ordered in
    let sum : add64 (pos n) (pos d) ≡ pos (n + d) = add64-pos n d (omega arith) in
    let later =
      initial_bytes-held total (i + 1) (e + 1) (n + d) cs h (omega arith) (omega arith) rest in
    ground (arith, c.downloaded_eq)

initial_bytes-as_restored :
    (cs : List Chunk) (n : ℤ) → initial_bytes (map as_restored cs) n ≡ initial_bytes cs n
unfolding initial_bytes
initial_bytes-as_restored [] n = refl
initial_bytes-as_restored (c ∷ cs) n = initial_bytes-as_restored cs (add64 n c.downloaded)

pub states_of-as_restored : (cs : List Chunk) → states_of (map as_restored cs) ≡ states_of cs
states_of-as_restored [] = refl
states_of-as_restored (c ∷ cs) = ap (λ sts. some (state_of c) ∷ sts) (states_of-as_restored cs)

-- What is synced is what a resumed download starts from: the same chunks, at the same offsets, and
-- with the completed size of the checkpoint as the bytes held, which is at most the file's size.
pub restore_chunks-sync_from_chunks :
    (cp : Checkpoint) (cs : List Chunk) (total : ℕ)
    → total < 2 ^ 63
    → Aligned cp.chunks cs
    → Cover total 0 0 (states_of cs)
    → (cp' : Checkpoint) × (sync_from_chunks cp cs ≡ some cp')
      × (restore_chunks cp'.chunks ≡ some (map as_restored cs))
      × (initial_bytes (map as_restored cs) (pos 0) ≡ cp'.completed_size)
      × (held cs ≤ total)
restore_chunks-sync_from_chunks cp cs total h a c = (
  record cp { chunks = states_of cs; completed_size = pos (held cs) },
  sync_from_chunks_lem cp cs total h a c,
  restore_chunks-states_of cs,
  initial_bytes-as_restored cs (pos 0)
      ∙ initial_bytes-held total 0 0 0 cs h (omega arith) (omega arith) c
      ∙ ap pos (omega arith),
  omega (arith, held-le total 0 0 cs c),
)
