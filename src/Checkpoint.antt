-- ===== src/Checkpoint.antt =====
-- pkg/engine/checkpoint.go: the saved progress of a download.
pub mod Validity
pub mod Progress
pub mod Storage
use files_downloader_golang.Common.{
  ℕ, suc, Bool, true, false, not, ◌&&◌, ◌||◌, Option, none, some, List, [], ◌∷◌, ◌++◌, map, length,
  ◌==◌, if◌then◌else◌,
}
use files_downloader_golang.Common.Int.{ℤ, pos, ltb_ℤ, leb_ℤ, eqb_ℤ}
use files_downloader_golang.Common.Word.{add64, sub64}
use files_downloader_golang.Common.Text.{Bytes, codes, text_eq, trim_by}
use files_downloader_golang.Chunk.{Chunk}
use files_downloader_golang.Probe.{FileInfo}

pub record ChunkState : Type 0 where
  pub index : ℤ
  pub start : ℤ
  pub end : ℤ
  pub downloaded : ℤ
  pub completed : Bool

-- A chunk entry is a pointer, and is `nil` where the file says `null`.
pub record Checkpoint : Type 0 where
  pub url : Bytes
  pub final_url : Bytes
  pub filename : Bytes
  pub content_length : ℤ
  pub etag : Bytes
  pub last_modified : Bytes
  pub accept_ranges : Bool
  pub chunk_size : ℤ
  pub total_chunks : ℤ
  pub completed_size : ℤ
  pub chunks : List (Option ChunkState)

-- `GetDefaultStatePath`
pub default_state_path : Bytes → Bytes
default_state_path dest_path = dest_path ++ codes ".dlstate.json"

abbrev pub state_of : Chunk → ChunkState
state_of ch = record {
  index = ch.index;
  start = ch.start;
  end = ch.end;
  downloaded = ch.downloaded;
  completed = ch.completed;
}

-- `NewCheckpoint`
unfoldable pub new_checkpoint : FileInfo → List Chunk → ℤ → Checkpoint
new_checkpoint info chunks csize = record {
  url = info.url;
  final_url = info.final_url;
  filename = info.filename;
  content_length = info.content_length;
  etag = info.etag;
  last_modified = elim info.last_modified [ none ↦ [] | some t ↦ t ];
  accept_ranges = info.accept_ranges;
  chunk_size = csize;
  total_chunks = pos (length chunks);
  completed_size = pos 0;
  chunks = map (λ ch. some (state_of ch)) chunks;
}

abbrev pub keep_state :
    ChunkState → Option (List (Option ChunkState) × ℤ) → Option (List (Option ChunkState) × ℤ)
keep_state st none = none
keep_state st (some (sts, total)) = some (some st ∷ sts, total)

-- The loop of `SyncFromChunks`; `none` is the panic at a nil entry.
unfoldable pub sync_states :
    List (Option ChunkState) → List Chunk → ℤ → Option (List (Option ChunkState) × ℤ)
sync_states sts [] total = some (sts, total)
sync_states [] (ch ∷ chs) total = some ([], total)
sync_states (none ∷ sts) (ch ∷ chs) total = none
sync_states (some st ∷ sts) (ch ∷ chs) total =
    keep_state (record st { downloaded = ch.downloaded; completed = ch.completed })
      (sync_states sts chs (add64 total ch.downloaded))

-- `SyncFromChunks`
unfoldable pub sync_from_chunks : Checkpoint → List Chunk → Option Checkpoint
sync_from_chunks cp chunks = elim (sync_states cp.chunks chunks (pos 0)) [
  | none ↦ none
  | some (sts, total) ↦ some (record cp { chunks = sts; completed_size = total })
]

abbrev is_quote : ℕ → Bool
is_quote c = c == b'"'

-- The test of one entry in `IsResumeValid`, at its position and the expected start.
unfoldable pub state_ok : ℤ → ℤ → ℤ → ChunkState → Bool
state_ok content_length i expected st =
    let space = add64 (sub64 st.end st.start) (pos 1) in
    eqb_ℤ st.index i
    && eqb_ℤ st.start expected
    && not (ltb_ℤ st.end st.start)
    && not (leb_ℤ content_length st.end)
    && not (ltb_ℤ st.downloaded (pos 0))
    && not (ltb_ℤ space st.downloaded)
    && not (st.completed && not (eqb_ℤ st.downloaded space))

-- The loop of `IsResumeValid`, and the comparison behind it.
unfoldable pub states_ok : ℤ → ℤ → ℤ → List (Option ChunkState) → Bool
states_ok content_length i expected [] = eqb_ℤ expected content_length
states_ok content_length i expected (none ∷ sts) = false
states_ok content_length i expected (some st ∷ sts) =
    state_ok content_length i expected st
    && states_ok content_length (add64 i (pos 1)) (add64 st.end (pos 1)) sts

-- The stored validators that are present agree with the fresh ones.
unfoldable pub same_version : Checkpoint → FileInfo → Bool
same_version cp info =
    let stored = trim_by is_quote cp.etag in
    let fresh = trim_by is_quote info.etag in
    (text_eq stored [] || text_eq stored fresh)
    && (text_eq cp.last_modified []
        || elim info.last_modified [ none ↦ true | some t ↦ text_eq cp.last_modified t ])

-- `IsResumeValid`
unfoldable pub is_resume_valid : Checkpoint → Option FileInfo → Bool
is_resume_valid cp none = false
is_resume_valid cp (some info) =
    info.accept_ranges
    && not (leb_ℤ cp.content_length (pos 0))
    && eqb_ℤ cp.content_length info.content_length
    && same_version cp info
    && not (length cp.chunks == 0)
    && eqb_ℤ cp.total_chunks (pos (length cp.chunks))
    && states_ok cp.content_length (pos 0) (pos 0) cp.chunks

-- The chunks that a resumed download starts from (fd_sink.go); `none` is the panic at a nil entry.
unfoldable pub restore_chunks : List (Option ChunkState) → Option (List Chunk)
restore_chunks [] = some []
restore_chunks (none ∷ sts) = none
restore_chunks (some st ∷ sts) = elim (restore_chunks sts) [
  | none ↦ none
  | some chs ↦ some (
      record {
        index = st.index;
        start = st.start;
        end = st.end;
        downloaded = st.downloaded;
        completed = st.completed;
        retries = pos 0;
      }
      ∷ chs)
]

-- The bytes that the restored chunks hold already.
unfoldable pub initial_bytes : List Chunk → ℤ → ℤ
initial_bytes [] total = total
initial_bytes (ch ∷ chs) total = initial_bytes chs (add64 total ch.downloaded)
