-- ===== src/Tests/Checkpoints.antt =====
-- checkpoint.go on a file of ten bytes in chunks of four.
use files_downloader_golang.Common.{
  ◌-◌, ◌++◌, ℕ, ◌+◌, ◌≡◌, refl, ◌⊎◌, true, false, none, some, Option, List, [], ◌∷◌, ◌≤◌, ◌<◌,
  arith, map,
}
use files_downloader_golang.Common.Int.{pos}
use files_downloader_golang.Common.Word.{add64, sub64}
use files_downloader_golang.Common.Text.{Bytes, codes, text_eq, trim_by}
use files_downloader_golang.Chunk.{Chunk, new_chunk, calculate_chunks, chunks_from, chunk_size}
use files_downloader_golang.Probe.{FileInfo}
use files_downloader_golang.Checkpoint.{
  ChunkState, Checkpoint, new_checkpoint, sync_from_chunks, is_resume_valid, state_ok, states_ok,
  same_version, restore_chunks, initial_bytes,
}
use files_downloader_golang.Checkpoint.Validity.{Covers, Cover}
use files_downloader_golang.Checkpoint.Progress.{
  states_of, Aligned, held, as_restored, restore_chunks-sync_from_chunks,
}
use files_downloader_golang.Checkpoint.Storage.{
  Answers, cut, SaveError, save, load_checkpoint, save_atomic,
}

abbrev info : FileInfo
info = record {
  url = codes "http://a/f";
  final_url = codes "http://a/f";
  filename = codes "f";
  content_length = pos 10;
  accept_ranges = true;
  etag = codes "\"v1\"";
  last_modified = none;
  content_type = [];
  status_code = pos 200;
}

abbrev fresh_chunks : List Chunk
fresh_chunks =
    new_chunk (pos 0) (pos 0) (pos 3)
    ∷ new_chunk (pos 1) (pos 4) (pos 7)
    ∷ new_chunk (pos 2) (pos 8) (pos 9)
    ∷ []

calculate_fresh : calculate_chunks (pos 10) (pos 4) (pos 2) ≡ some fresh_chunks
unfolding calculate_chunks chunk_size chunks_from add64 sub64
calculate_fresh = refl

abbrev fresh : Checkpoint
fresh = new_checkpoint info fresh_chunks (pos 4)

-- The first chunk is done and the second has one byte.
abbrev chunks_now : List Chunk
chunks_now =
    record (new_chunk (pos 0) (pos 0) (pos 3)) { downloaded = pos 4; completed = true }
    ∷ record (new_chunk (pos 1) (pos 4) (pos 7)) { downloaded = pos 1; retries = pos 2 }
    ∷ new_chunk (pos 2) (pos 8) (pos 9)
    ∷ []

entry :
    (i s e d : ℕ) (st : ChunkState)
    → st.index ≡ pos i
    → st.start ≡ pos s
    → st.end ≡ pos e
    → st.downloaded ≡ pos d
    → s ≤ e
    → e < 10
    → d ≤ e + 1 - s
    → (st.completed ≡ true → d ≡ e + 1 - s)
    → Covers 10 i s e d st
entry i s e d st h1 h2 h3 h4 h5 h6 h7 h8 = record {
  index_eq = h1;
  start_eq = h2;
  end_eq = h3;
  downloaded_eq = h4;
  ordered = h5;
  inside = h6;
  counted = h7;
  whole = h8;
}

now-Cover : Cover 10 0 0 (states_of chunks_now)
now-Cover = (
  3,
  4,
  entry 0 0 3 4 _ refl refl refl refl (omega arith) (omega arith) (omega arith) (λ c. omega arith),
  (
    7,
    1,
    entry 1 4 7 1 _ refl refl refl refl (omega arith) (omega arith) (omega arith) (λ c. cc),
    (
      9,
      0,
      entry 2 8 9 0 _ refl refl refl refl (omega arith) (omega arith) (omega arith) (λ c. cc),
      refl,
    ),
  ),
)

now-Aligned : Aligned fresh.chunks chunks_now
unfolding new_checkpoint
now-Aligned = (refl, refl, refl, (refl, refl, refl, (refl, refl, refl, tt)))

restore_chunks-sync_from_chunks_example :
    (cp : Checkpoint) × (sync_from_chunks fresh chunks_now ≡ some cp)
    × (restore_chunks cp.chunks ≡ some (map as_restored chunks_now))
    × (initial_bytes (map as_restored chunks_now) (pos 0) ≡ cp.completed_size)
    × (held chunks_now ≤ 10)
restore_chunks-sync_from_chunks_example =
    restore_chunks-sync_from_chunks fresh chunks_now 10 (omega arith) now-Aligned now-Cover

-- A gap between two entries is refused, and so is a changed length.
gap_refused :
    is_resume_valid (record fresh { chunks = fresh.chunks ++ fresh.chunks }) (some info) ≡ false
unfolding new_checkpoint is_resume_valid same_version text_eq trim_by states_ok state_ok add64 sub64
gap_refused = refl

-- A codec that knows one checkpoint.
abbrev encode : Checkpoint → Option Bytes
encode cp = some (codes "{}")

abbrev decode : Bytes → Option Checkpoint
decode s = some fresh

abbrev cut_off : Answers
cut_off = record { makes_dir = true; write_end = cut 1; renames = true; removes = true }

save_atomic_example :
    let (error, fs) = save encode decode cut_off (λ p. none) (codes "s") fresh in
    ((e : SaveError) × (error ≡ some e) × (fs (codes "s") ≡ none))
    ⊎ ((error ≡ none) × (load_checkpoint encode decode fs (codes "s") ≡ some fresh))
save_atomic_example =
    save_atomic encode decode cut_off (λ p. none) (codes "s") fresh (λ content e. refl)
