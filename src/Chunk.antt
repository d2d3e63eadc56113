-- ===== src/Chunk.antt =====
-- pkg/engine/chunk.go: a chunk, its methods, and the division of a file into chunks.
-- The mutex of a chunk makes each method one step; a method returns the chunk that it leaves.
pub mod Methods
pub mod Tiling
use files_downloader_golang.Common.{
  ℕ, zero, suc, Bool, true, false, Option, none, some, List, [], ◌∷◌, if◌then◌else◌,
}
use files_downloader_golang.Common.Int.{ℤ, pos, pos_part, ltb_ℤ, leb_ℤ, eqb_ℤ}
use files_downloader_golang.Common.Word.{add64, sub64, mul64, quot64}

pub record Chunk : Type 0 where
  pub index : ℤ
  pub start : ℤ
  pub end : ℤ
  pub downloaded : ℤ
  pub completed : Bool
  pub retries : ℤ

-- `Size`
unfoldable pub size : Chunk → ℤ
size c = add64 (sub64 c.end c.start) (pos 1)

-- `SetDownloaded`
unfoldable pub set_downloaded : Chunk → ℤ → Chunk
set_downloaded c bytes =
    let bytes1 = if ltb_ℤ bytes (pos 0) then pos 0 else bytes in
    let bytes2 = if ltb_ℤ (size c) bytes1 then size c else bytes1 in
    record c { downloaded = bytes2 }

-- `MarkCompleted`
unfoldable pub mark_completed : Chunk → Chunk
mark_completed c = record c { downloaded = size c; completed = true }

-- `DefaultConcurrency` of options.go
abbrev pub default_concurrency : ℤ
default_concurrency = pos 8

abbrev pub min_chunk_size : ℤ
min_chunk_size = pos 2097152

abbrev pub max_chunk_size : ℤ
max_chunk_size = pos 67108864

-- The dynamic size of `CalculateChunks`; `none` is the panic of a division by zero.
unfoldable pub dynamic_size : ℤ → ℤ → Option ℤ
dynamic_size total concurrency =
    let workers = if leb_ℤ concurrency (pos 0) then default_concurrency else concurrency in
    let parts = mul64 workers (pos 4) in
    let quotient = quot64 total parts in
    let floored = if ltb_ℤ quotient min_chunk_size then min_chunk_size else quotient in
    let capped = if ltb_ℤ max_chunk_size floored then max_chunk_size else floored in
    if eqb_ℤ parts (pos 0) then none else some capped

-- The size of each chunk: the preferred one or the dynamic one, at most the file's.
unfoldable pub chunk_size : ℤ → ℤ → ℤ → Option ℤ
chunk_size total preferred concurrency =
    elim (if leb_ℤ preferred (pos 0) then dynamic_size total concurrency else some preferred) [
      | none ↦ none
      | some s ↦ some (if ltb_ℤ total s then total else s)
    ]

abbrev pub new_chunk : ℤ → ℤ → ℤ → Chunk
new_chunk index start end = record {
  index = index;
  start = start;
  end = end;
  downloaded = pos 0;
  completed = false;
  retries = pos 0;
}

abbrev pub prepend : Chunk → Option (List Chunk) → Option (List Chunk)
prepend c none = none
prepend c (some cs) = some (c ∷ cs)

-- The loop of `CalculateChunks`, on fuel; `none` means that the fuel ran out.
unfoldable pub chunks_from : ℕ → ℤ → ℤ → ℤ → ℤ → Option (List Chunk)
chunks_from zero total csize start index = none
chunks_from (suc fuel) total csize start index =
    let reach = sub64 (add64 start csize) (pos 1) in
    let end = if leb_ℤ total reach then sub64 total (pos 1) else reach in
    let rest = chunks_from fuel total csize (add64 end (pos 1)) (add64 index (pos 1)) in
    let more = prepend (new_chunk index start end) rest in
    if ltb_ℤ start total then more else some []

-- `CalculateChunks`: one round for each byte of the file is fuel enough.
unfoldable pub calculate_chunks : ℤ → ℤ → ℤ → Option (List Chunk)
calculate_chunks total preferred concurrency =
    if leb_ℤ total (pos 0) then some [] else elim (chunk_size total preferred concurrency) [
      | none ↦ none
      | some s ↦ chunks_from (suc (pos_part total)) total s (pos 0) (pos 0)
    ]
