-- ===== src/Tests/Chunks.antt =====
-- chunk.go on small files.
use files_downloader_golang.Common.{◌≡◌, refl, some, List, [], ◌∷◌, arith}
use files_downloader_golang.Common.Int.{pos, negsuc}
use files_downloader_golang.Common.Word.{add64, sub64}
use files_downloader_golang.Chunk.{Chunk, new_chunk, chunk_size, chunks_from, calculate_chunks}
use files_downloader_golang.Chunk.Tiling.{
  Tiles, holders, calculate_chunks-Tiles, calculate_chunks_covers,
}

-- A file of ten bytes in chunks of four.
abbrev ten_bytes : List Chunk
ten_bytes =
    new_chunk (pos 0) (pos 0) (pos 3)
    ∷ new_chunk (pos 1) (pos 4) (pos 7)
    ∷ new_chunk (pos 2) (pos 8) (pos 9)
    ∷ []

calculate_ten_bytes : calculate_chunks (pos 10) (pos 4) (pos 2) ≡ some ten_bytes
unfolding calculate_chunks chunk_size chunks_from add64 sub64
calculate_ten_bytes = refl

calculate_empty : calculate_chunks (negsuc 4) (pos 4) (pos 2) ≡ some []
unfolding calculate_chunks
calculate_empty = refl

calculate_chunks-Tiles_example :
    Tiles
      (calculate_chunks-Tiles 10 (pos 4) (pos 2) (omega arith) (omega arith) (omega arith)).1
      10
      0
      0
      (calculate_chunks-Tiles 10 (pos 4) (pos 2) (omega arith) (omega arith) (omega arith)).0
calculate_chunks-Tiles_example =
    (calculate_chunks-Tiles 10 (pos 4) (pos 2) (omega arith) (omega arith) (omega arith)).4

calculate_chunks_covers_example : holders 9 ten_bytes ≡ 1
calculate_chunks_covers_example =
    calculate_chunks_covers 10 9 (pos 4) (pos 2) ten_bytes (omega arith) (omega arith) (omega arith)
      calculate_ten_bytes
