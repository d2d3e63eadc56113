-- ===== src/Sink/Start.antt =====
-- What holds before the first step of a pool.
use files_downloader_golang.Common.{
  ℕ, zero, suc, ◌+◌, ◌^◌, ◌≤◌, ◌<◌, ◌≡◌, refl, sym, subst, ◌∙◌, ap, some, List, [], ◌∷◌, get_elem?,
  arith, inl, length, if◌then◌else◌, if_case,
}
use files_downloader_golang.Common.Int.{ℤ, pos, pos_part, ltb_ℤ}
use files_downloader_golang.Common.Word.{add64-pos}
use files_downloader_golang.Chunk.{Chunk}
use files_downloader_golang.Chunk.Tiling.{Tiles}
use files_downloader_golang.Progress.{Tracker, new_tracker, add_bytes}
use files_downloader_golang.Checkpoint.{initial_bytes}
use files_downloader_golang.Checkpoint.Validity.{Cover, Tiles-Cover}
use files_downloader_golang.Checkpoint.Progress.{states_of, held, held-le, initial_bytes-held}
use files_downloader_golang.Sink.Pool.{start_pool, first_tracker, count_completed}
use files_downloader_golang.Sink.Table.{some-injective}
use files_downloader_golang.Sink.Safety.{Sound}

count_completed-bytes :
    (cs : List Chunk) (t : Tracker) → (count_completed cs t).downloaded_bytes ≡ t.downloaded_bytes
unfolding count_completed
count_completed-bytes [] t = refl
count_completed-bytes (c ∷ cs) t =
    count_completed-bytes cs _
    ∙ if_case (λ (u : Tracker). u.downloaded_bytes ≡ t.downloaded_bytes) c.completed refl refl

-- The tracker that counts `z` bytes from the start shows `h`.
abbrev Counts : ℤ → ℕ → ℕ → ℤ → Type 0
Counts total count h z =
    let t = new_tracker total (pos count) in
    (if ltb_ℤ (pos 0) z then add_bytes t z else t).downloaded_bytes ≡ pos h

add_bytes-new : (total : ℤ) (count h : ℕ) → h < 2 ^ 63 → Counts total count h (pos h)
unfolding add_bytes
add_bytes-new total count zero lt = ground arith
add_bytes-new total count (suc h) lt = ground (arith, add64-pos 0 (suc h) (omega arith))

first_tracker-held :
    (total : ℕ) (cs : List Chunk)
    → total < 2 ^ 63
    → Cover total 0 0 (states_of cs)
    → (first_tracker (pos total) cs).downloaded_bytes ≡ pos (held cs)
unfolding first_tracker
first_tracker-held total cs lt cover =
    let all : initial_bytes cs (pos 0) ≡ pos (held cs) =
      initial_bytes-held total 0 0 0 cs lt (omega arith) (omega arith) cover
      ∙ ap pos (omega arith) in
    let le = held-le total 0 0 cs cover in
    count_completed-bytes cs _
    ∙ subst (Counts (pos total) (length cs) (held cs)) (sym all)
        (add_bytes-new (pos total) (length cs) (held cs) (omega arith))

-- A pool over chunks that tile the file and hold what they say is sound.
pub start_pool-Sound :
    (content disk : ℕ → ℕ) (total : ℕ) (fits : total < 2 ^ 62) (workers : ℕ) (chunks : List Chunk)
    → Cover total 0 0 (states_of chunks)
    → ((k x : ℕ) (c : Chunk)
        → get_elem? chunks k ≡ some c
        → pos_part c.start ≤ x
        → x < pos_part c.start + pos_part c.downloaded
        → disk x ≡ content x)
    → Sound content disk total fits (start_pool workers (pos total) chunks disk)
unfolding start_pool
start_pool-Sound content disk total fits workers chunks cover on_disk = record {
  cover = cover;
  on_disk = on_disk;
  safe = λ x. inl refl;
  count = held chunks;
  counter_eq = first_tracker-held total chunks (omega arith) cover;
  count_le = omega arith;
}

pub Tiles-empty :
    (n total i s k : ℕ) (cs : List Chunk) (c : Chunk)
    → Tiles n total i s cs
    → get_elem? cs k ≡ some c
    → c.downloaded ≡ pos 0
Tiles-empty n total i s k [] c t found = absurd cc
Tiles-empty n total i s zero (x ∷ cs) c (more, e, t) found =
    ap (λ (y : Chunk). y.downloaded) (sym (some-injective found) ∙ e)
Tiles-empty n total i s (suc k) (x ∷ cs) c (more, e, t) found =
    Tiles-empty n total (i + 1) _ k cs c t found

-- A pool over the chunks that a new download starts from is sound.
pub fresh_pool-Sound :
    (content disk : ℕ → ℕ) (total : ℕ) (fits : total < 2 ^ 62) (workers n : ℕ) (chunks : List Chunk)
    → 1 ≤ n
    → Tiles n total 0 0 chunks
    → Sound content disk total fits (start_pool workers (pos total) chunks disk)
fresh_pool-Sound content disk total fits workers n chunks lo tiles =
    start_pool-Sound content disk total fits workers chunks
      (Tiles-Cover n total 0 0 chunks lo tiles)
      (λ k x c found le lt.
        let none_held = ap pos_part (Tiles-empty n total 0 0 k chunks c tiles found) in
        absurd (omega arith))
