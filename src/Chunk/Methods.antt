-- ===== src/Chunk/Methods.antt =====
-- The methods of a chunk that covers the bytes `a` to `b`.
use Prim.Native.Nat.{min}
use files_downloader_golang.Common.{ℕ, ◌+◌, ◌-◌, ◌^◌, ◌≤◌, ◌<◌, ◌≡◌, true, arith}
use files_downloader_golang.Common.Int.{ℤ, pos, ◌≤ℤ◌}
use files_downloader_golang.Common.Word.{add64-pos, sub64-pos, add64, sub64}
use files_downloader_golang.Chunk.{Chunk, size, set_downloaded, mark_completed}

-- The chunk covers the bytes `a` to `b` of a file that an int64 can measure.
pub record Spans (c : Chunk) (a b : ℕ) : Type 0 where
  pub start_eq : c.start ≡ pos a
  pub end_eq : c.end ≡ pos b
  pub ordered : a ≤ b
  pub fits : b + 1 < 2 ^ 63

pub size-Spans : (c : Chunk) (a b : ℕ) → Spans c a b → size c ≡ pos (b + 1 - a)
unfolding size
size-Spans c a b s =
    let fits = s.fits in
    let ordered = s.ordered in
    let first : sub64 (pos b) (pos a) ≡ pos (b - a) = sub64-pos b a ordered (omega arith) in
    let second : add64 (pos (b - a)) (pos 1) ≡ pos (b - a + 1) =
      add64-pos (b - a) 1 (omega arith) in
    rw (s.start_eq, s.end_eq, first, second) (ground arith)

-- Whatever count is reported, the recorded one lies between 0 and the chunk's size.
pub set_downloaded_bounds :
    (c : Chunk) (a b : ℕ) (n : ℤ)
    → Spans c a b
    → (pos 0 ≤ℤ (set_downloaded c n).downloaded)
      × ((set_downloaded c n).downloaded ≤ℤ pos (b + 1 - a))
unfolding set_downloaded
set_downloaded_bounds c a b n s = ground (arith, size-Spans c a b s)

pub set_downloaded_clamp :
    (c : Chunk) (a b n : ℕ)
    → Spans c a b
    → set_downloaded c (pos n) ≡ record c { downloaded = pos (min n (b + 1 - a)) }
unfolding set_downloaded
set_downloaded_clamp c a b n s = ground (arith, size-Spans c a b s)

pub mark_completed_lem :
    (c : Chunk) (a b : ℕ)
    → Spans c a b
    → mark_completed c ≡ record c { downloaded = pos (b + 1 - a); completed = true }
unfolding mark_completed
mark_completed_lem c a b s = ground (arith, size-Spans c a b s)
