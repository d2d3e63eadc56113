-- ===== src/Chunk/Tiling.antt =====
-- `CalculateChunks` cuts the file into consecutive chunks without gap or overlap.
use Prim.Native.Nat.{min, max}
use native.Mathlib.Decide.{dec_lt}
use files_downloader_golang.Common.{
  ℕ, zero, suc, ◌+◌, ◌-◌, ◌*◌, ◌/◌, ◌^◌, ◌≤◌, ◌<◌, ◌≡◌, refl, ◌∙◌, ap, Bool, ◌&&◌, some, ltb, leb,
  List, [], ◌∷◌, if◌then◌else◌, arith,
}
use files_downloader_golang.Common.Int.{ℤ, pos, negsuc, leb_ℤ, ◌≤ℤ◌}
use files_downloader_golang.Common.Word.{
  add64, sub64, mul64, quot64, add64-pos, sub64-pos, mul64-pos,
}
use files_downloader_golang.Chunk.{
  Chunk, new_chunk, default_concurrency, dynamic_size, chunk_size, chunks_from, calculate_chunks,
}

-- The chunks of `n` bytes from index `i` and offset `s` on: each starts where the one before it
-- ended, and only the last may be shorter.
abbrev pub Tiles : ℕ → ℕ → ℕ → ℕ → List Chunk → Type 0
Tiles n total i s [] = s ≡ total
Tiles n total i s (c ∷ cs) =
    (s < total)
    × (c ≡ new_chunk (pos i) (pos s) (pos (min (s + n) total - 1)))
    × Tiles n total (i + 1) (min (s + n) total) cs

-- The end that one round of the loop computes, in exact arithmetic.
round_end :
    (n total s : ℕ)
    → 1 ≤ n
    → n ≤ total
    → s < total
    → total ≤ 2 ^ 62
    → (if leb_ℤ (pos total) (sub64 (add64 (pos s) (pos n)) (pos 1))
        then sub64 (pos total) (pos 1)
        else sub64 (add64 (pos s) (pos n)) (pos 1))
      ≡ pos (min (s + n) total - 1)
round_end n total s h1 h2 h3 h4 =
    let sum : add64 (pos s) (pos n) ≡ pos (s + n) = add64-pos s n (omega arith) in
    let reach : sub64 (pos (s + n)) (pos 1) ≡ pos (s + n - 1) =
      sub64-pos (s + n) 1 (omega arith) (omega arith) in
    let last : sub64 (pos total) (pos 1) ≡ pos (total - 1) =
      sub64-pos total 1 (omega arith) (omega arith) in
    rw (sum, reach, last) (ground arith)

chunks_from-Tiles :
    (fuel n total s i : ℕ)
    → 1 ≤ n
    → n ≤ total
    → total ≤ 2 ^ 62
    → s ≤ total
    → i ≤ s
    → total < fuel + s
    → (cs : List Chunk) × (chunks_from fuel (pos total) (pos n) (pos s) (pos i) ≡ some cs)
      × Tiles n total i s cs
unfolding chunks_from
chunks_from-Tiles zero n total s i h1 h2 h3 h4 h5 h6 = absurd (omega arith)
chunks_from-Tiles (suc fuel) n total s i h1 h2 h3 h4 h5 h6 = elim (dec_lt s total) [
  | yes more ↦
      let next = min (s + n) total in
      let (cs, run, tiles) =
        chunks_from-Tiles fuel n total next (i + 1) h1 h2 h3 (omega arith) (omega arith)
          (omega arith) in
      let step : add64 (pos (next - 1)) (pos 1) ≡ pos next =
        add64-pos (next - 1) 1 (omega arith) ∙ ap pos (omega arith) in
      let count : add64 (pos i) (pos 1) ≡ pos (i + 1) = add64-pos i 1 (omega arith) in
      (
        new_chunk (pos i) (pos s) (pos (next - 1)) ∷ cs,
        rw (round_end n total s h1 h2 more h3, step, count, run) (ground arith),
        (more, refl, tiles),
      )
  | no done ↦ ([], ground arith, omega arith)
]

abbrev workers_of : ℤ → ℤ
workers_of concurrency = if leb_ℤ concurrency (pos 0) then default_concurrency else concurrency

workers_of_bounds :
    (concurrency : ℤ)
    → concurrency ≤ℤ pos (2 ^ 61 - 1)
    → (w : ℕ) × (workers_of concurrency ≡ pos w) × (1 ≤ w) × (w < 2 ^ 61)
workers_of_bounds (pos zero) h = (8, refl, omega arith, omega arith)
workers_of_bounds (pos (suc k)) h = (suc k, ground arith, omega arith, omega arith)
workers_of_bounds (negsuc k) h = (8, ground arith, omega arith, omega arith)

-- The dynamic size lies between 2 MB and 64 MB.
dynamic_size_bounds :
    (total : ℕ) (concurrency : ℤ)
    → concurrency ≤ℤ pos (2 ^ 61 - 1)
    → (n : ℕ) × (dynamic_size (pos total) concurrency ≡ some (pos n))
      × (2097152 ≤ n)
      × (n ≤ 67108864)
unfolding dynamic_size quot64
dynamic_size_bounds total concurrency h =
    let (w, e, lo, hi) = workers_of_bounds concurrency h in
    let parts : mul64 (pos w) (pos 4) ≡ pos (w * 4) = mul64-pos w 4 (omega arith) in
    (
      max 2097152 (min (total / (w * 4)) 67108864),
      rw (e, parts) (ground arith),
      omega arith,
      omega arith,
    )

-- The chunk size lies between 1 and the size of the file.
chunk_size_bounds :
    (total : ℕ) (preferred concurrency : ℤ)
    → 1 ≤ total
    → concurrency ≤ℤ pos (2 ^ 61 - 1)
    → (n : ℕ) × (chunk_size (pos total) preferred concurrency ≡ some (pos n))
      × (1 ≤ n)
      × (n ≤ total)
unfolding chunk_size
chunk_size_bounds total (pos (suc p)) concurrency h1 h2 =
    (min (suc p) total, ground arith, omega arith, omega arith)
chunk_size_bounds total (pos zero) concurrency h1 h2 =
    let (d, e, lo, hi) = dynamic_size_bounds total concurrency h2 in
    (min d total, ground (arith, e), omega arith, omega arith)
chunk_size_bounds total (negsuc p) concurrency h1 h2 =
    let (d, e, lo, hi) = dynamic_size_bounds total concurrency h2 in
    (min d total, ground (arith, e), omega arith, omega arith)

-- For a file of 1 to 2^62 bytes, any preferred chunk size and any concurrency below 2^61, the loop
-- ends and its chunks are consecutive, start at offset 0 and index 0 and end at the file's last
-- byte; all have one positive size but the last, which may be shorter.
pub calculate_chunks-Tiles :
    (total : ℕ) (preferred concurrency : ℤ)
    → 1 ≤ total
    → total ≤ 2 ^ 62
    → concurrency ≤ℤ pos (2 ^ 61 - 1)
    → (cs : List Chunk) × (n : ℕ) × (calculate_chunks (pos total) preferred concurrency ≡ some cs)
      × (1 ≤ n)
      × Tiles n total 0 0 cs
unfolding calculate_chunks
calculate_chunks-Tiles total preferred concurrency h1 h2 h3 =
    let (n, e, lo, hi) = chunk_size_bounds total preferred concurrency h1 h3 in
    let (cs, run, tiles) =
      chunks_from-Tiles (suc total) n total 0 0 lo hi h2 (omega arith) (omega arith)
        (omega arith) in
    (cs, n, ground (arith, e, run), lo, tiles)

abbrev holds : ℕ → Chunk → Bool
holds x c = leb_ℤ c.start (pos x) && leb_ℤ (pos x) c.end

-- In how many of the chunks does the byte at offset `x` lie?
abbrev pub holders : ℕ → List Chunk → ℕ
holders x [] = 0
holders x (c ∷ cs) = (if holds x c then 1 else 0) + holders x cs

holders-Tiles :
    (x n total i s : ℕ) (cs : List Chunk)
    → 1 ≤ n
    → Tiles n total i s cs
    → holders x cs ≡ (if leb s x && ltb x total then 1 else 0)
holders-Tiles x n total i s [] h t = ground arith
holders-Tiles x n total i s (c ∷ cs) h (more, e, t) =
    let later = holders-Tiles x n total (i + 1) (min (s + n) total) cs h t in
    rw (e, later) (ground arith)

-- Every byte of the file lies in exactly one chunk, and no byte behind its end lies in any.
pub calculate_chunks_covers :
    (total x : ℕ) (preferred concurrency : ℤ) (cs : List Chunk)
    → 1 ≤ total
    → total ≤ 2 ^ 62
    → concurrency ≤ℤ pos (2 ^ 61 - 1)
    → calculate_chunks (pos total) preferred concurrency ≡ some cs
    → holders x cs ≡ (if ltb x total then 1 else 0)
calculate_chunks_covers total x preferred concurrency cs h1 h2 h3 e =
    let (ds, n, run, lo, tiles) = calculate_chunks-Tiles total preferred concurrency h1 h2 h3 in
    let same : cs ≡ ds = cc in rw same (holders-Tiles x n total 0 0 ds lo tiles ∙ ground arith)
