-- ===== src/Sink/Work.antt =====
-- The work that a pool has left, and what a step of a worker takes from it.
use files_downloader_golang.Common.{
  ℕ, zero, suc, ◌+◌, ◌*◌, ◌≤◌, ◌<◌, ◌≡◌, refl, ap, Option, none, some, List, [], ◌∷◌, length, arith,
  inl, inr, Bool-cases, ◌==◌, if◌then◌else◌,
}
use files_downloader_golang.Worker.{Error, Job}
use files_downloader_golang.Worker.FileSink.{FileWriter}
use files_downloader_golang.Sink.Pool.{
  Pool, Stage, free, taken, loading, gone, end_download, next_job,
}

-- The steps that a worker has left before it returns or comes back to the channel.
abbrev pub rank : Stage → ℕ
rank free = 1
rank (taken i) = 3
rank (loading i) = 2
rank gone = 0

abbrev pub ranks : ℕ → (ℕ → Stage) → ℕ
ranks zero stage = 0
ranks (suc n) stage = rank (stage n) + ranks n stage

-- At most so many steps of workers are left.
abbrev pub work : ℕ → Pool → ℕ
work workers s = 3 * length s.jobs + ranks workers s.stage

ranks-same :
    (n w : ℕ) (p : Stage) (stage : ℕ → Stage)
    → n ≤ w
    → ranks n (λ v. if v == w then p else stage v) ≡ ranks n stage
ranks-same zero w p stage le = refl
ranks-same (suc n) w p stage le = let rest = ranks-same n w p stage (omega arith) in ground arith

pub ranks-set :
    (n w : ℕ) (p : Stage) (stage : ℕ → Stage)
    → w < n
    → ranks n (λ v. if v == w then p else stage v) + rank (stage w) ≡ ranks n stage + rank p
ranks-set zero w p stage lt = absurd (omega arith)
ranks-set (suc n) w p stage lt = elim (Bool-cases (n == w)) [
  | inl same ↦
      let rest = ranks-same n w p stage (ground arith) in
      let now : (if n == w then p else stage n) ≡ p = ground arith in
      let rank_now = ap rank now in
      let here_now : n ≡ w = ground arith in
      let rank_before = ap (λ m. rank (stage m)) here_now in omega arith
  | inr other ↦
      let rest = ranks-set n w p stage (ground arith) in
      let now : (if n == w then p else stage n) ≡ stage n = ground arith in
      let rank_now = ap rank now in omega arith
]

-- A worker's step lowers the work that is left.
abbrev Lowers : ℕ → Pool → Option Pool → Type 0
Lowers workers s none = Unit
Lowers workers s (some u) = work workers u < work workers s

pub next_job-Lowers :
    (workers w : ℕ) (jobs : List ℕ) (s : Pool)
    → w < workers
    → s.stage w ≡ free
    → s.jobs ≡ jobs
    → work workers (next_job w jobs s) < work workers s
unfolding next_job
next_job-Lowers workers w [] s lt e e' =
    let sum = ranks-set workers w gone s.stage lt in let before = ap rank e in omega arith
next_job-Lowers workers w (i ∷ jobs) s lt e e' =
    let sum = ranks-set workers w (taken i) s.stage lt in
    let before = ap rank e in
    let count : length s.jobs ≡ suc (length jobs) = ap length e' in omega arith

pub end_download-Lowers :
    (workers w i : ℕ) (s : Pool) (o : Option Error × Job FileWriter)
    → w < workers
    → s.stage w ≡ loading i
    → work workers (end_download w i s o) < work workers s
unfolding end_download
end_download-Lowers workers w i s (none, j) lt e =
    let sum = ranks-set workers w free s.stage lt in let before = ap rank e in omega arith
end_download-Lowers workers w i s (some x, j) lt e =
    let sum = ranks-set workers w gone s.stage lt in let before = ap rank e in omega arith
