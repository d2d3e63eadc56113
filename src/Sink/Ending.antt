-- ===== src/Sink/Ending.antt =====
-- How many steps the workers of a pool take, and that they all return.
use native.Mathlib.Decide.{dec_lt}
use files_downloader_golang.Common.{
  ℕ, zero, suc, ◌+◌, ◌*◌, ◌≤◌, ◌<◌, ◌≡◌, refl, sym, subst, ◌∙◌, ap, Option, none, some, List,
  length, get_elem?, arith, inl, inr, ◌⊎◌, ltb, if◌then◌else◌, if_case,
}
use files_downloader_golang.Common.Int.{ℤ}
use files_downloader_golang.Chunk.{Chunk}
use files_downloader_golang.Worker.{Round, WorkerOptions}
use files_downloader_golang.Worker.Retry.{download_chunk}
use files_downloader_golang.Worker.FileSink.{put_file, file_factory}
use files_downloader_golang.Sink.Pool.{
  Pool, Stage, free, taken, loading, gone, job_of, load_chunk, step_stage, step_pool, PoolEvent,
  worker, caller_end, Runs, here, by_step, start_pool, pending,
}
use files_downloader_golang.Sink.Table.{some-injective}
use files_downloader_golang.Sink.Steps.{Left, Runs-Left}
use files_downloader_golang.Sink.Completion.{
  held_at, Accounted, Runs-Accounted, start_pool-Accounted,
}
use files_downloader_golang.Sink.Work.{
  rank, ranks, work, ranks-set, next_job-Lowers, end_download-Lowers,
}
use files_downloader_golang.Sink.Ready.{
  Ready, set_stage-Ready, next_job-Ready, take_over-Ready, end_download-Ready, start_pool-Ready,
}

module _ (opts : WorkerOptions) (env : ℕ → ℕ → Round) where
  load_chunk-Ready :
      (w i : ℕ) (s : Pool) (found : Option Chunk)
      → get_elem? s.chunks i ≡ found
      → Ready s
      → Left Ready (load_chunk opts env w i s found)
  unfolding load_chunk
  load_chunk-Ready w i s none e r = tt
  load_chunk-Ready w i s (some c) e r =
      let o = download_chunk put_file file_factory opts (env i) (job_of c s) in
      end_download-Ready w i s o (take_over-Ready i o.1 s e r)

  step_stage-Ready :
      (w : ℕ) (p : Stage) (s : Pool)
      → s.stage w ≡ p
      → Ready s
      → Left Ready (step_stage opts env w p s)
  unfolding step_stage
  step_stage-Ready w free s e r = next_job-Ready w s.jobs s refl r
  step_stage-Ready w (taken i) s e r =
      if_case Ready s.worker_done (set_stage-Ready w gone s (λ k h. absurd cc) r)
        (set_stage-Ready w (loading i) s (λ k h. r.held w k (ap held_at e ∙ h)) r)
  step_stage-Ready w (loading i) s e r = load_chunk-Ready w i s (get_elem? s.chunks i) refl r
  step_stage-Ready w gone s e r = tt

  step_pool-Ready : (e : PoolEvent) (s : Pool) → Ready s → Left Ready (step_pool opts env e s)
  unfolding step_pool
  step_pool-Ready (worker w) s r = step_stage-Ready w (s.stage w) s refl r
  step_pool-Ready caller_end s r = record { queued = r.queued; held = r.held }

  Runs-Ready : (s u : Pool) → Ready s → Runs opts env s u → Ready u
  Runs-Ready s u r run = Runs-Left opts env Ready s (λ e t _. step_pool-Ready e t) u r run

  -- What a worker's step comes to: the worker has returned, or goes on and lowers the work left.
  abbrev Goes : ℕ → ℕ → Pool → Option Pool → Type 0
  Goes workers w s o =
      (s.stage w ≡ gone) ⊎ ((u : Pool) × (o ≡ some u) × (work workers u < work workers s))

  load_chunk-Goes :
      (workers w i : ℕ) (s : Pool) (found : Option Chunk)
      → w < workers
      → s.stage w ≡ loading i
      → ((c : Chunk) × (found ≡ some c))
      → Goes workers w s (load_chunk opts env w i s found)
  unfolding load_chunk
  load_chunk-Goes workers w i s none lt e (c, there) = absurd cc
  load_chunk-Goes workers w i s (some c) lt e there =
      inr (_, refl, end_download-Lowers workers w i s _ lt e)

  step_stage-Goes :
      (workers w : ℕ) (p : Stage) (s : Pool)
      → w < workers
      → s.stage w ≡ p
      → Ready s
      → Goes workers w s (step_stage opts env w p s)
  unfolding step_stage
  step_stage-Goes workers w free s lt e r =
      inr (_, refl, next_job-Lowers workers w s.jobs s lt e refl)
  step_stage-Goes workers w (taken i) s lt e r =
      let out = ranks-set workers w gone s.stage lt in
      let on = ranks-set workers w (loading i) s.stage lt in
      let before = ap rank e in
      inr (
        _,
        refl,
        if_case (λ u. work workers u < work workers s) s.worker_done (omega arith) (omega arith),
      )
  step_stage-Goes workers w (loading i) s lt e r =
      load_chunk-Goes workers w i s (get_elem? s.chunks i) lt e (r.held w i (ap held_at e))
  step_stage-Goes workers w gone s lt e r = inl e

  -- The steps of workers in a run.
  abbrev pub worker_steps : {s u : Pool} → Runs opts env s u → ℕ
  worker_steps here = 0
  worker_steps (by_step (worker w) run e) = suc (worker_steps run)
  worker_steps (by_step caller_end run e) = worker_steps run

  returned-still : (w : ℕ) (s : Pool) → s.stage w ≡ gone → step_pool opts env (worker w) s ≡ none
  unfolding step_pool step_stage
  returned-still w s e = ap (λ p. step_stage opts env w p s) e

  step_pool-Goes :
      (workers w : ℕ) (s : Pool)
      → Accounted workers s
      → Ready s
      → Goes workers w s (step_pool opts env (worker w) s)
  unfolding step_pool
  step_pool-Goes workers w s a r = elim (dec_lt w workers) [
    | yes lt ↦ step_stage-Goes workers w (s.stage w) s lt refl r
    | no ge ↦ inl (a.outside w (omega arith))
  ]

  step_pool-work :
      (workers w : ℕ) (s u : Pool)
      → Accounted workers s
      → Ready s
      → step_pool opts env (worker w) s ≡ some u
      → work workers u < work workers s
  step_pool-work workers w s u a r e = elim (step_pool-Goes workers w s a r) [
    | inl still ↦ let nothing = returned-still w s still in absurd cc
    | inr (v, e', lt) ↦
        subst (λ t. work workers t < work workers s) (some-injective (sym e' ∙ e)) lt
  ]

  caller_end-work :
      (workers : ℕ) (s u : Pool)
      → step_pool opts env caller_end s ≡ some u
      → work workers u ≡ work workers s
  unfolding step_pool
  caller_end-work workers s u e = ap (work workers) (sym (some-injective e))

  Runs-work :
      (workers : ℕ) (s u : Pool)
      → Accounted workers s
      → Ready s
      → (run : Runs opts env s u) → worker_steps run + work workers u ≤ work workers s
  Runs-work workers s u a r here = omega arith
  Runs-work workers s u a r (by_step {t = t} (worker w) run e) =
      let earlier = Runs-work workers s t a r run in
      let now =
        step_pool-work workers w t u (Runs-Accounted workers opts env s t a run)
          (Runs-Ready s t r run) e in
      omega arith
  Runs-work workers s u a r (by_step {t = t} caller_end run e) =
      let earlier = Runs-work workers s t a r run in
      let now = caller_end-work workers t u e in omega arith

start_ranks :
    (n workers : ℕ) → n ≤ workers → ranks n (λ w. if ltb w workers then free else gone) ≡ n
start_ranks zero workers le = refl
start_ranks (suc n) workers le =
    let rest = start_ranks n workers (omega arith) in
    let here_now : (if ltb n workers then free else gone) ≡ free = ground arith in
    let one = ap rank here_now in omega arith

start_pool-work :
    (workers : ℕ) (total : ℤ) (chunks : List Chunk) (disk : ℕ → ℕ)
    → work workers (start_pool workers total chunks disk) ≡ 3 * length (pending 0 chunks) + workers
unfolding start_pool
start_pool-work workers total chunks disk =
    let all = start_ranks workers workers (omega arith) in omega arith

-- The pool ends. In any run of it, whatever the downloads come to, the workers take at most three
-- steps for each chunk that was not complete, and one each to return; and as long as a worker has
-- not returned, it can go on, also when the others cannot.
pub pool_ends :
    (opts : WorkerOptions) (env : ℕ → ℕ → Round) (workers : ℕ) (total : ℤ) (chunks : List Chunk)
    (disk : ℕ → ℕ) (s : Pool) (run : Runs opts env (start_pool workers total chunks disk) s)
    → (worker_steps opts env run ≤ 3 * length (pending 0 chunks) + workers)
      × ((w : ℕ) → (s.stage w ≡ gone) ⊎ ((u : Pool) × (step_pool opts env (worker w) s ≡ some u)))
pool_ends opts env workers total chunks disk s run =
    let start = start_pool workers total chunks disk in
    let a = start_pool-Accounted workers total chunks disk in
    let r = start_pool-Ready workers total chunks disk in
    let bound = Runs-work opts env workers start s a r run in
    let all = start_pool-work workers total chunks disk in
    (
      omega arith,
      λ w.
          elim (step_pool-Goes opts env workers w s (Runs-Accounted workers opts env start s a run)
            (Runs-Ready opts env start s r run)) [
              | inl still ↦ inl still
              | inr (u, e, lt) ↦ inr (u, e)
            ],
    )
