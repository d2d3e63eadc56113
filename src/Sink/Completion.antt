-- ===== src/Sink/Completion.antt =====
-- When all workers have returned and nothing failed, every chunk is complete.
use native.Mathlib.Decide.{dec_lt}
use files_downloader_golang.Common.{
  ℕ, zero, suc, ◌+◌, ◌≤◌, ◌<◌, ◌≡◌, ◌≢◌, refl, sym, subst, ◌∙◌, ap, Bool, true, false, ◌&&◌, Option,
  none, some, List, [], ◌∷◌, get_elem?, arith, inl, inr, ◌⊎◌, Bool-cases, ◌==◌, if◌then◌else◌,
  if_case, if_split,
}
use files_downloader_golang.Common.Int.{ℤ}
use files_downloader_golang.Chunk.{Chunk}
use files_downloader_golang.Worker.{Error, Round, Job, WorkerOptions}
use files_downloader_golang.Worker.Frame.{download_chunk-Leaves, Leaves}
use files_downloader_golang.Worker.FileSink.{FileWriter, put_file, file_factory}
use files_downloader_golang.Sink.Pool.{
  Pool, Stage, free, taken, loading, gone, set_stage, end_download, job_of, next_job, load_chunk,
  step_stage, step_pool, PoolEvent, worker, caller_end, Runs, first_of, start_pool, pending,
  outcome, SinkError, download_failed, caller_cancelled, sync_failed,
}
use files_downloader_golang.Sink.Table.{get_elem?-set, some-injective}
use files_downloader_golang.Sink.Steps.{Left, Runs-Left}

-- The chunk that a worker has.
abbrev pub held_at : Stage → Option ℕ
held_at free = none
held_at (taken i) = some i
held_at (loading i) = some i
held_at gone = none

abbrev pub Queued : ℕ → List ℕ → Type 0
Queued k [] = ⊥
Queued k (j ∷ jobs) = (k ≡ j) ⊎ Queued k jobs

first_of-ne-none : (o : Option Error) (e : Error) → first_of o e ≢ none
first_of-ne-none none e = λ h. cc
first_of-ne-none (some x) e = λ h. cc

module _ (workers : ℕ) where
  -- While nothing has ended the work, every chunk is complete, in the channel or with a worker.
  pub record AccountedIn (jobs : List ℕ) (stage : ℕ → Stage) (chunks : List Chunk)
      (failure : Option Error) (worker_done caller_done : Bool) : Type 0 where
    pub blamed : worker_done ≡ true → (failure ≢ none) ⊎ (caller_done ≡ true)
    pub outside : (w : ℕ) → workers ≤ w → stage w ≡ gone
    pub stays : (w : ℕ) → worker_done ≡ false → w < workers → stage w ≡ gone → jobs ≡ []
    pub found :
        (k : ℕ) (c : Chunk)
        → worker_done ≡ false
        → get_elem? chunks k ≡ some c
        → (c.completed ≡ true) ⊎ Queued k jobs ⊎ ((w : ℕ) × (held_at (stage w) ≡ some k))

  abbrev pub Accounted : Pool → Type 0
  Accounted s = AccountedIn s.jobs s.stage s.chunks s.failure s.worker_done s.caller_done

  abbrev Found : List ℕ → (ℕ → Stage) → ℕ → Chunk → Type 0
  Found jobs stage k c =
      (c.completed ≡ true) ⊎ Queued k jobs ⊎ ((w : ℕ) × (held_at (stage w) ≡ some k))

  stopped-Accounted :
      (jobs : List ℕ) (stage : ℕ → Stage) (chunks : List Chunk) (failure : Option Error)
      (caller_done : Bool)
      → (failure ≢ none) ⊎ (caller_done ≡ true)
      → ((w : ℕ) → workers ≤ w → stage w ≡ gone)
      → AccountedIn jobs stage chunks failure true caller_done
  stopped-Accounted jobs stage chunks failure caller_done why outside = record {
    blamed = λ h. why;
    outside = outside;
    stays = λ w h. absurd cc;
    found = λ k c h. absurd cc;
  }

  take-Found :
      (w i : ℕ) (jobs : List ℕ) (stage : ℕ → Stage) (k : ℕ) (c : Chunk)
      → held_at (stage w) ≡ none
      → Found (i ∷ jobs) stage k c
      → Found jobs (λ v. if v == w then taken i else stage v) k c
  take-Found w i jobs stage k c free_now (inl done) = inl done
  take-Found w i jobs stage k c free_now (inr (inl (inl here_now))) = inr (inr (w, ground arith))
  take-Found w i jobs stage k c free_now (inr (inl (inr later))) = inr (inl later)
  take-Found w i jobs stage k c free_now (inr (inr (v, e))) = inr (inr (v, ground arith))

  next_job-Accounted :
      (w : ℕ) (jobs : List ℕ) (s : Pool)
      → s.jobs ≡ jobs
      → s.stage w ≡ free
      → Accounted s
      → Accounted (next_job w jobs s)
  unfolding next_job
  next_job-Accounted w [] s e e' a = record {
    blamed = a.blamed;
    outside = λ v le. let before = a.outside v le in ground arith;
    stays = λ v h lt g. e;
    found = λ k c h f. elim (a.found k c h f) [
      | inl done ↦ inl done
      | inr (inl queued) ↦ inr (inl queued)
      | inr (inr (v, x)) ↦ inr (inr (v, ground arith))
    ];
  }
  next_job-Accounted w (i ∷ jobs) s e e' a = record {
    blamed = a.blamed;
    outside = λ v le. let before = a.outside v le in ground arith;
    stays = λ v h lt g. let before = a.stays v h lt in ground arith;
    found = λ k c h f.
        take-Found w i jobs s.stage k c (ap held_at e')
          (subst (λ js. Found js s.stage k c) e (a.found k c h f));
  }

  enter-Accounted :
      (w i : ℕ) (s : Pool)
      → s.stage w ≡ taken i
      → Accounted s
      → Accounted (set_stage w (loading i) s)
  enter-Accounted w i s e a = record {
    blamed = a.blamed;
    outside = λ v le. let before = a.outside v le in ground arith;
    stays = λ v h lt g. let before = a.stays v h lt in ground arith;
    found = λ k c h f. elim (a.found k c h f) [
      | inl done ↦ inl done
      | inr (inl queued) ↦ inr (inl queued)
      | inr (inr (v, x)) ↦ inr (inr (v, ground arith))
    ];
  }

  leave-Accounted :
      (w i : ℕ) (s : Pool)
      → s.stage w ≡ taken i
      → s.worker_done ≡ true
      → Accounted s
      → Accounted (set_stage w gone s)
  leave-Accounted w i s e done a = record {
    blamed = a.blamed;
    outside = λ v le. let before = a.outside v le in ground arith;
    stays = λ v h. absurd (ground arith);
    found = λ k c h. absurd (ground arith);
  }

  end_download-Accounted :
      (w i : ℕ) (c : Chunk) (s : Pool) (o : Option Error × Job FileWriter)
      → get_elem? s.chunks i ≡ some c
      → s.stage w ≡ loading i
      → Leaves put_file file_factory c o
      → Accounted s
      → Accounted (end_download w i s o)
  unfolding end_download
  end_download-Accounted w i c s (none, j) e at (f, marked) a = record {
    blamed = a.blamed;
    outside = λ v le. let before = a.outside v le in ground arith;
    stays = λ v h lt g. let before = a.stays v h lt in ground arith;
    found = λ k c' h f'.
        let entry = sym (get_elem?-set i k s.chunks j.chunk e) ∙ f' in
        elim (Bool-cases (i == k)) [
          | inl same ↦ inl (ground arith)
          | inr other ↦ elim (a.found k c' h (ground arith)) [
            | inl done ↦ inl done
            | inr (inl queued) ↦ inr (inl queued)
            | inr (inr (v, x)) ↦ inr (inr (v, ground arith))
          ]
        ];
  }
  end_download-Accounted w i c s (some x, j) e at l a =
      stopped-Accounted s.jobs _ _ _ s.caller_done (inl (first_of-ne-none s.failure x))
        (λ v le. let before = a.outside v le in ground arith)

  module _ (opts : WorkerOptions) (env : ℕ → ℕ → Round) where
    load_chunk-Accounted :
        (w i : ℕ) (s : Pool) (found : Option Chunk)
        → get_elem? s.chunks i ≡ found
        → s.stage w ≡ loading i
        → Accounted s
        → Left Accounted (load_chunk opts env w i s found)
    unfolding load_chunk
    load_chunk-Accounted w i s none e at a = tt
    load_chunk-Accounted w i s (some c) e at a =
        end_download-Accounted w i c s _ e at
          (download_chunk-Leaves put_file file_factory opts (env i) (job_of c s)) a

    step_stage-Accounted :
        (w : ℕ) (p : Stage) (s : Pool)
        → s.stage w ≡ p
        → Accounted s
        → Left Accounted (step_stage opts env w p s)
    unfolding step_stage
    step_stage-Accounted w free s at a = next_job-Accounted w s.jobs s refl at a
    step_stage-Accounted w (taken i) s at a =
        if_split Accounted s.worker_done (λ t. leave-Accounted w i s at t a)
          (λ f. enter-Accounted w i s at a)
    step_stage-Accounted w (loading i) s at a =
        load_chunk-Accounted w i s (get_elem? s.chunks i) refl at a
    step_stage-Accounted w gone s at a = tt

    step_pool-Accounted :
        (e : PoolEvent) (s : Pool) → Accounted s → Left Accounted (step_pool opts env e s)
    unfolding step_pool
    step_pool-Accounted (worker w) s a = step_stage-Accounted w (s.stage w) s refl a
    step_pool-Accounted caller_end s a =
        stopped-Accounted s.jobs s.stage s.chunks s.failure true (inr refl) a.outside

    pub Runs-Accounted : (s u : Pool) → Accounted s → Runs opts env s u → Accounted u
    Runs-Accounted s u a run =
        Runs-Left opts env Accounted s (λ e t r. step_pool-Accounted e t) u a run

  quiet-worker_done :
      (s : Pool) (sync_ok : Bool) (failure : Option Error)
      → s.failure ≡ failure
      → Accounted s
      → (elim failure as (λ x. Option SinkError) [
        | some e ↦ some (download_failed e)
        | none ↦
            if s.worker_done && s.caller_done
            then some caller_cancelled
            else if sync_ok
            then none
            else some sync_failed
      ])
        ≡ none
      → s.worker_done ≡ false
  quiet-worker_done s sync_ok none e a fine = elim (Bool-cases s.worker_done) [
    | inr off ↦ off
    | inl on ↦ elim (a.blamed on) [ inl failed ↦ absurd (failed e) | inr ended ↦ ground arith ]
  ]
  quiet-worker_done s sync_ok (some x) e a fine = absurd cc

  -- No chunk is left behind when the outcome is no error and all workers have returned.
  pub Accounted-complete :
      (s : Pool) (sync_ok : Bool) (k : ℕ) (c : Chunk)
      → 0 < workers
      → Accounted s
      → ((w : ℕ) → w < workers → s.stage w ≡ gone)
      → outcome sync_ok s ≡ none
      → get_elem? s.chunks k ≡ some c
      → c.completed ≡ true
  unfolding outcome
  Accounted-complete s sync_ok k c some_worker a left fine found =
      let on = quiet-worker_done s sync_ok s.failure refl a fine in
      let empty = a.stays 0 on some_worker (left 0 some_worker) in
      elim (a.found k c on found) [
        | inl done ↦ done
        | inr (inl queued) ↦ absurd (subst (Queued k) empty queued)
        | inr (inr (w, held)) ↦ elim (dec_lt w workers) [
          | yes lt ↦ let e = ap held_at (left w lt) in absurd cc
          | no ge ↦ let e = ap held_at (a.outside w (omega arith)) in absurd cc
        ]
      ]

put-Queued :
    (k i : ℕ) (done : Bool) (jobs : List ℕ)
    → Queued k jobs
    → Queued k (if done then jobs else i ∷ jobs)
put-Queued k i done jobs queued = if_case (Queued k) done queued (inr queued)

pending-Queued :
    (i k : ℕ) (cs : List Chunk) (c : Chunk)
    → get_elem? cs k ≡ some c
    → (c.completed ≡ true) ⊎ Queued (i + k) (pending i cs)
unfolding pending
pending-Queued i k [] c found = absurd cc
pending-Queued i zero (x ∷ cs) c found = elim (Bool-cases x.completed) [
  | inl done ↦ inl (ap (λ (y : Chunk). y.completed) (sym (some-injective found)) ∙ done)
  | inr todo ↦ inr (if_split (Queued (i + 0)) x.completed (λ t. absurd cc) (λ f. inl (omega arith)))
]
pending-Queued i (suc k) (x ∷ cs) c found = elim (pending-Queued (suc i) k cs c found) [
  | inl done ↦ inl done
  | inr queued ↦ inr (
      put-Queued (i + suc k) i x.completed (pending (suc i) cs)
        (subst (λ m. Queued m (pending (suc i) cs)) (omega arith) queued))
]

pub start_pool-Accounted :
    (workers : ℕ) (total : ℤ) (chunks : List Chunk) (disk : ℕ → ℕ)
    → Accounted workers (start_pool workers total chunks disk)
unfolding start_pool
start_pool-Accounted workers total chunks disk = record {
  blamed = λ h. absurd cc;
  outside = λ w le. ground arith;
  stays = λ w h lt g. absurd (ground arith);
  found = λ k c h found. elim (pending-Queued 0 k chunks c found) [
    | inl done ↦ inl done
    | inr queued ↦ inr (inl (subst (λ m. Queued m (pending 0 chunks)) (omega arith) queued))
  ];
}
