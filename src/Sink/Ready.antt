-- ===== src/Sink/Ready.antt =====
-- Each chunk in the channel or with a worker is there.
use files_downloader_golang.Common.{
  ℕ, suc, ◌+◌, ◌≡◌, refl, sym, subst, ◌∙◌, Bool, true, false, Option, none, some, List, [], ◌∷◌,
  get_elem?, set, arith, inl, inr, ◌⊎◌, Bool-cases, ◌==◌, ltb, if◌then◌else◌, if_split,
}
use files_downloader_golang.Common.Int.{ℤ}
use files_downloader_golang.Chunk.{Chunk}
use files_downloader_golang.Worker.{Error, Job}
use files_downloader_golang.Worker.FileSink.{FileWriter}
use files_downloader_golang.Sink.Pool.{
  Pool, Stage, free, taken, gone, set_stage, take_over, end_download, next_job, start_pool, pending,
}
use files_downloader_golang.Sink.Table.{get_elem?-set, some-injective}
use files_downloader_golang.Sink.Completion.{Queued, held_at}

-- Each chunk in the channel or with a worker is there.
abbrev Present : ℕ → List Chunk → Type 0
Present k cs = (c : Chunk) × (get_elem? cs k ≡ some c)

pub record Ready (s : Pool) : Type 0 where
  pub queued : (k : ℕ) → Queued k s.jobs → Present k s.chunks
  pub held : (w k : ℕ) → held_at (s.stage w) ≡ some k → Present k s.chunks

set-Present :
    (i k : ℕ) (cs : List Chunk) {c : Chunk} (c' : Chunk)
    → get_elem? cs i ≡ some c
    → Present k cs
    → Present k (set cs i c')
set-Present i k cs c' found (x, there) = elim (Bool-cases (i == k)) [
  | inl same ↦ (c', get_elem?-set i k cs c' found ∙ ground arith)
  | inr other ↦ (x, get_elem?-set i k cs c' found ∙ ground arith)
]

pub set_stage-Ready :
    (w : ℕ) (p : Stage) (s : Pool)
    → ((k : ℕ) → held_at p ≡ some k → Present k s.chunks)
    → Ready s
    → Ready (set_stage w p s)
set_stage-Ready w p s h r = record {
  queued = r.queued;
  held = λ v k e. elim (Bool-cases (v == w)) [
    | inl same ↦ h k (ground arith)
    | inr other ↦ r.held v k (ground arith)
  ];
}

pub next_job-Ready :
    (w : ℕ) (jobs : List ℕ) (s : Pool) → s.jobs ≡ jobs → Ready s → Ready (next_job w jobs s)
unfolding next_job
next_job-Ready w [] s e r = set_stage-Ready w gone s (λ k h. absurd cc) r
next_job-Ready w (i ∷ jobs) s e r =
    let old : (k : ℕ) → Queued k (i ∷ jobs) → Present k s.chunks =
      λ k q. r.queued k (subst (Queued k) (sym e) q) in
    set_stage-Ready w (taken i) (record s { jobs = jobs })
      (λ k h. old k (inl (sym (some-injective h))))
      (record { queued = λ k q. old k (inr q); held = r.held })

pub take_over-Ready :
    (i : ℕ) (j : Job FileWriter) (s : Pool) {c : Chunk}
    → get_elem? s.chunks i ≡ some c
    → Ready s
    → Ready (take_over i j s)
take_over-Ready i j s found r = record {
  queued = λ k q. set-Present i k s.chunks j.chunk found (r.queued k q);
  held = λ w k e. set-Present i k s.chunks j.chunk found (r.held w k e);
}

pub end_download-Ready :
    (w i : ℕ) (s : Pool) (o : Option Error × Job FileWriter)
    → Ready (take_over i o.1 s)
    → Ready (end_download w i s o)
unfolding end_download
end_download-Ready w i s (none, j) r = set_stage-Ready w free (take_over i j s) (λ k h. absurd cc) r
end_download-Ready w i s (some e, j) r =
    set_stage-Ready w gone _ (λ k h. absurd cc) (record { queued = r.queued; held = r.held })

pending_step :
    (k i : ℕ) (done : Bool) (jobs : List ℕ)
    → Queued k (if done then jobs else i ∷ jobs)
    → (k ≡ i) ⊎ Queued k jobs
pending_step k i true jobs q = inr q
pending_step k i false jobs (inl e) = inl e
pending_step k i false jobs (inr q) = inr q

pending-Present :
    (i k : ℕ) (cs : List Chunk) → Queued k (pending i cs) → (m : ℕ) × (k ≡ i + m) × Present m cs
unfolding pending
pending-Present i k [] q = absurd q
pending-Present i k (c ∷ cs) q = elim (pending_step k i c.completed (pending (suc i) cs) q) [
  | inl e ↦ (0, omega arith, (c, refl))
  | inr q' ↦ let (m, e, there) = pending-Present (suc i) k cs q' in (suc m, omega arith, there)
]

pub start_pool-Ready :
    (workers : ℕ) (total : ℤ) (chunks : List Chunk) (disk : ℕ → ℕ)
    → Ready (start_pool workers total chunks disk)
unfolding start_pool
start_pool-Ready workers total chunks disk = record {
  queued = λ k q.
      let (m, e, there) = pending-Present 0 k chunks q in
      subst (λ n. Present n chunks) (omega arith) there;
  held = λ w k e.
      absurd (if_split (λ p. held_at p ≡ some k → ⊥) (ltb w workers) (λ t h. cc) (λ f h. cc) e);
}
