-- ===== src/Sink/Steps.antt =====
-- Induction on the steps of a pool.
use files_downloader_golang.Common.{ℕ, subst, Option, none, some}
use files_downloader_golang.Worker.{Round, WorkerOptions}
use files_downloader_golang.Sink.Pool.{Pool, PoolEvent, step_pool, Runs, here, by_step}

-- The pool that a step leaves, where there is a step, satisfies `P`.
abbrev pub Left : (Pool → Type 0) → Option Pool → Type 0
Left P none = Unit
Left P (some s) = P s

pub Runs-Left :
    (opts : WorkerOptions) (env : ℕ → ℕ → Round) (P : Pool → Type 0) (s : Pool)
    → ((e : PoolEvent) (t : Pool) → Runs opts env s t → P t → Left P (step_pool opts env e t))
    → (u : Pool) → P s
    → Runs opts env s u
    → P u
Runs-Left opts env P s kept u p here = p
Runs-Left opts env P s kept u p (by_step e r steps) =
    subst (Left P) steps (kept e _ r (Runs-Left opts env P s kept _ p r))
