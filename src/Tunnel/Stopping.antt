-- ===== src/Tunnel/Stopping.antt =====
-- What `Stop` does to the runners, and what it does not.
use files_downloader_golang.Common.{
  ℕ, zero, suc, ◌≡◌, refl, ◌⊎◌, inl, inr, Bool, true, false, Option, none, some, List, [], ◌∷◌,
  ◌==◌, arith, if◌then◌else◌, if_split, sym, ap, ◌∙◌, subst,
}
use files_downloader_golang.Tunnel.Config.{Config}
use files_downloader_golang.Tunnel.Manager.{
  disconnected, Phase, at_top, waiting, returned, extra, Runner, Manager, set_state, set_phase,
  cleanup, cancel, stop, Result, step_runner, run_step,
}

-- A runner that has returned, or that has the context `c` and is about to test it; the one for the
-- parallel connections is in front of its loop's test.
abbrev pub Resting : ℕ → Runner → Type 0
Resting c r =
    (r.phase ≡ returned)
    ⊎ ((r.context ≡ c)
        × ((r.phase ≡ at_top) ⊎ (r.phase ≡ waiting) ⊎ ((n : ℕ) × (r.phase ≡ extra n))))

-- Nothing is open, and the state says so.
pub record Closed (m : Manager) : Type 0 where
  pub state_eq : m.state ≡ disconnected
  pub pool_closed : m.pool_open ≡ false
  pub dns_closed : m.dns_open ≡ false
  pub socks_closed : m.socks_open ≡ false
  pub vpn_stopped : m.vpn_active ≡ false
  pub proxy_off : m.proxy_on ≡ false

record Quiet (c : ℕ) (m : Manager) : Type 0 where
  pub closed : Closed m
  pub resting : (k : ℕ) → Resting c (m.runners k)
  pub ended : m.cancelled c ≡ true

put_phase-Resting :
    (c : ℕ) (same : Bool) (p : Phase) (r : Runner)
    → (same ≡ true → Resting c (record r { phase = p }))
    → Resting c r
    → Resting c (if same then record r { phase = p } else r)
put_phase-Resting c true p r new old = new refl
put_phase-Resting c false p r new old = old

set_phase-Quiet :
    (c k : ℕ) (p : Phase) (m : Manager)
    → Resting c (record (m.runners k) { phase = p })
    → Quiet c m
    → Quiet c (set_phase k p m)
set_phase-Quiet c k p m new q = record {
  closed = record {
    state_eq = q.closed.state_eq;
    pool_closed = q.closed.pool_closed;
    dns_closed = q.closed.dns_closed;
    socks_closed = q.closed.socks_closed;
    vpn_stopped = q.closed.vpn_stopped;
    proxy_off = q.closed.proxy_off;
  };
  resting = λ j.
      put_phase-Resting c (j == k) p (m.runners j)
        (λ same.
          let j_is_k : k ≡ j = ground arith in
          subst (λ i. Resting c (record (m.runners i) { phase = p })) j_is_k new)
        (q.resting j);
  ended = q.ended;
}

-- A resting runner finds its context done and returns.
run_step-Quiet :
    (cfg : Config) (r : Result) (c k : ℕ) (m : Manager)
    → Resting c (m.runners k)
    → Quiet c m
    → Quiet c (run_step cfg r k m)
unfolding run_step step_runner
run_step-Quiet cfg r c k m (inl done) q =
    subst (λ p. Quiet c (step_runner cfg r k p m)) (sym done) q
run_step-Quiet cfg r c k m (inr (ctx, inr (inl waits))) q =
    subst (λ p. Quiet c (step_runner cfg r k p m)) (sym waits)
      (set_phase-Quiet c k at_top m (inr (ctx, inl refl)) q)
run_step-Quiet cfg r c k m (inr (ctx, inl top)) q =
    subst (λ p. Quiet c (step_runner cfg r k p m)) (sym top)
      (if_split (Quiet c) (m.cancelled (m.runners k).context)
        (λ t. set_phase-Quiet c k returned m (inl refl) q)
        (λ f. let ended = ap m.cancelled ctx ∙ q.ended in absurd (ground arith)))
run_step-Quiet cfg r c k m (inr (ctx, inr (inr (zero, front)))) q =
    subst (λ p. Quiet c (step_runner cfg r k p m)) (sym front)
      (set_phase-Quiet c k returned m (inl refl) q)
run_step-Quiet cfg r c k m (inr (ctx, inr (inr (suc n, front)))) q =
    subst (λ p. Quiet c (step_runner cfg r k p m)) (sym front)
      (if_split (Quiet c) (m.cancelled (m.runners k).context)
        (λ t. set_phase-Quiet c k returned m (inl refl) q)
        (λ f. let ended = ap m.cancelled ctx ∙ q.ended in absurd (ground arith)))

abbrev pub run_steps : Config → List (Result × ℕ) → Manager → Manager
run_steps cfg [] m = m
run_steps cfg ((r, k) ∷ steps) m = run_steps cfg steps (run_step cfg r k m)

run_steps-Quiet :
    (cfg : Config) (c : ℕ) (steps : List (Result × ℕ)) (m : Manager)
    → Quiet c m
    → Quiet c (run_steps cfg steps m)
run_steps-Quiet cfg c [] m q = q
run_steps-Quiet cfg c ((r, k) ∷ steps) m q =
    run_steps-Quiet cfg c steps (run_step cfg r k m) (run_step-Quiet cfg r c k m (q.resting k) q)

cancelled-Quiet :
    (c : ℕ) (o : Option ℕ) (m : Manager)
    → o ≡ some c
    → ((k : ℕ) → Resting c (m.runners k))
    → Quiet c (set_state disconnected (cleanup (cancel o m)))
unfolding cleanup
cancelled-Quiet c none m e resting = absurd cc
cancelled-Quiet c (some d) m e resting =
    let same : d ≡ c = cc in
    record {
      closed = record {
        state_eq = refl;
        pool_closed = refl;
        dns_closed = refl;
        socks_closed = refl;
        vpn_stopped = refl;
        proxy_off = refl;
      };
      resting = resting;
      ended = ground arith;
    }

-- If each runner has returned, or has the context that `Stop` cancels and is in front of its test
-- or waits to try again, the runner for the parallel connections included, then after `Stop` and any steps of the runners, whatever their calls come
-- to, the state is disconnected and nothing is open.
pub stop_rests :
    (cfg : Config) (c : ℕ) (steps : List (Result × ℕ)) (m : Manager)
    → m.cancel_fn ≡ some c
    → ((k : ℕ) → Resting c (m.runners k))
    → Closed (run_steps cfg steps (stop m))
unfolding stop
stop_rests cfg c steps m e resting =
    let q = run_steps-Quiet cfg c steps (stop m) (cancelled-Quiet c m.cancel_fn m e resting) in
    q.closed
