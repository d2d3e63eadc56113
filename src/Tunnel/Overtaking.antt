-- ===== src/Tunnel/Overtaking.antt =====
-- Runners that `Stop` does not reach.
use files_downloader_golang.Common.{
  ℕ, zero, suc, ◌≡◌, ◌≢◌, refl, Bool, true, false, ◌&&◌, ◌||◌, Option, none, some, [], ◌∷◌, ◌==◌,
  arith, if◌then◌else◌, if_case, ap, ◌∙◌,
}
use files_downloader_golang.Tunnel.Config.{Config}
use files_downloader_golang.Tunnel.Manager.{
  connected, disconnected, extra, extra_dialing, Phase, at_top, listening, routing, finishing,
  returned, Runner, Manager, set_state, set_phase, is_running, start, add_runner, failed, cleanup,
  cancel, stop, Result, route, step_runner, run_step,
}
use files_downloader_golang.Tunnel.Stopping.{run_steps}

-- The phase of runner `k` once it was set.
set_phase-phase : (k : ℕ) (p : Phase) (m : Manager) → ((set_phase k p m).runners k).phase ≡ p
set_phase-phase k p m =
    let here_now : k == k ≡ true = ground arith in
    ap (λ (b : Bool). (if b then record (m.runners k) { phase = p } else m.runners k).phase)
      here_now

-- The step of a runner at a known phase.
run_step-at :
    (cfg : Config) (r : Result) (k : ℕ) (p : Phase) (m : Manager)
    → (m.runners k).phase ≡ p
    → run_step cfg r k m ≡ step_runner cfg r k p m
unfolding run_step
run_step-at cfg r k p m e = ap (λ q. step_runner cfg r k q m) e

cancel-runners : (o : Option ℕ) (m : Manager) → (cancel o m).runners ≡ m.runners
cancel-runners none m = refl
cancel-runners (some d) m = refl

stop-runners : (m : Manager) → (stop m).runners ≡ m.runners
unfolding stop cleanup
stop-runners m = cancel-runners m.cancel_fn m

route-socks_open :
    (cfg : Config) (r : Result) (m : Manager) → (route cfg r m).socks_open ≡ m.socks_open
route-socks_open cfg r m =
    if_case (λ (n : Manager). n.socks_open ≡ m.socks_open) cfg.use_vpn
      (if_case (λ (n : Manager). n.socks_open ≡ m.socks_open) r.ok refl refl)
      (if_case (λ (n : Manager). n.socks_open ≡ m.socks_open) (cfg.auto_set_system_proxy && r.ok)
        refl refl)

-- The three steps from a bound port to the connected state.
bound_steps :
    (cfg : Config) (r r' r'' : Result) (k : ℕ) (m : Manager)
    → (m.runners k).phase ≡ listening
    → r.ok ≡ true
    → run_steps cfg ((r, k) ∷ (r', k) ∷ (r'', k) ∷ []) m
      ≡ set_phase k returned (
          set_state connected (
            set_phase k finishing
              (route cfg r' (set_phase k routing (record m { socks_open = true })))))
unfolding step_runner
bound_steps cfg r r' r'' k m at bound =
    let m1 = set_phase k routing (record m { socks_open = true }) in
    let m2 = set_phase k finishing (route cfg r' m1) in
    let test : m.socks_open || r.ok ≡ true = ground arith in
    let first : run_step cfg r k m ≡ m1 =
      run_step-at cfg r k listening m at
      ∙ ap
          (λ (b : Bool).
            if b
            then m1
            else set_phase k returned (set_state failed (record m { pool_open = false })))
          test in
    let second : run_step cfg r' k m1 ≡ m2 =
      run_step-at cfg r' k routing m1
        (set_phase-phase k routing (record m { socks_open = true })) in
    let third : run_step cfg r'' k m2 ≡ set_phase k returned (set_state connected m2) =
      run_step-at cfg r'' k finishing m2 (set_phase-phase k finishing (route cfg r' m1)) in
    ap (run_step cfg r'' k) (ap (run_step cfg r' k) first ∙ second) ∙ third

-- A runner that is behind the SSH handshake when `Stop` is called goes on: if it can bind the port,
-- then three steps later, although `Stop` has returned, the state is connected and the SOCKS5
-- server is open, whatever the settings are.
pub stop_overtaken :
    (cfg : Config) (r r' r'' : Result) (k : ℕ) (m : Manager)
    → (m.runners k).phase ≡ listening
    → r.ok ≡ true
    → ((run_steps cfg ((r, k) ∷ (r', k) ∷ (r'', k) ∷ []) (stop m)).state ≡ connected)
      × ((run_steps cfg ((r, k) ∷ (r', k) ∷ (r'', k) ∷ []) (stop m)).socks_open ≡ true)
stop_overtaken cfg r r' r'' k m at bound =
    let still = ap (λ (rs : ℕ → Runner). (rs k).phase) (stop-runners m) ∙ at in
    let steps = bound_steps cfg r r' r'' k (stop m) still bound in
    (
      ap (λ (n : Manager). n.state) steps,
      ap (λ (n : Manager). n.socks_open) steps
          ∙ route-socks_open cfg r' (set_phase k routing (record (stop m) { socks_open = true })),
    )

cancel-cancelled :
    (o : Option ℕ) (c : ℕ) (m : Manager) → o ≡ some c → (cancel o m).cancelled c ≡ true
cancel-cancelled none c m e = cc
cancel-cancelled (some d) c m e = let same : d ≡ c = cc in ground arith

stop-cancelled : (c : ℕ) (m : Manager) → m.cancel_fn ≡ some c → (stop m).cancelled c ≡ true
unfolding stop cleanup
stop-cancelled c m e = cancel-cancelled m.cancel_fn c m e

set_phase-context :
    (k : ℕ) (p : Phase) (m : Manager)
    → ((set_phase k p m).runners k).context ≡ (m.runners k).context
set_phase-context k p m =
    if_case (λ (r : Runner). r.context ≡ (m.runners k).context) (k == k) refl refl

-- The step in which a parallel connection is made.
dialed :
    (cfg : Config) (r : Result) (k n : ℕ) (m : Manager)
    → (m.runners k).phase ≡ extra_dialing n
    → r.ok ≡ true
    → run_step cfg r k m ≡ set_phase k (extra n) (record m { pool_open = true })
unfolding step_runner
dialed cfg r k n m at made =
    run_step-at cfg r k (extra_dialing n) m at
    ∙ ap (λ (b : Bool). set_phase k (extra n) (if b then record m { pool_open = true } else m)) made

-- The step behind it, where the context is done.
front_returns :
    (cfg : Config) (r : Result) (k n : ℕ) (m : Manager)
    → (m.runners k).phase ≡ extra n
    → m.cancelled (m.runners k).context ≡ true
    → run_step cfg r k m ≡ set_phase k returned m
unfolding step_runner
front_returns cfg r k zero m at done = run_step-at cfg r k (extra zero) m at
front_returns cfg r k (suc n) m at done =
    run_step-at cfg r k (extra (suc n)) m at
    ∙ ap (λ (b : Bool). if b then set_phase k returned m else set_phase k (extra_dialing n) m) done

stop-closed : (m : Manager) → (stop m).state ≡ disconnected
unfolding stop cleanup
stop-closed m = refl

-- A parallel SSH connection that is being made when `Stop` is called, in the context that `Stop`
-- cancels: if it is made, it is put into the pool behind the cleanup. Its runner then finds the
-- context done and returns, so that the state is disconnected, the pool holds an open connection,
-- and no step of this runner is left to close it.
pub stop_leaks :
    (cfg : Config) (r r' : Result) (k n : ℕ) (m : Manager)
    → m.cancel_fn ≡ some (m.runners k).context
    → (m.runners k).phase ≡ extra_dialing n
    → r.ok ≡ true
    → ((run_steps cfg ((r, k) ∷ (r', k) ∷ []) (stop m)).state ≡ disconnected)
      × ((run_steps cfg ((r, k) ∷ (r', k) ∷ []) (stop m)).pool_open ≡ true)
      × (((run_steps cfg ((r, k) ∷ (r', k) ∷ []) (stop m)).runners k).phase ≡ returned)
stop_leaks cfg r r' k n m mine at made =
    let same = stop-runners m in
    let still = ap (λ (rs : ℕ → Runner). (rs k).phase) same ∙ at in
    let ctx = ap (λ (rs : ℕ → Runner). (rs k).context) same in
    let m1 = set_phase k (extra n) (record (stop m) { pool_open = true }) in
    let first : run_step cfg r k (stop m) ≡ m1 = dialed cfg r k n (stop m) still made in
    let done : m1.cancelled (m1.runners k).context ≡ true =
      ap m1.cancelled (set_phase-context k (extra n) (record (stop m) { pool_open = true }) ∙ ctx)
      ∙ stop-cancelled (m.runners k).context m mine in
    let second : run_step cfg r' k m1 ≡ set_phase k returned m1 =
      front_returns cfg r' k n m1
        (set_phase-phase k (extra n) (record (stop m) { pool_open = true })) done in
    let steps = ap (run_step cfg r' k) first ∙ second in
    (
      ap (λ (x : Manager). x.state) steps ∙ stop-closed m,
      ap (λ (x : Manager). x.pool_open) steps,
      ap (λ (x : Manager). (x.runners k).phase) steps ∙ set_phase-phase k returned m1,
    )

start_free :
    (m : Manager)
    → is_running m.state ≡ false
    → start m ≡ (
      true,
      add_runner
          (record { context = m.contexts; phase = at_top })
          (record m { cancel_fn = some m.contexts; contexts = suc m.contexts }),
    )
unfolding start
start_free m e =
    ap
      (λ (b : Bool). if b then (false, m) else (
        true,
        add_runner (record { context = m.contexts; phase = at_top })
            (record m { cancel_fn = some m.contexts; contexts = suc m.contexts }),
      ))
      e

-- `Start` is not refused in the states INJECTING, RECONNECTING and ERROR, in which a runner may be
-- at work; a runner is then left as it is, `Start` forgets how to cancel its context, and a `Stop`
-- behind it does not cancel it.
pub start_forgets :
    (m : Manager) (k c : ℕ)
    → is_running m.state ≡ false
    → m.cancelled c ≡ false
    → c ≢ m.contexts
    → k ≢ m.count
    → ((start m).0 ≡ true)
      × ((stop (start m).1).cancelled c ≡ false)
      × ((stop (start m).1).runners k ≡ m.runners k)
unfolding stop cleanup
start_forgets m k c free alive other_context other =
    let started = start_free m free in
    (
      ap (λ (x : Bool × Manager). x.0) started,
      ap (λ (x : Bool × Manager). (stop x.1).cancelled c) started ∙ ground (arith, alive),
      ap (λ (x : Bool × Manager). (stop x.1).runners k) started ∙ ground arith,
    )
