-- ===== src/Tests/Managers.antt =====
-- manager.go: a start that is stopped early, late, and twice.
use files_downloader_golang.Common.{
  ℕ, zero, suc, ◌≡◌, refl, inl, inr, true, false, some, [], ◌∷◌, arith,
}
use files_downloader_golang.Common.Text.{codes}
use files_downloader_golang.Tunnel.Config.{Config, default_config}
use files_downloader_golang.Tunnel.Manager.{
  connected, disconnected, extra_dialing, returned, listening, Manager, new_manager, is_running,
  start, stop, Result, step_runner, run_step,
}
use files_downloader_golang.Tunnel.Stopping.{Resting, Closed, run_steps, stop_rests}
use files_downloader_golang.Tunnel.Overtaking.{stop_overtaken, stop_leaks, start_forgets}

abbrev cfg : Config
cfg = record default_config { bug_host = codes "b"; ssh_host = codes "s" }

abbrev fine : Result
fine = record { ok = true; forwarder_ok = true }

abbrev started : Manager
started = (start new_manager).1

abbrev bound : Manager
bound = run_steps cfg ((fine, 0) ∷ (fine, 0) ∷ (fine, 0) ∷ (fine, 0) ∷ []) started

bound_listening : (bound.runners 0).phase ≡ listening
unfolding start run_step step_runner
bound_listening = refl

connected_run : (run_steps cfg ((fine, 0) ∷ (fine, 0) ∷ (fine, 0) ∷ []) bound).state ≡ connected
unfolding start run_step step_runner
connected_run = refl

stop_overtaken_example :
    ((run_steps cfg ((fine, 0) ∷ (fine, 0) ∷ (fine, 0) ∷ []) (stop bound)).state ≡ connected)
    × ((run_steps cfg ((fine, 0) ∷ (fine, 0) ∷ (fine, 0) ∷ []) (stop bound)).socks_open ≡ true)
stop_overtaken_example = stop_overtaken cfg fine fine fine 0 bound bound_listening refl

abbrev dialing_one : Manager
dialing_one = run_steps cfg ((fine, 0) ∷ (fine, 0) ∷ []) started

abbrev done_once : Manager
done_once = run_steps cfg ((fine, 0) ∷ (fine, 0) ∷ (fine, 0) ∷ []) bound

done_cancel : done_once.cancel_fn ≡ some 0
unfolding start run_step step_runner
done_cancel = refl

-- The first runner has returned, the second is in front of its test.
done-Resting : (k : ℕ) → Resting 0 (done_once.runners k)
unfolding start run_step step_runner
done-Resting zero = inl refl
done-Resting (suc zero) = inr (refl, inr (inr (1, refl)))
done-Resting (suc (suc k)) = inl (ground arith)

stop_rests_example : Closed (run_steps cfg ((fine, 0) ∷ (fine, 1) ∷ []) (stop done_once))
stop_rests_example =
    stop_rests cfg 0 ((fine, 0) ∷ (fine, 1) ∷ []) done_once done_cancel done-Resting

-- The second runner dials.
abbrev dialing_more : Manager
dialing_more = run_step cfg fine 1 done_once

dialing_more_state :
    (dialing_more.cancel_fn ≡ some (dialing_more.runners 1).context)
    × ((dialing_more.runners 1).phase ≡ extra_dialing 0)
unfolding start run_step step_runner
dialing_more_state = (refl, refl)

stop_leaks_example :
    ((run_steps cfg ((fine, 1) ∷ (fine, 1) ∷ []) (stop dialing_more)).state ≡ disconnected)
    × ((run_steps cfg ((fine, 1) ∷ (fine, 1) ∷ []) (stop dialing_more)).pool_open ≡ true)
    × (((run_steps cfg ((fine, 1) ∷ (fine, 1) ∷ []) (stop dialing_more)).runners 1).phase
        ≡ returned)
stop_leaks_example =
    stop_leaks cfg fine fine 1 0 dialing_more dialing_more_state.0 dialing_more_state.1 refl

dialing_state :
    (is_running dialing_one.state ≡ false)
    × (dialing_one.cancelled 0 ≡ false)
    × (dialing_one.contexts ≡ 1)
    × (dialing_one.count ≡ 1)
unfolding start run_step step_runner
dialing_state = (refl, refl, refl, refl)

start_forgets_example :
    ((start dialing_one).0 ≡ true)
    × ((stop (start dialing_one).1).cancelled 0 ≡ false)
    × ((stop (start dialing_one).1).runners 0 ≡ dialing_one.runners 0)
start_forgets_example =
    start_forgets dialing_one 0 0 dialing_state.0 dialing_state.1
      (λ e. let one = dialing_state.2 in absurd (omega arith))
      (λ e. let one = dialing_state.3 in absurd (omega arith))
