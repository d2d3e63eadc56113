-- ===== src/Tunnel/Manager.antt =====
-- pkg/tunnel/manager.go: the tunnel's manager, its runners and `Stop`.
-- A runner is a goroutine in `runTunnel`, or the one that it starts for the parallel SSH
-- connections. A step is what one does between two points at which others can get in; how the
-- dials, the handshakes and the binds end is data. The settings do not change meanwhile. Logs and
-- speeds are left out.
use files_downloader_golang.Common.{
  ℕ, zero, suc, ◌-◌, Bool, true, false, not, ◌&&◌, ◌||◌, Option, none, some, [], ◌∷◌, ◌==◌,
  if◌then◌else◌,
}
use files_downloader_golang.Common.Int.{pos, pos_part, ltb_ℤ}
use files_downloader_golang.Common.Text.{Bytes}
use files_downloader_golang.Tunnel.Config.{Config}

-- `TunnelState`
pub data TunnelState : Type 0 where
  disconnected connecting injecting ssh_auth connected reconnecting failed : TunnelState

-- Where a runner is: in front of the test of its context, behind each change of the state, behind
-- the SSH handshake, behind the start of the SOCKS5 server, behind the routing, in `waitRetry`, at
-- the start of `reconnect`, or returned. The runner for the parallel connections is in front of its
-- loop's test with `n` of them to go, or dials one and has `n` to go behind it.
pub data Phase : Type 0 where
  at_top announced dialing authenticating listening routing finishing : Phase
  waiting clearing returned : Phase
  extra extra_dialing : ℕ → Phase

pub record Runner : Type 0 where
  pub context : ℕ
  pub phase : Phase

-- Contexts and runners are numbers, below `contexts` and `count`.
pub record Manager : Type 0 where
  pub state : TunnelState
  pub pool_open : Bool
  pub dns_open : Bool
  pub socks_open : Bool
  pub vpn_active : Bool
  pub proxy_on : Bool
  pub cancel_fn : Option ℕ
  pub cancelled : ℕ → Bool
  pub contexts : ℕ
  pub runners : ℕ → Runner
  pub count : ℕ

abbrev is_empty : Bytes → Bool
is_empty [] = true
is_empty (c ∷ s) = false

-- `setState`
abbrev pub set_state : TunnelState → Manager → Manager
set_state state m = record m { state = state }

abbrev pub set_phase : ℕ → Phase → Manager → Manager
set_phase k phase m = record m {
  runners = λ j. if j == k then record (m.runners j) { phase = phase } else m.runners j;
}

abbrev pub add_runner : Runner → Manager → Manager
add_runner r m = record m {
  runners = λ j. if j == m.count then r else m.runners j;
  count = suc m.count;
}

-- `Start`'s test.
abbrev pub is_running : TunnelState → Bool
is_running connected = true
is_running connecting = true
is_running ssh_auth = true
is_running _ = false

-- `Start`; the answer is whether it returns no error.
unfoldable pub start : Manager → Bool × Manager
start m = if is_running m.state then (false, m) else (
  true,
  add_runner (record { context = m.contexts; phase = at_top })
      (record m { cancel_fn = some m.contexts; contexts = suc m.contexts }),
)

abbrev pub cancel : Option ℕ → Manager → Manager
cancel none m = m
cancel (some c) m = record m {
  cancelled = λ d. if d == c then true else m.cancelled d;
  cancel_fn = none;
}

-- `cleanup`
unfoldable pub cleanup : Manager → Manager
cleanup m = record m {
  pool_open = false;
  dns_open = false;
  socks_open = false;
  vpn_active = false;
  proxy_on = false;
}

-- `Stop`
unfoldable pub stop : Manager → Manager
unfolding cleanup
stop m = set_state disconnected (cleanup (cancel m.cancel_fn m))

-- How the call from outside in a step ends, and for the VPN the start of the DNS forwarder.
pub record Result : Type 0 where
  pub ok : Bool
  pub forwarder_ok : Bool

-- A step that failed: the runner tries again later, or returns.
abbrev pub give_up : Config → ℕ → Manager → Manager
give_up cfg k m =
    set_phase k (if cfg.auto_reconnect then waiting else returned) (set_state failed m)

-- The VPN or the system proxy.
abbrev pub route : Config → Result → Manager → Manager
route cfg r m =
    if cfg.use_vpn
    then (if r.ok
        then record m { vpn_active = true; dns_open = m.dns_open || r.forwarder_ok }
        else m)
    else if cfg.auto_set_system_proxy && r.ok
    then record m { proxy_on = true }
    else m

-- The runner for the parallel connections, started behind the first one if there are to be more.
abbrev pub add_extra : Config → ℕ → Manager → Manager
add_extra cfg c m =
    if ltb_ℤ (pos 1) cfg.ssh_concurrency
    then add_runner (record { context = c; phase = extra (pos_part cfg.ssh_concurrency - 1) }) m
    else m

-- What runner `k` does next in `runTunnel`, `waitRetry` and `reconnect`.
unfoldable pub step_runner : Config → Result → ℕ → Phase → Manager → Manager
step_runner cfg r k at_top m =
    if m.cancelled (m.runners k).context
    then set_phase k returned m
    else if is_empty cfg.bug_host || is_empty cfg.ssh_host
    then set_phase k returned (set_state failed m)
    else set_phase k announced (set_state connecting m)
step_runner cfg r k announced m = set_phase k dialing (set_state injecting m)
step_runner cfg r k dialing m =
    if r.ok then set_phase k authenticating (set_state ssh_auth m) else give_up cfg k m
step_runner cfg r k authenticating m =
    if r.ok
    then add_extra cfg (m.runners k).context (set_phase k listening (record m { pool_open = true }))
    else give_up cfg k m
step_runner cfg r k listening m =
    if m.socks_open || r.ok
    then set_phase k routing (record m { socks_open = true })
    else set_phase k returned (set_state failed (record m { pool_open = false }))
step_runner cfg r k routing m = set_phase k finishing (route cfg r m)
step_runner cfg r k finishing m = set_phase k returned (set_state connected m)
step_runner cfg r k waiting m = set_phase k at_top m
step_runner cfg r k clearing m =
    set_phase k at_top (record m { dns_open = false; pool_open = false })
step_runner cfg r k returned m = m
step_runner cfg r k (extra zero) m = set_phase k returned m
step_runner cfg r k (extra (suc n)) m =
    if m.cancelled (m.runners k).context
    then set_phase k returned m
    else set_phase k (extra_dialing n) m
step_runner cfg r k (extra_dialing n) m =
    set_phase k (extra n) (if r.ok then record m { pool_open = true } else m)

unfoldable pub run_step : Config → Result → ℕ → Manager → Manager
unfolding step_runner
run_step cfg r k m = step_runner cfg r k (m.runners k).phase m

-- The SSH connection that a runner of context `c` made is lost.
unfoldable pub drop_connection : Config → ℕ → Manager → Manager
drop_connection cfg c m =
    if cfg.auto_reconnect
    then add_runner (record { context = c; phase = clearing }) (set_state reconnecting m)
    else m

-- `ToggleSystemProxy`; `ok` is whether the system takes the setting. The answer is the proxy's
-- state, and whether there is no error.
unfoldable pub toggle_proxy : Bool → Manager → Bool × Bool × Manager
toggle_proxy ok m =
    if ok
    then (not m.proxy_on, true, record m { proxy_on = not m.proxy_on })
    else (m.proxy_on, false, m)

-- `NewTunnelManager`
abbrev pub new_manager : Manager
new_manager = record {
  state = disconnected;
  pool_open = false;
  dns_open = false;
  socks_open = false;
  vpn_active = false;
  proxy_on = false;
  cancel_fn = none;
  cancelled = λ c. false;
  contexts = 0;
  runners = λ k. record { context = 0; phase = returned };
  count = 0;
}
