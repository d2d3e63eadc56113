-- ===== src/Tunnel/Registry.antt =====
-- pkg/tunnel/socks5.go: the connections of a `SocksServer`, from `Accept` to `Close`.
-- A connection is a number. A step is what one goroutine does between two points at which others
-- can get in; `Close` runs in two steps, before and under the lock, and so does the
-- deferred function of a handler, under the lock and behind it.
use files_downloader_golang.Common.{
  ℕ, ◌+◌, ◌-◌, Bool, true, false, ◌||◌, List, [], ◌∷◌, ◌==◌, if◌then◌else◌,
}

-- Where a connection is: not there yet, accepted and not yet registered, with its handler, taken
-- out of the register by the deferred function, or over.
pub data Stage : Type 0 where
  unknown accepted handled deleted over : Stage

-- `closed` is the flag, `swept` says that `Close` has closed the registered connections; `shut c`
-- says that connection `c` is closed, `hung_up c` that its handler has closed it.
pub record Server : Type 0 where
  pub closed : Bool
  pub swept : Bool
  pub stage : ℕ → Stage
  pub registered : ℕ → Bool
  pub shut : ℕ → Bool
  pub hung_up : ℕ → Bool
  pub active : ℕ

abbrev pub new_server : Server
new_server = record {
  closed = false;
  swept = false;
  stage = λ c. unknown;
  registered = λ c. false;
  shut = λ c. false;
  hung_up = λ c. false;
  active = 0;
}

pub data ServerEvent : Type 0 where
  accepts registers hangs_up deletes finishes : ℕ → ServerEvent
  sets_closed sweeps : ServerEvent

abbrev pub put : {A : Type 0} → ℕ → A → (ℕ → A) → ℕ → A
put c v f d = if d == c then v else f d

abbrev pub is_unknown : Stage → Bool
is_unknown unknown = true
is_unknown _ = false

-- `Accept` returns a new connection.
unfoldable pub accept : ℕ → Server → Server
accept c s = if is_unknown (s.stage c) then record s { stage = put c accepted s.stage } else s

-- The part of `acceptLoop` under the lock, and the start of the handler.
unfoldable pub register_at : ℕ → Stage → Server → Server
register_at c accepted s =
    if s.closed
    then record s { stage = put c over s.stage; shut = put c true s.shut }
    else record s {
      stage = put c handled s.stage;
      registered = put c true s.registered;
      active = s.active + 1;
    }
register_at c _ s = s

-- `localConn.Close` in `handleConnection`.
unfoldable pub hang_up_at : ℕ → Stage → Server → Server
hang_up_at c handled s = record s { shut = put c true s.shut; hung_up = put c true s.hung_up }
hang_up_at c _ s = s

-- The deferred function behind `handleConnection`, up to the end of the lock.
unfoldable pub delete_at : ℕ → Stage → Server → Server
delete_at c handled s = record s {
  stage = put c deleted s.stage;
  registered = put c false s.registered;
}
delete_at c _ s = s

-- The rest of it.
unfoldable pub finish_at : ℕ → Stage → Server → Server
finish_at c deleted s = record s {
  stage = put c over s.stage;
  shut = put c true s.shut;
  active = s.active - 1;
}
finish_at c _ s = s

-- `Close`, under the lock: only the call that has set the flag gets there.
unfoldable pub sweep : Server → Server
sweep s =
    if s.closed
    then record s { swept = true; shut = λ c. s.registered c || s.shut c; registered = λ c. false }
    else s

unfoldable pub step_server : ServerEvent → Server → Server
unfolding accept register_at hang_up_at delete_at finish_at sweep
step_server (accepts c) s = accept c s
step_server (registers c) s = register_at c (s.stage c) s
step_server (hangs_up c) s = hang_up_at c (s.stage c) s
step_server (deletes c) s = delete_at c (s.stage c) s
step_server (finishes c) s = finish_at c (s.stage c) s
step_server sets_closed s = record s { closed = true }
step_server sweeps s = sweep s

unfoldable pub run_server : List ServerEvent → Server → Server
unfolding step_server
run_server [] s = s
run_server (e ∷ events) s = run_server events (step_server e s)
