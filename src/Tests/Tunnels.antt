-- ===== src/Tests/Tunnels.antt =====
-- pkg/tunnel on concrete inputs.
use files_downloader_golang.Common.{
  ℕ, ◌≡◌, refl, ◌↔◌, true, false, none, some, List, [], ◌∷◌, ◌++◌, arith, length, drop,
}
use files_downloader_golang.Common.Int.{negsuc}
use files_downloader_golang.Common.Text.{Bytes, codes, text_eq}
use files_downloader_golang.Tunnel.Socks.{
  domain, Target, World, accept_greeting, reply, refuse, handle_connection, Asks, read_full,
  connect, take_port, take_host, take_request, take_methods, take_header,
}
use files_downloader_golang.Tunnel.Handshake.{handle_connection_iff}
use files_downloader_golang.Tunnel.Dns.{
  panics, sent, Upstream, ask, find, store, remove, frame, take_answer, put_id, handle_query,
  from_cache, fetch,
}
use files_downloader_golang.Tunnel.Answers.{
  Put, after_puts, Right, handle_query_answers, short_answer_panics,
}
use files_downloader_golang.Tunnel.Prefixed.{
  PrefixedConn, read_prefixed, read_from, stream_of, StreamRead, read_prefixed_refines,
}
use files_downloader_golang.Tunnel.Registry.{
  ServerEvent, accepts, registers, sets_closed, sweeps, over, handled, new_server, run_server,
  step_server, accept, register_at, finish_at, sweep,
}
use files_downloader_golang.Tunnel.Closing.{ShutAs, run_server_closes}
use files_downloader_golang.Tunnel.Config.{
  Config, ConfigStore, default_config, new_store, written, update, Sane, update-new_store,
}

abbrev world : World
world = record {
  greeting_written = true;
  client_ready = true;
  dials = λ t. true;
  success_written = true;
}

abbrev host_target : Target
host_target = record { host = domain (codes "a.b"); port = 443 }

abbrev host_request : Bytes
host_request = 5 ∷ 1 ∷ 0 ∷ 5 ∷ 1 ∷ 0 ∷ 3 ∷ 3 ∷ (codes "a.b" ++ (1 ∷ 187 ∷ 22 ∷ []))

handshake_run :
    handle_connection world host_request
    ≡ (accept_greeting ∷ reply 0 ∷ [], some (host_target, 22 ∷ []))
unfolding handle_connection take_header take_methods take_request take_host take_port connect
    read_full
handshake_run = refl

-- A BIND request is refused.
refused_run : handle_connection world (5 ∷ 1 ∷ 0 ∷ 5 ∷ 2 ∷ 0 ∷ 1 ∷ []) ≡ refuse 7
unfolding handle_connection take_header take_methods take_request take_host take_port connect
    read_full
refused_run = refl

handle_connection_iff_example :
    (handle_connection world host_request
      ≡ (accept_greeting ∷ reply 0 ∷ [], some (host_target, 22 ∷ [])))
    ↔ Asks world host_request host_target (22 ∷ [])
handle_connection_iff_example = handle_connection_iff world host_request host_target (22 ∷ [])

abbrev query : ℕ → Bytes
query id = 0 ∷ id ∷ 1 ∷ 0 ∷ 0 ∷ 1 ∷ 0 ∷ 0 ∷ 0 ∷ 0 ∷ 0 ∷ 0 ∷ 97 ∷ []

abbrev upstream : Bytes → Upstream
upstream answer = record {
  client_ready = true;
  first_dials = false;
  second_dials = true;
  frame_written = true;
  stream = λ q. 0 ∷ length answer ∷ answer;
}

abbrev old : List Put
old = record { time = 100; key = 97 ∷ []; answer = 9 ∷ 9 ∷ 5 ∷ [] } ∷ []

cached_run :
    (handle_query (upstream []) 159 159 (query 7) (after_puts old)).0 ≡ sent (0 ∷ 7 ∷ 5 ∷ [])
unfolding handle_query from_cache fetch store find put_id text_eq remove ask
cached_run = refl

handle_query_answers_example : Right old (upstream []) 159 (query 7) (0 ∷ 7 ∷ 5 ∷ [])
handle_query_answers_example =
    handle_query_answers old (upstream []) 159 159 (query 7) (0 ∷ 7 ∷ 5 ∷ []) cached_run

answered : ask (upstream (1 ∷ [])) (query 7) ≡ some (1 ∷ [])
unfolding ask take_answer frame read_full
answered = refl

nothing_cached : find (drop 12 (query 7)) [] ≡ none
unfolding find
nothing_cached = refl

short_answer_panics_example :
    (handle_query
      (upstream [])
      110
      110
      (query 8)
      (handle_query (upstream (1 ∷ [])) 100 101 (query 7) []).1).0
    ≡ panics
short_answer_panics_example =
    short_answer_panics (upstream (1 ∷ [])) (upstream []) 100 101 110 110 1 (query 7) (query 8) []
      nothing_cached answered refl (omega arith)

abbrev early : PrefixedConn
early = record { prefix = 1 ∷ 2 ∷ 3 ∷ []; conn = (4 ∷ 5 ∷ []) ∷ [] }

early_run :
    ((read_prefixed 2 early).0 ≡ some (1 ∷ 2 ∷ []))
    × ((read_prefixed 2 (read_prefixed 2 early).1).0 ≡ some (3 ∷ []))
unfolding read_from
early_run = (refl, refl)

read_prefixed_refines_example :
    StreamRead 2 (stream_of early) (read_prefixed 2 early).0 (stream_of (read_prefixed 2 early).1)
read_prefixed_refines_example = read_prefixed_refines 2 early

-- Connection 1 is registered before `Close` has swept, connection 2 after the flag is set.
abbrev events : List ServerEvent
events = accepts 1 ∷ accepts 2 ∷ registers 1 ∷ sets_closed ∷ registers 2 ∷ sweeps ∷ []

closing_run :
    ((run_server events new_server).stage 1 ≡ handled)
    × ((run_server events new_server).shut 1 ≡ true)
    × ((run_server events new_server).stage 2 ≡ over)
    × ((run_server events new_server).shut 2 ≡ true)
unfolding run_server step_server accept register_at finish_at sweep
closing_run = (refl, refl, refl, refl)

run_server_closes_example :
    ShutAs (run_server events new_server) 2 ((run_server events new_server).stage 2)
run_server_closes_example = run_server_closes events 2

-- Settings with a port that is none, in a file that holds them as they are.
abbrev broken_config : Config
broken_config = record default_config { bug_port = negsuc 0 }

abbrev first_store : ConfigStore Config
first_store = record { current = default_config; file = none }

saves : (update (λ c. c) (λ c. some c) written broken_config first_store).0 ≡ true
unfolding update
saves = refl

update-new_store_example :
    Sane
      (new_store
        (λ c. c)
        (λ c. some c)
        (update (λ c. c) (λ c. some c) written broken_config first_store).1.file).current
    × ((new_store
            (λ c. c)
            (λ c. some c)
            (update (λ c. c) (λ c. some c) written broken_config first_store).1.file).current
          ≡ broken_config
        ↔ Sane broken_config)
update-new_store_example =
    update-new_store (λ c. c) (λ c. some c) broken_config first_store written refl saves
