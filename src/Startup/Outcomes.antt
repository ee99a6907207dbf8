-- ===== src/Startup/Outcomes.antt =====
-- src/main.cpp: when the program starts, and how it ends.
use memory_atlas_server.Prelude.{◌<◌, ◌≡◌, refl, [], Bool, true, false, ◌&&◌, some, utf8, arith}
use memory_atlas_server.Config.{
  Settings, Configured, configured, stopped, read_settings, concurrency_hint,
}
use memory_atlas_server.Config.Numbers.{IsValidPort, read_settings-ports}
use memory_atlas_server.Listening.{
  Setup, ws_run, HttpListener, listening, fresh, create_or_throw, run_http_server, stage_of,
  create_http_listener, run_http_listener, stop_http_server,
}
use memory_atlas_server.Chat.Server.{create, stop}
use memory_atlas_server.Startup.{
  Platform, Program, Outcome, exited, serving, start, with_settings, with_listener, run_servers,
  create_http_server, create_chat_server, on_signal, join_threads,
}

abbrev pub is_complete : Setup → Bool
is_complete setup = setup.opens && setup.sets_option && setup.binds && setup.listens

-- What the system must answer for the servers to start; the acceptor of the HTTP server is not
-- among it.
abbrev pub can_serve : Platform → Configured → Bool
can_serve system (stopped error) = false
can_serve system (configured c) =
    is_complete (system.ws_setup (utf8 "0.0.0.0") c.ws_port) && system.is_address c.http_bind_ip

-- A program that has started with these settings, and ends with the status zero at a signal.
pub record Serves (system : Platform) (c : Settings) (p : Program) : Type 0 where
  pub http_port : IsValidPort c.http_port
  pub ws_port : IsValidPort c.ws_port
  pub hint : 0 < concurrency_hint c.http_threads
  pub ws_listens : p.ws_listener.stage ≡ listening
  pub ws_accepts : p.ws_listener.accepting ≡ true
  pub http_listener : HttpListener
  pub http_listens : p.http_server.listener ≡ some http_listener
  pub http_stage :
      http_listener.listener.stage ≡ stage_of (system.http_setup c.http_bind_ip c.http_port)
  pub http_accepts : http_listener.listener.accepting ≡ true
  pub http_threads : 0 < p.http_server.io_threads
  pub chat_runs : p.chat_server.stopped ≡ false
  pub chat_is_empty : p.chat_server.sessions ≡ []
  pub waits : join_threads p ≡ serving p
  pub ends : join_threads (on_signal p) ≡ exited 0
  pub chat_stops : (on_signal p).chat_server.stopped ≡ true
  pub http_stops : (on_signal p).http_server.io_threads ≡ 0

abbrev pub IsLaunched : Platform → Bool → Configured → Outcome → Type 0
IsLaunched system can settings (exited status) = (status ≡ 1) × (can ≡ false)
IsLaunched system can settings (serving p) =
    (can ≡ true) × (c : Settings) × (settings ≡ configured c) × Serves system c p

servers-IsLaunched :
    (system : Platform) (c : Settings) (is_address : Bool)
    → read_settings system.getenv ≡ configured c
    → IsLaunched system is_address (configured c) (
        run_servers system (fresh listening) (
          run_http_server is_address system.hardware_threads
            (system.http_setup c.http_bind_ip c.http_port)
            (system.getenv (utf8 "GOOGLE_MAPS_API_KEY"))
            (create_http_server c)))
unfolding run_servers run_http_server create_http_server create_chat_server join_threads on_signal
    run_http_listener create_http_listener ws_run stop_http_server create stop
servers-IsLaunched system c false e = (refl, refl)
servers-IsLaunched system c true e =
    let (h, w, t, hint) = read_settings-ports system.getenv c system.hardware_threads e in
    (
      refl,
      c,
      refl,
      record {
        http_port = h;
        ws_port = w;
        hint = hint;
        ws_listens = refl;
        ws_accepts = refl;
        http_listener = _;
        http_listens = refl;
        http_stage = refl;
        http_accepts = refl;
        http_threads = omega (arith, t);
        chat_runs = refl;
        chat_is_empty = refl;
        waits = refl;
        ends = refl;
        chat_stops = refl;
        http_stops = refl;
      },
    )

listener-IsLaunched :
    (system : Platform) (c : Settings) (opens sets_option binds listens : Bool)
    → read_settings system.getenv ≡ configured c
    → let setup : Setup = record {
      opens = opens;
      sets_option = sets_option;
      binds = binds;
      listens = listens;
    } in
      IsLaunched system
        (is_complete setup && system.is_address c.http_bind_ip)
        (configured c)
        (with_listener system c (create_or_throw setup))
unfolding with_listener create_or_throw
listener-IsLaunched system c false sets_option binds listens e = (refl, refl)
listener-IsLaunched system c true false binds listens e = (refl, refl)
listener-IsLaunched system c true true false listens e = (refl, refl)
listener-IsLaunched system c true true true false e = (refl, refl)
listener-IsLaunched system c true true true true e =
    servers-IsLaunched system c (system.is_address c.http_bind_ip) e

settings-IsLaunched :
    (system : Platform) (settings : Configured)
    → read_settings system.getenv ≡ settings
    → IsLaunched system (can_serve system settings) settings (with_settings system settings)
unfolding with_settings
settings-IsLaunched system (stopped error) e = (refl, refl)
settings-IsLaunched system (configured c) e =
    let setup = system.ws_setup (utf8 "0.0.0.0") c.ws_port in
    listener-IsLaunched system c setup.opens setup.sets_option setup.binds setup.listens e

-- The program exits with the status 1 exactly where its settings cannot be read, the acceptor of
-- the WebSocket listener cannot be set up, or the address of the HTTP server is none. Otherwise it
-- serves, with both ports between 1 and 65535: the WebSocket listener listens and accepts; the
-- HTTP server has at least one thread, and a listener that accepts whether or not its acceptor
-- could be set up; the chat server runs and has no sessions. It goes on until a signal, which
-- stops the chat server, joins the threads of the HTTP server, and makes the program exit with the
-- status 0.
pub start-IsLaunched :
    (system : Platform)
    → IsLaunched system
        (can_serve system (read_settings system.getenv))
        (read_settings system.getenv)
        (start system)
unfolding start
start-IsLaunched system = settings-IsLaunched system _ refl
