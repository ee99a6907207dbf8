-- ===== src/Startup.antt =====
-- src/main.cpp: how `main` makes the servers, starts them, and stops them at a signal. The places of
-- failure are the settings, the listener for WebSocket sessions, and the address of the HTTP server.
pub mod Outcomes
use memory_atlas_server.Prelude.{ℕ, Bool, true, false, Option, none, some, Text, utf8}
use memory_atlas_server.History.Writing.{Disk}
use memory_atlas_server.History.Store.{init}
use memory_atlas_server.Chat.State.{Server, Session}
use memory_atlas_server.Chat.Server.{create, stop}
use memory_atlas_server.Config.{Settings, Configured, configured, stopped, read_settings}
use memory_atlas_server.Listening.{
  Setup, Listener, HttpServer, create_or_throw, ws_run, run_http_server, stop_http_server,
}

-- What the system answers while `main` starts.
pub record Platform : Type 0 where
  pub getenv : Text → Option Text
  pub is_address : Text → Bool
  pub hardware_threads : ℕ
  -- the acceptors for an address and a port; that of the WebSocket listener is set up first
  pub ws_setup : Text → ℕ → Setup
  pub http_setup : Text → ℕ → Setup
  -- the directories of the history can be made
  pub creates_directories : Bool
  pub disk : Disk
  pub session_at : ℕ → Session

-- The servers, and the threads of the `io_context` that the chat sessions share.
pub record Program : Type 0 where
  pub http_server : HttpServer
  pub chat_server : Server
  pub ws_listener : Listener
  pub io_threads : ℕ
  pub ioc_stopped : Bool

-- `main` has returned with a status, or waits for the threads.
pub data Outcome : Type 0 where
  exited : ℕ → Outcome
  serving : Program → Outcome

abbrev pub num_total_threads : ℕ
num_total_threads = 4

unfoldable pub create_http_server : Settings → HttpServer
create_http_server c = record {
  threads = c.http_threads;
  listener = none;
  io_threads = 0;
  ioc_stopped = false;
}

unfoldable pub create_chat_server : Platform → Server
create_chat_server system =
    create (init (utf8 "history") system.creates_directories system.disk) system.session_at

-- Behind `http_server->run()`: an exception of it ends the program.
unfoldable pub run_servers : Platform → Listener → Option HttpServer → Outcome
unfolding create_chat_server
run_servers system l none = exited 1
run_servers system l (some http_server) = serving (record {
  http_server = http_server;
  chat_server = create_chat_server system;
  ws_listener = ws_run l;
  io_threads = num_total_threads;
  ioc_stopped = false;
})

-- Behind the constructor of `WebSocketListener`.
unfoldable pub with_listener : Platform → Settings → Option Listener → Outcome
unfolding run_servers create_http_server
with_listener system c none = exited 1
with_listener system c (some l) = run_servers system l (
    run_http_server (system.is_address c.http_bind_ip) system.hardware_threads
      (system.http_setup c.http_bind_ip c.http_port) (system.getenv (utf8 "GOOGLE_MAPS_API_KEY"))
      (create_http_server c))

unfoldable pub with_settings : Platform → Configured → Outcome
unfolding with_listener
with_settings system (stopped error) = exited 1
with_settings system (configured c) =
    with_listener system c (create_or_throw (system.ws_setup (utf8 "0.0.0.0") c.ws_port))

-- `main`, up to the wait for the threads.
unfoldable pub start : Platform → Outcome
unfolding with_settings
start system = with_settings system (read_settings system.getenv)

-- The handler of SIGINT and SIGTERM.
unfoldable pub on_signal : Program → Program
on_signal p = record p {
  http_server = stop_http_server p.http_server;
  chat_server = (stop p.chat_server).0;
  ioc_stopped = true;
}

-- `main` joins the threads, which return once the `io_context` is stopped, and returns zero.
unfoldable pub join_threads : Program → Outcome
join_threads p = elim p.ioc_stopped [ true ↦ exited 0 | false ↦ serving p ]
