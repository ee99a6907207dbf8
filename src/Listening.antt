-- ===== src/Listening.antt =====
-- The listeners: src/ChatListener.cpp, src/WebSocketListener.cpp, and `HttpListener` and
-- `HttpServer` of src/HttpServer.cpp. Sockets are numbers; what the acceptor answers is given.
pub mod Answering
pub mod Accepting
use memory_atlas_server.Prelude.{
  ℕ, zero, suc, ◌+◌, List, [], ◌∷◌, ◌++◌, Bool, true, false, not, if◌then◌else◌, is_empty, Option,
  none, some, Text, ℤ,
}
use memory_atlas_server.Config.{thread_count}

-- Whether the four calls that set an acceptor up succeed.
pub record Setup : Type 0 where
  pub opens : Bool
  pub sets_option : Bool
  pub binds : Bool
  pub listens : Bool

-- How far an acceptor has been set up.
pub data Stage : Type 0 where
  unopened opened bound listening : Stage

pub record Listener : Type 0 where
  pub stage : Stage
  -- an `async_accept` is under way
  pub accepting : Bool
  -- the sockets of the sessions that were started, oldest first
  pub started : List ℕ
  -- how many failures of an accept it has logged
  pub failures : ℕ

abbrev pub fresh : Stage → Listener
fresh stage = record { stage = stage; accepting = false; started = []; failures = 0 }

abbrev pub is_open : Stage → Bool
is_open unopened = false
is_open opened = true
is_open bound = true
is_open listening = true

-- The stage that the calls reach: each failure ends the constructor.
unfoldable pub stage_of : Setup → Stage
stage_of setup =
    if not setup.opens
    then unopened
    else if not setup.sets_option
    then opened
    else if not setup.binds
    then opened
    else if not setup.listens
    then bound
    else listening

-- `ChatListener` and `WebSocketListener`: the constructor throws, which is `none`.
unfoldable pub create_or_throw : Setup → Option Listener
create_or_throw setup =
    if not setup.opens
    then none
    else if not setup.sets_option
    then none
    else if not setup.binds
    then none
    else if not setup.listens
    then none
    else some (fresh listening)

abbrev pub do_accept : Listener → Listener
do_accept l = record l { accepting = true }

-- The answer of an accept: a socket, one whose peer is gone, so that `remote_endpoint` throws, or an
-- error.
pub data Accept : Type 0 where
  accepted vanished : ℕ → Accept
  failed : Accept

abbrev pub add_session : ℕ → Listener → Listener
add_session socket l = record l { accepting = false; started = l.started ++ socket ∷ [] }

abbrev pub log_failure : Listener → Listener
log_failure l = record l { accepting = false; failures = l.failures + 1 }

-- `ChatListener`
unfoldable pub chat_do_accept : Listener → Listener
chat_do_accept l = if not (is_open l.stage) then l else do_accept l

unfoldable pub chat_run : Listener → Listener
unfolding chat_do_accept
chat_run l = if not (is_open l.stage) then l else chat_do_accept l

-- The exception is caught, and no session is made.
abbrev pub chat_note : Accept → Listener → Listener
chat_note (accepted socket) l = add_session socket l
chat_note (vanished socket) l = record l { accepting = false }
chat_note failed l = log_failure l

unfoldable pub chat_on_accept : Accept → Listener → Listener
unfolding chat_do_accept
chat_on_accept answer l =
    if not (is_open l.stage)
    then record l { accepting = false }
    else if is_open (chat_note answer l).stage
    then chat_do_accept (chat_note answer l)
    else chat_note answer l

-- `WebSocketListener`
unfoldable pub ws_run : Listener → Listener
ws_run l = do_accept l

-- It does not ask for the endpoint; its session does, and catches the exception.
abbrev pub ws_note : Accept → Listener → Listener
ws_note (accepted socket) l = add_session socket l
ws_note (vanished socket) l = add_session socket l
ws_note failed l = log_failure l

unfoldable pub ws_on_accept : Accept → Listener → Listener
ws_on_accept answer l = do_accept (ws_note answer l)

-- `HttpListener`: no exception, and a places handler, with its key, where the setup succeeded.
pub record HttpListener : Type 0 where
  pub listener : Listener
  pub places_handler : Option Text

abbrev pub key_or_empty : Option Text → Text
key_or_empty none = []
key_or_empty (some key) = if is_empty key then [] else key

unfoldable pub create_http_listener : Setup → Option Text → HttpListener
unfolding stage_of
create_http_listener setup api_key = record {
  listener = fresh (stage_of setup);
  places_handler = elim (stage_of setup) [
    | unopened ↦ none
    | opened ↦ none
    | bound ↦ none
    | listening ↦ some (key_or_empty api_key)
  ];
}

unfoldable pub run_http_listener : HttpListener → HttpListener
run_http_listener h = record h { listener = do_accept h.listener }

-- The exception of `remote_endpoint` leaves `on_accept`: no session, and no further accept.
unfoldable pub on_http_accept : Accept → HttpListener → HttpListener
on_http_accept (accepted socket) h = record h {
  listener = do_accept (add_session socket h.listener);
}
on_http_accept (vanished socket) h = record h { listener = record h.listener { accepting = false } }
on_http_accept failed h = record h { listener = do_accept (log_failure h.listener) }

-- `HttpServer`: the listener, and the threads that run the `io_context`.
pub record HttpServer : Type 0 where
  pub threads : ℤ
  pub listener : Option HttpListener
  pub io_threads : ℕ
  pub ioc_stopped : Bool

-- `none` where `make_address` throws.
unfoldable pub run_http_server : Bool → ℕ → Setup → Option Text → HttpServer → Option HttpServer
unfolding run_http_listener create_http_listener
run_http_server is_address hardware_threads setup api_key server =
    if not is_address
    then none
    else some (record server {
      listener = some (run_http_listener (create_http_listener setup api_key));
      io_threads = server.io_threads + thread_count hardware_threads server.threads;
    })

-- Every thread is joined, and the listener is dropped.
unfoldable pub stop_http_server : HttpServer → HttpServer
stop_http_server server = record server { listener = none; io_threads = 0; ioc_stopped = true }
