-- ===== src/Sessions/Tcp/System.antt =====
-- src/ChatSession.cpp: the server with its TCP sessions, as the events of their sockets and the
-- tasks on their strands drive them.
pub mod Postings
pub mod Continuing
pub mod Ordering
pub mod Delivery
pub mod Draining
pub mod Speaking
pub mod Invariant
use memory_atlas_server.Prelude.{
  ℕ, suc, ◌+◌, List, [], ◌∷◌, Bool, true, false, not, ◌||◌, ◌==◌, if◌then◌else◌, Option, none, some,
  Text, drop,
}
use memory_atlas_server.History.Writing.{Io}
use memory_atlas_server.Chat.State.{Server, Post, direct, relayed}
use memory_atlas_server.Chat.Server.{leave}
use memory_atlas_server.Chat.Server.Requests.{Request}
use memory_atlas_server.Chat.Server.Requests
use memory_atlas_server.Sessions.Posted.{posted_to, relay}
use memory_atlas_server.Sessions.Tcp.{
  Connection, enqueue, WriteEnd, on_write, stop_session, close_socket, read_lines, process_command,
  Action, registers, enters, leaves_room, lists_users, quits, says, says_in_room, replies,
}
use memory_atlas_server.Sessions.Tcp.Calls.{perform, start}

-- `reading` says that an `async_read_until` is pending, and `delivered` counts the
-- tasks posted to it that the strand of the session has run.
pub record TcpSession : Type 0 where
  pub connection : Connection
  pub reading : Bool
  pub delivered : ℕ

pub record System : Type 0 where
  pub server : Server
  pub tcp_session : ℕ → TcpSession

abbrev pub update_tcp : ℕ → TcpSession → (ℕ → TcpSession) → ℕ → TcpSession
update_tcp a t f b = if a == b then t else f b

abbrev pub with_tcp : ℕ → TcpSession → System → System
with_tcp a t σ = record σ { tcp_session = update_tcp a t σ.tcp_session }

abbrev pub is_active : Connection → Bool
is_active c = not (c.stopped || not c.socket_open)

unfoldable pub do_read : TcpSession → TcpSession
do_read t = if is_active t.connection then record t { reading = true } else t

-- `stop_session` with the task that it dispatches.
unfoldable pub stop_at : Io → ℕ → System → System
stop_at io a σ =
    let t = σ.tcp_session a in
    let (c, first) = stop_session t.connection in
    if first
    then record {
      server = leave io (some a) σ.server;
      tcp_session = update_tcp a (record t { connection = close_socket c }) σ.tcp_session;
    }
    else σ

abbrev pub with_result : System → Option Server → Option System
with_result σ none = none
with_result σ (some s) = some (record σ { server = s })

-- An action with its callback. `/quit` stops the session.
unfoldable pub act : Io → ℕ → Action → System → Option System
unfolding stop_at
act io a quits σ = some (stop_at io a σ)
act io a action σ =
    with_result σ (perform io (σ.tcp_session a).connection.stopped a action σ.server)

unfoldable pub act_all : Io → ℕ → List Action → System → Option System
act_all io a [] σ = some σ
act_all io a (action ∷ actions) σ = elim (act io a action σ) [
  | none ↦ none
  | some σ' ↦ act_all io a actions σ'
]

-- The loop of `on_read` over the lines; each line meets its own answers of the environment.
unfoldable pub process_lines : (ℕ → Io) → ℕ → ℕ → List Text → System → Option System
process_lines io n a [] σ = some σ
process_lines io n a (line ∷ lines) σ =
    let actions = process_command line (σ.server.session_at a) (σ.tcp_session a).connection in
    elim (act_all (io n) a actions σ) [
      | none ↦ none
      | some σ' ↦ process_lines io (suc n) a lines σ'
    ]

abbrev pub read_on : ℕ → Option System → Option System
read_on a none = none
read_on a (some σ) = some (with_tcp a (do_read (σ.tcp_session a)) σ)

-- `on_read` without an error: the buffer holds `text`.
unfoldable pub on_read : (ℕ → Io) → ℕ → Text → System → Option System
on_read io a text σ =
    let t = σ.tcp_session a in
    let σ' = with_tcp a (record t { reading = false }) σ in
    if is_active t.connection
    then read_on a (process_lines io 0 a (read_lines text) σ')
    else some σ'

-- `on_read` with an error.
unfoldable pub on_read_error : Io → ℕ → System → System
unfolding stop_at
on_read_error io a σ =
    let t = σ.tcp_session a in
    let σ' = with_tcp a (record t { reading = false }) σ in
    if is_active t.connection then stop_at io a σ' else σ'

-- A task on the strand of the session: a message is queued, or `deliver` posts it.
unfoldable pub run_task : ℕ → Post → System → System
run_task a (direct msg) σ =
    let t = σ.tcp_session a in
    with_tcp a (record t { connection = enqueue msg t.connection; delivered = suc t.delivered }) σ
run_task a (relayed msg) σ =
    let t = σ.tcp_session a in
    with_tcp a (record t { delivered = suc t.delivered })
      (record σ { server = relay a msg σ.server })

-- The next of these tasks, if one is waiting.
unfoldable pub run_delivery : ℕ → System → System
unfolding run_task
run_delivery a σ = elim (drop (σ.tcp_session a).delivered (posted_to a σ.server.posted)) [
  | [] ↦ σ
  | task ∷ _ ↦ run_task a task σ
]

unfoldable pub end_write : ℕ → WriteEnd → System → System
end_write a ec σ =
    let t = σ.tcp_session a in
    if t.connection.writing_flag
    then with_tcp a (record t { connection = (on_write ec t.connection).0 }) σ
    else σ

unfoldable pub start_session : Io → ℕ → System → System
unfolding do_read
start_session io a σ =
    let t = σ.tcp_session a in
    if t.connection.stopped then σ else record {
      server = start io false a σ.server;
      tcp_session = update_tcp a (do_read t) σ.tcp_session;
    }

-- What can happen next. `stops` is a call of `stop_session` that a write which failed has posted,
-- or one of the server; `at_server` is a call by anything else.
pub data Event : Type 0 where
  starts : Io → ℕ → Event
  reads : (ℕ → Io) → ℕ → Text → Event
  read_fails : Io → ℕ → Event
  delivers : ℕ → Event
  write_ends : ℕ → WriteEnd → Event
  stops : Io → ℕ → Event
  at_server : Io → Request → Event

unfoldable pub step : Event → System → Option System
unfolding start_session on_read on_read_error run_delivery end_write stop_at
step (starts io a) σ = some (start_session io a σ)
step (reads io a text) σ = if (σ.tcp_session a).reading then on_read io a text σ else some σ
step (read_fails io a) σ = some (if (σ.tcp_session a).reading then on_read_error io a σ else σ)
step (delivers a) σ = some (run_delivery a σ)
step (write_ends a ec) σ = some (end_write a ec σ)
step (stops io a) σ = some (stop_at io a σ)
step (at_server io request) σ = with_result σ (Requests.step io request σ.server)

unfoldable pub run : List Event → System → Option System
run [] σ = some σ
run (event ∷ events) σ = elim (step event σ) [ none ↦ none | some σ' ↦ run events σ' ]
