-- ===== src/Sessions/WebSocket/System.antt =====
-- src/WebSocketSession.cpp: the server with its WebSocket sessions, as the events of their streams
-- and the tasks on their strands drive them.
pub mod Postings
pub mod Continuing
pub mod Ordering
pub mod Delivery
pub mod Draining
pub mod Speaking
pub mod Invariant
use memory_atlas_server.Prelude.{
  ℕ, suc, List, [], ◌∷◌, Bool, true, false, ◌==◌, if◌then◌else◌, Option, none, some, Text, drop,
}
use memory_atlas_server.History.Writing.{Io}
use memory_atlas_server.Chat.State.{Server, Post, direct, relayed}
use memory_atlas_server.Chat.Server.{leave}
use memory_atlas_server.Chat.Server.Requests.{Request}
use memory_atlas_server.Chat.Server.Requests
use memory_atlas_server.Sessions.Posted.{posted_to, relay}
use memory_atlas_server.Sessions.WebSocket.{Queue, enqueue, on_write}
use memory_atlas_server.Sessions.WebSocket.Calls.{ReadEnd, on_accept, on_read}

-- `accepting` and `reading` say that the handshake or an `async_read` is pending, and `delivered`
-- counts the tasks posted to it that the strand of the session has run.
pub record WsSession : Type 0 where
  pub queue : Queue
  pub accepting : Bool
  pub reading : Bool
  pub delivered : ℕ

pub record System : Type 0 where
  pub server : Server
  pub ws_session : ℕ → WsSession

abbrev pub update_ws : ℕ → WsSession → (ℕ → WsSession) → ℕ → WsSession
update_ws a t f b = if a == b then t else f b

abbrev pub with_ws : ℕ → WsSession → Server → System → System
with_ws a t s σ = record { server = s; ws_session = update_ws a t σ.ws_session }

unfoldable pub end_handshake : Io → Bool → ℕ → System → System
end_handshake io failed a σ =
    let t = σ.ws_session a in
    let (s, reads) = on_accept io failed a σ.server in
    if t.accepting then with_ws a (record t { accepting = false; reading = reads }) s σ else σ

abbrev pub after_read : ℕ → System → Option (Server × Bool) → Option System
after_read a σ none = none
after_read a σ (some r) = some (with_ws a (record (σ.ws_session a) { reading = r.1 }) r.0 σ)

unfoldable pub end_read : Io → ReadEnd → ℕ → System → Option System
end_read io end a σ =
    if (σ.ws_session a).reading then after_read a σ (on_read io end a σ.server) else some σ

-- A task on the strand of the session: a message is queued, or `deliver` posts it.
unfoldable pub run_task : ℕ → Post → System → System
run_task a (direct msg) σ =
    let t = σ.ws_session a in
    with_ws a (record t { queue = enqueue msg t.queue; delivered = suc t.delivered }) σ.server σ
run_task a (relayed msg) σ =
    let t = σ.ws_session a in
    with_ws a (record t { delivered = suc t.delivered }) (relay a msg σ.server) σ

-- The next of these tasks, if one is waiting.
unfoldable pub run_delivery : ℕ → System → System
unfolding run_task
run_delivery a σ = elim (drop (σ.ws_session a).delivered (posted_to a σ.server.posted)) [
  | [] ↦ σ
  | task ∷ _ ↦ run_task a task σ
]

-- The session leaves the server where its write has failed.
abbrev pub after_write : Io → ℕ → System → Option (Queue × Bool) → Option System
after_write io a σ none = none
after_write io a σ (some r) = some (
    with_ws a (record (σ.ws_session a) { queue = r.0 })
      (if r.1 then leave io (some a) σ.server else σ.server) σ)

unfoldable pub end_write : Io → Bool → ℕ → System → Option System
end_write io failed a σ =
    let q = (σ.ws_session a).queue in
    if q.is_writing then after_write io a σ (on_write failed q) else some σ

abbrev pub with_result : System → Option Server → Option System
with_result σ none = none
with_result σ (some s) = some (record σ { server = s })

-- What can happen next; `at_server` is a call by anything else.
pub data Event : Type 0 where
  handshake_ends : Io → Bool → ℕ → Event
  reads : Io → ReadEnd → ℕ → Event
  delivers : ℕ → Event
  write_ends : Io → Bool → ℕ → Event
  at_server : Io → Request → Event

unfoldable pub step : Event → System → Option System
unfolding end_handshake end_read run_delivery end_write
step (handshake_ends io failed a) σ = some (end_handshake io failed a σ)
step (reads io end a) σ = end_read io end a σ
step (delivers a) σ = some (run_delivery a σ)
step (write_ends io failed a) σ = end_write io failed a σ
step (at_server io request) σ = with_result σ (Requests.step io request σ.server)

unfoldable pub run : List Event → System → Option System
run [] σ = some σ
run (event ∷ events) σ = elim (step event σ) [ none ↦ none | some σ' ↦ run events σ' ]
