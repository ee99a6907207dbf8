-- ===== src/Chat/Server/Requests.antt =====
-- Histories of the server: the calls of the sessions and of the environment, one after another in
-- the order in which the strand runs them. `none` is a fault of a registration.
pub mod Invariant
pub mod Histories
pub mod Placement
use memory_atlas_server.Prelude.{ℕ, List, [], ◌∷◌, Bool, true, false, Option, none, some, Text}
use memory_atlas_server.History.Writing.{Io}
use memory_atlas_server.Chat.State.{Server, Session, Hub, update_session, set_nickname}
use memory_atlas_server.Chat.Broadcast.{broadcast, broadcast_to_room, send_private_message}
use memory_atlas_server.Chat.Nicknames.{try_register_nickname, get_user_list}
use memory_atlas_server.Chat.Rooms.{join_room_async, leave_room, leave_room_async}
use memory_atlas_server.Chat.Server.{
  join, leave, stop, reset_history, close_sessions, set_history_enabled,
}

pub data Request : Type 0 where
  joins leaves : ℕ → Request
  asks_nickname : Text → ℕ → Request
  -- the handler of a registration, which stores the nickname in the session
  stores_nickname : Text → ℕ → Request
  lists_users : Request
  enters leaves_room : Text → ℕ → Request
  -- `leave_room` called directly, as `WebSocketSession` does
  leaves_directly : Text → ℕ → Request
  says : Text → Option ℕ → Request
  says_in_room : Text → Text → Option ℕ → Request
  whispers : Text → ℕ → Text → Request
  -- the last `shared_ptr` to a session goes
  expires : ℕ → Request
  stops resets_history closes_sessions : Request
  enables_history : Bool → Request

unfoldable pub expire : ℕ → Hub → Hub
expire a hub = record hub {
  session_at = update_session a (record (hub.session_at a) { alive = false }) hub.session_at;
}

unfoldable pub step : Io → Request → Server → Option Server
step io (joins a) s = some (join io (some a) s)
step io (leaves a) s = some (leave io (some a) s)
step io (asks_nickname nick a) s = elim (try_register_nickname nick a s) [
  | none ↦ none
  | some r ↦ some r.0
]
step io (stores_nickname nick a) s = some (record s { hub = set_nickname a nick s.hub })
step io lists_users s = some (get_user_list s).0
step io (enters name a) s = some (join_room_async name (some a) s).0
step io (leaves_room name a) s = some (leave_room_async name (some a) s).0
step io (leaves_directly name a) s = some (leave_room name (some a) s).0
step io (says message sender) s = some (broadcast io message sender s)
step io (says_in_room name message sender) s = some (broadcast_to_room io name message sender s).0
step io (whispers message sender nick) s =
    some (send_private_message io message (some sender) nick s).0
step io (expires a) s = some (record s { hub = expire a s.hub })
step io stops s = some (stop s).0
step io resets_history s = some (reset_history s)
step io closes_sessions s = some (close_sessions s).0
step io (enables_history enable) s = some (set_history_enabled enable s)

unfoldable pub run : List (Io × Request) → Server → Option Server
run [] s = some s
run ((io, request) ∷ requests) s = elim (step io request s) [
  | none ↦ none
  | some s' ↦ run requests s'
]
