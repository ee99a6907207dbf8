-- ===== src/Chat/Broadcast.antt =====
-- src/ChatServer.cpp: `broadcast_impl`, `broadcast`, `broadcast_to_room` and
-- `send_private_message`, with the history that they write. A body that the source dispatches to
-- the strand is one step here, run when the call is made.
pub mod Deliveries
use memory_atlas_server.Prelude.{
  ℕ, ◌++◌, List, [], ◌∷◌, Bool, true, false, not, ◌||◌, if◌then◌else◌, Option, none, some, is_empty,
  Text, utf8, lookup, is_some,
}
use memory_atlas_server.History.Writing.{Io}
use memory_atlas_server.History.Store.{
  History, log_global_message, log_private_message, log_room_message,
}
use memory_atlas_server.Chat.State.{
  Server, Hub, Room, relayed, crlf, deliver, nickname, post_to_others,
}
use memory_atlas_server.Chat.Room.{sender_name}
use memory_atlas_server.Chat.Room

-- `if (history_) history_->…`
abbrev pub with_history : (History → History) → Option History → Option History
with_history f none = none
with_history f (some h) = some (f h)

unfoldable pub broadcast_impl : Io → Text → Option ℕ → Server → Server
broadcast_impl io message sender s = record s {
  hub = post_to_others sender (relayed message) s.sessions s.hub;
  history = with_history (log_global_message io message (sender_name sender s.hub)) s.history;
}

unfoldable pub broadcast : Io → Text → Option ℕ → Server → Server
broadcast io message sender s = if s.stopped then s else broadcast_impl io message sender s

unfoldable pub system_broadcast : Io → Text → Server → Server
system_broadcast io message s = broadcast io message none s

unfoldable pub broadcast_to_room : Io → Text → Text → Option ℕ → Server → Server × Bool
broadcast_to_room io room_name message sender s =
    if s.stopped then (s, false) else elim (lookup room_name s.rooms) [
      | none ↦ (s, false)
      | some room ↦ (
        record s {
          hub = Room.broadcast message sender room s.hub;
          history =
              with_history (log_room_message io room_name message (sender_name sender s.hub))
                s.history;
        },
        true,
      )
    ]

-- `it->second.lock()`
abbrev pub lock : Server → ℕ → Option ℕ
lock s a = if (s.session_at a).alive then some a else none

unfoldable pub find_session_by_nickname : Text → Server → Option ℕ
find_session_by_nickname nick s =
    if s.stopped then none else elim (lookup nick s.nicknames) [ none ↦ none | some a ↦ lock s a ]

unfoldable pub private_message : Text → Text → Text
private_message sender_nick message =
    utf8 "[PM from " ++ (sender_nick ++ (utf8 "]: " ++ (message ++ crlf)))

unfoldable pub confirmation_message : Text → Text → Text
confirmation_message receiver_nick message =
    utf8 "* To " ++ (receiver_nick ++ (utf8 ": " ++ (message ++ crlf)))

unfoldable pub no_receiver_message : Text → Text
no_receiver_message receiver_nick =
    utf8 "Error: 사용자 '" ++ (receiver_nick ++ (utf8 "'을(를) 찾을 수 없거나 오프라인 상태입니다." ++ crlf))

-- The handler of the search.
unfoldable pub on_receiver : Io → Text → ℕ → Text → Text → Option ℕ → Server → Server
on_receiver io message sender sender_nick receiver_nick none s =
    if s.stopped
    then s
    else record s { hub = deliver sender (no_receiver_message receiver_nick) s.hub }
on_receiver io message sender sender_nick receiver_nick (some receiver) s =
    if s.stopped then s else record s {
      hub =
          deliver sender (confirmation_message receiver_nick message)
            (deliver receiver (private_message sender_nick message) s.hub);
      history = with_history (log_private_message io message sender_nick receiver_nick) s.history;
    }

unfoldable pub send_private_message : Io → Text → Option ℕ → Text → Server → Server × Bool
send_private_message io message none receiver_nick s = (s, false)
send_private_message io message (some sender) receiver_nick s =
    if s.stopped || is_empty receiver_nick || is_empty message then (s, false) else (
      on_receiver io message sender (nickname s.hub sender) receiver_nick
          (find_session_by_nickname receiver_nick s) s,
      true,
    )
