-- ===== src/Chat/Server.antt =====
-- src/ChatServer.cpp: sessions that join and leave the server, and the life of the server.
pub mod Placement
pub mod Requests
pub mod Strand
pub mod Departure
pub mod Posting
use memory_atlas_server.Prelude.{
  ℕ, ◌++◌, List, [], ◌∷◌, Bool, true, false, not, ◌||◌, ◌&&◌, if◌then◌else◌, Option, none, some,
  is_empty, Text, utf8, text_eq, member, add, remove,
}
use memory_atlas_server.History.Writing.{Io}
use memory_atlas_server.History.Store.{History}
use memory_atlas_server.History.Store
use memory_atlas_server.Chat.State.{Server, Session, crlf, nickname, has_proper_nickname}
use memory_atlas_server.Chat.Broadcast.{broadcast_impl, with_history}
use memory_atlas_server.Chat.Nicknames.{unregister_nickname}
use memory_atlas_server.Chat.Rooms.{leave_all_rooms_impl}

-- The constructor, with the history that `MessageHistory` made.
unfoldable pub create : History → (ℕ → Session) → Server
create history session_at = record {
  hub = record { session_at = session_at; posted = [] };
  sessions = [];
  nicknames = [];
  rooms = [];
  history = some history;
  stopped = false;
}

unfoldable pub entered_message : Text → Text
entered_message nick = utf8 "* 사용자 '" ++ (nick ++ (utf8 "'님이 입장했습니다." ++ crlf))

unfoldable pub exited_message : Text → Text
exited_message nick = utf8 "* 사용자 '" ++ (nick ++ (utf8 "'님이 퇴장했습니다." ++ crlf))

unfoldable pub join : Io → Option ℕ → Server → Server
join io none s = s
join io (some session) s =
    let nick = nickname s.hub session in
    let s' : Server = record s { sessions = add session s.sessions } in
    if s.stopped
    then s
    else if text_eq nick (s.session_at session).remote_id
    then s'
    else broadcast_impl io (entered_message nick) (some session) s'

unfoldable pub remove_session : Io → ℕ → Text → Bool → Server → Server
remove_session io session nick proper s =
    let s' : Server = record s { sessions = remove session s.sessions } in
    if member session s.sessions && proper
    then broadcast_impl io (exited_message nick) none s'
    else s'

unfoldable pub leave : Io → Option ℕ → Server → Server
leave io none s = s
leave io (some session) s =
    let v = s.session_at session in
    let proper = has_proper_nickname v in
    let s' = leave_all_rooms_impl session s in
    let s'' = if proper then unregister_nickname v.nickname s' else s' in
    if s.stopped then s else remove_session io session v.nickname proper s''

-- `stop` sets the flag; the first call posts the two tasks below.
unfoldable pub stop : Server → Server × Bool
stop s = if s.stopped then (s, false) else (record s { stopped = true }, true)

-- The task on the `io_context`: the history is destroyed.
unfoldable pub reset_history : Server → Server
reset_history s = record s { history = none }

-- The task on the strand: the sessions whose `stop_session` it dispatches, and the empty server.
unfoldable pub close_sessions : Server → Server × List ℕ
close_sessions s = (record s { sessions = []; nicknames = []; rooms = [] }, s.sessions)

unfoldable pub start_listening : Server → Bool
start_listening s = true

-- `run`: whether the startup sequence was completed.
unfoldable pub run : Server → Server × Bool
run s =
    if s.stopped
    then (s, false)
    else if not (start_listening s)
    then (record s { stopped = true }, false)
    else (s, true)

unfoldable pub set_history_enabled : Bool → Server → Server
set_history_enabled enable s = record s {
  history = with_history (Store.set_enabled enable) s.history;
}

unfoldable pub is_history_enabled : Server → Bool
is_history_enabled s = elim s.history [ none ↦ false | some h ↦ Store.is_enabled h ]

unfoldable pub load_global_history : ℕ → Server → List Text
load_global_history limit s = elim s.history [
  | none ↦ []
  | some h ↦ Store.load_global_history limit h
]

unfoldable pub load_private_history : Text → Text → ℕ → Server → List Text
load_private_history u1 u2 limit s = elim s.history [
  | none ↦ []
  | some h ↦ Store.load_private_history u1 u2 limit h
]

unfoldable pub load_room_history : Text → ℕ → Server → List Text
load_room_history room limit s = elim s.history [
  | none ↦ []
  | some h ↦ Store.load_room_history room limit h
]
