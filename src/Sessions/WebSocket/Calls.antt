-- ===== src/Sessions/WebSocket/Calls.antt =====
-- src/WebSocketSession.cpp: what the calls of `process_message` do, with the callbacks that the
-- session passes to the server.
use memory_atlas_server.Prelude.{
  ℕ, false, true, List, [], ◌∷◌, ◌++◌, Bool, if◌then◌else◌, Option, none, some, Text, utf8, text_eq,
}
use memory_atlas_server.History.Writing.{Io}
use memory_atlas_server.Chat.State.{Hub, Server, crlf, deliver, set_nickname, nickname}
use memory_atlas_server.Chat.Broadcast.{broadcast, broadcast_to_room, send_private_message}
use memory_atlas_server.Chat.Nicknames.{try_register_nickname, get_user_list}
use memory_atlas_server.Chat.Rooms.{join_room_async, leave_room}
use memory_atlas_server.Chat.Server.{entered_message, join, leave}
use memory_atlas_server.Sessions.WebSocket.{
  process_message, Call, registers, enters, leaves_room, lists_users, whispers, says, says_in_room,
  replies,
}

unfoldable pub reply : ℕ → Text → Server → Server
reply session msg s = record s { hub = deliver session msg s.hub }

unfoldable pub renamed_message : Text → Text → Text
renamed_message old_nick new_nick =
    utf8 "* '" ++ (old_nick ++ (utf8 "'님이 '" ++ (new_nick ++ (utf8 "'(으)로 닉네임을 변경했습니다." ++ crlf))))

-- The callback of `try_register_nickname_async`.
unfoldable pub on_nickname : Io → ℕ → Text → Bool → Server → Server
on_nickname io session new_nick success s =
    let old_nick = nickname s.hub session in
    let s' : Server = record s {
      hub =
          deliver session (utf8 "* 닉네임이 '" ++ (new_nick ++ (utf8 "'(으)로 변경되었습니다." ++ crlf)))
            (set_nickname session new_nick s.hub);
    } in
    if success
    then broadcast io
        (if text_eq old_nick (s.session_at session).remote_id
          then entered_message new_nick
          else renamed_message old_nick new_nick)
        (some session) s'
    else reply session (utf8 "Error: 닉네임 '" ++ (new_nick ++ (utf8 "'은(는) 이미 사용 중입니다." ++ crlf))) s

unfoldable pub user_lines : List Text → Text
user_lines [] = []
user_lines (user ∷ users) = utf8 "  - " ++ (user ++ (crlf ++ user_lines users))

-- The callbacks of `join_room_async`, and the answer of `leave_room`.
unfoldable pub on_joined : ℕ → Text → Bool → Server → Server
on_joined session room success s =
    if success
    then reply session (utf8 "* '" ++ (room ++ (utf8 "' 방에 입장했습니다." ++ crlf))) s
    else reply session (utf8 "Error: 방 입장에 실패했습니다." ++ crlf) s

unfoldable pub on_left : ℕ → Text → Bool → Server → Server
on_left session room success s =
    if success
    then reply session (utf8 "* '" ++ (room ++ (utf8 "' 방에서 퇴장했습니다." ++ crlf))) s
    else reply session (utf8 "Error: 방 퇴장에 실패했습니다." ++ crlf) s

-- A call together with its callback. `none` is a fault of the registration.
unfoldable pub perform : Io → ℕ → Call → Server → Option Server
perform io session (registers nick) s = elim (try_register_nickname nick session s) [
  | none ↦ none
  | some r ↦ some (on_nickname io session nick r.1 r.0)
]
perform io session (enters room) s =
    let r = join_room_async room (some session) s in some (on_joined session room r.1 r.0)
perform io session (leaves_room room) s =
    let r = leave_room room (some session) s in some (on_left session room r.1 r.0)
perform io session lists_users s =
    let r = get_user_list s in
    some (reply session (utf8 "* 접속자 목록:" ++ (crlf ++ user_lines r.1)) r.0)
perform io session (whispers nick message) s =
    some (send_private_message io message (some session) nick s).0
perform io session (says message) s = some (broadcast io message (some session) s)
perform io session (says_in_room room message) s =
    some (broadcast_to_room io room message (some session) s).0
perform io session (replies msg) s = some (reply session msg s)

unfoldable pub welcome : List Text
welcome =
    (utf8 "* CherryRecorder 채팅 서버에 연결되었습니다." ++ crlf)
    ∷ (utf8 "* /nick <닉네임> - 닉네임 변경" ++ crlf)
    ∷ (utf8 "* /pm <닉네임> <메시지> - 개인 메시지" ++ crlf)
    ∷ (utf8 "* /list - 접속자 목록" ++ crlf)
    ∷ []

unfoldable pub deliver_all : ℕ → List Text → Hub → Hub
deliver_all session [] hub = hub
deliver_all session (msg ∷ msgs) hub = deliver_all session msgs (deliver session msg hub)

-- `on_accept`: `failed` is whether `ec` is set, and the answer whether the session reads.
unfoldable pub on_accept : Io → Bool → ℕ → Server → Server × Bool
on_accept io failed session s =
    let s' = join io (some session) s in
    if failed then (s, false) else (record s' { hub = deliver_all session welcome s'.hub }, true)

-- How a read ended.
pub data ReadEnd : Type 0 where
  closed_by_client : ReadEnd
  read_failed : ReadEnd
  got : Text → ReadEnd

-- The call of a message, where it makes one; then the session reads on.
unfoldable pub perform_all : Io → ℕ → Option Call → Server → Option (Server × Bool)
perform_all io session none s = some (s, true)
perform_all io session (some call) s = elim (perform io session call s) [
  | none ↦ none
  | some s' ↦ some (s', true)
]

-- `on_read`: the answer is whether the session reads on.
unfoldable pub on_read : Io → ReadEnd → ℕ → Server → Option (Server × Bool)
on_read io closed_by_client session s = some (leave io (some session) s, false)
on_read io read_failed session s = some (leave io (some session) s, false)
on_read io (got text) session s =
    perform_all io session (process_message text (s.session_at session)) s
