-- ===== src/Sessions/Tcp/Calls.antt =====
-- src/ChatSession.cpp: what the actions of `process_command` do, with the callbacks that the
-- session passes to the server, and the start of a session.
use memory_atlas_server.Prelude.{
  ℕ, List, [], ◌∷◌, ◌++◌, Bool, if◌then◌else◌, Option, none, some, Text, utf8, text_eq, length,
}
use memory_atlas_server.History.Writing.{Io}
use memory_atlas_server.Chat.State.{Server, crlf, deliver, set_nickname, nickname}
use memory_atlas_server.Chat.Broadcast.{broadcast, broadcast_to_room}
use memory_atlas_server.Chat.Nicknames.{try_register_nickname, get_user_list}
use memory_atlas_server.Chat.Rooms.{join_room_async, leave_room_async, to_string}
use memory_atlas_server.Chat.Server.{entered_message, join, leave}
use memory_atlas_server.Sessions.Tcp.{
  Action, registers, enters, leaves_room, lists_users, quits, says, says_in_room, replies,
}

unfoldable pub deliver_all : ℕ → List Text → Server → Server
deliver_all session [] s = s
deliver_all session (msg ∷ msgs) s =
    deliver_all session msgs (record s { hub = deliver session msg s.hub })

unfoldable pub renamed_message : Text → Text → Text
renamed_message previous_nick nick =
    utf8 "* 사용자 '"
    ++ (previous_nick ++ (utf8 "'의 닉네임이 '" ++ (nick ++ (utf8 "'(으)로 변경되었습니다." ++ crlf))))

-- The callback of `try_register_nickname_async`. `stopped` is `stopped_` when it runs.
unfoldable pub on_nickname : Io → Bool → ℕ → Text → Bool → Server → Server
on_nickname io stopped session nick success s =
    let previous_nick = nickname s.hub session in
    let s' : Server = record s { hub = set_nickname session nick s.hub } in
    let notice =
      if text_eq previous_nick (s.session_at session).remote_id
      then entered_message nick
      else renamed_message previous_nick nick in
    if stopped
    then s
    else if success
    then deliver_all session ((utf8 "* 닉네임이 '" ++ (nick ++ (utf8 "'(으)로 변경되었습니다." ++ crlf))) ∷ [])
        (broadcast io notice (some session) s')
    else deliver_all session
        ((utf8 "Error: 닉네임 '" ++ (nick ++ (utf8 "'은(는) 이미 사용 중이거나 유효하지 않습니다." ++ crlf))) ∷ []) s

-- The callbacks of `join_room_async` and `leave_room_async` speak of a failure only.
unfoldable pub on_joined : Bool → ℕ → Text → Bool → Server → Server
on_joined stopped session room success s =
    if stopped
    then s
    else if success
    then s
    else deliver_all session ((utf8 "Error: '" ++ (room ++ (utf8 "' 방 입장에 실패했습니다." ++ crlf))) ∷ [])
        s

unfoldable pub on_left : Bool → ℕ → Text → Bool → Server → Server
on_left stopped session room success s =
    if stopped
    then s
    else if success
    then s
    else deliver_all session ((utf8 "Error: '" ++ (room ++ (utf8 "' 방 퇴장에 실패했습니다." ++ crlf))) ∷ [])
        s

unfoldable pub user_lines : Text → List Text → List Text
user_lines nick [] = []
user_lines nick (user ∷ users) =
    (utf8 "  - " ++ (user ++ ((if text_eq user nick then utf8 " (You)" else []) ++ crlf)))
    ∷ user_lines nick users

unfoldable pub on_users : Bool → ℕ → List Text → Server → Server
on_users stopped session users s =
    if stopped
    then s
    else deliver_all session
        ((utf8 "* 현재 접속 중인 사용자 (" ++ (to_string (length users) ++ (utf8 "):" ++ crlf)))
          ∷ user_lines (nickname s.hub session) users)
        s

-- An action together with its callback. `none` is a fault of the registration. `stop_session`
-- leaves the server.
unfoldable pub perform : Io → Bool → ℕ → Action → Server → Option Server
perform io stopped session (registers nick) s = elim (try_register_nickname nick session s) [
  | none ↦ none
  | some r ↦ some (on_nickname io stopped session nick r.1 r.0)
]
perform io stopped session (enters room) s =
    let r = join_room_async room (some session) s in some (on_joined stopped session room r.1 r.0)
perform io stopped session (leaves_room room) s =
    let r = leave_room_async room (some session) s in some (on_left stopped session room r.1 r.0)
perform io stopped session lists_users s =
    let r = get_user_list s in some (on_users stopped session r.1 r.0)
perform io stopped session quits s = some (leave io (some session) s)
perform io stopped session (says message) s = some (broadcast io message (some session) s)
perform io stopped session (says_in_room room message) s =
    some (broadcast_to_room io room message (some session) s).0
perform io stopped session (replies msg) s = some (deliver_all session (msg ∷ []) s)

unfoldable pub welcome : Text → List Text
welcome remote_id =
    (utf8 "Welcome to the CherryRecorder Chat Server!" ++ crlf)
    ∷ (utf8 "Your temporary ID is: " ++ (remote_id ++ crlf))
    ∷ (utf8 "Please set your nickname using /nick <nickname>" ++ crlf)
    ∷ (utf8 "Enter /help for a list of commands." ++ crlf)
    ∷ (utf8 "Enter /join <roomname> to join or create a room." ++ crlf)
    ∷ []

unfoldable pub start : Io → Bool → ℕ → Server → Server
start io stopped session s =
    if stopped
    then s
    else deliver_all session (welcome (s.session_at session).remote_id) (join io (some session) s)
