-- ===== src/Sessions/Tcp.antt =====
-- src/ChatSession.cpp: a session over TCP: its queue of messages, its lines and its commands.
-- `shared_from_this()` stands for the session, as its comment in include/ChatSession.hpp says.
pub mod Calls
pub mod Requests
pub mod Lines
pub mod Commands
pub mod Writing
pub mod System
use memory_atlas_server.Prelude.{
  ℕ, List, [], ◌∷◌, ◌++◌, Bool, true, false, not, ◌||◌, ◌&&◌, ◌==◌, ltb, if◌then◌else◌, is_empty,
  length, Option, none, some, Text, utf8, text_eq,
}
use memory_atlas_server.Chat.State.{Session, crlf}
use memory_atlas_server.Chat.Nicknames.{has_space}
use memory_atlas_server.History.Reading.{get_lines}
use memory_atlas_server.Sessions.Words.{read_word, rest_of_line}

-- `write_msgs_`, `writing_flag_`, `stopped_`, and whether the socket is open; `started` holds the
-- messages handed to `async_write`, oldest first.
pub record Connection : Type 0 where
  pub write_msgs : List Text
  pub writing_flag : Bool
  pub stopped : Bool
  pub socket_open : Bool
  pub started : List Text

unfoldable pub do_write_strand : Connection → Connection
do_write_strand c = elim c.write_msgs [
  | [] ↦ c
  | front ∷ _ ↦
      if c.stopped || c.writing_flag
      then c
      else record c { writing_flag = true; started = c.started ++ front ∷ [] }
]

-- The task that `deliver` posts.
unfoldable pub enqueue : Text → Connection → Connection
enqueue msg c =
    let start_write = is_empty c.write_msgs && not c.writing_flag in
    let c' : Connection = record c { write_msgs = c.write_msgs ++ (msg ++ crlf) ∷ [] } in
    if c.stopped then c else if start_write then do_write_strand c' else c'

-- How a write ended: `ec`.
pub data WriteEnd : Type 0 where
  written : WriteEnd
  aborted : WriteEnd
  failed : WriteEnd

unfoldable pub is_written : WriteEnd → Bool
is_written written = true
is_written aborted = false
is_written failed = false

unfoldable pub is_failed : WriteEnd → Bool
is_failed written = false
is_failed aborted = false
is_failed failed = true

-- `pop_front` when the queue is not empty: the rest, and `message_written_successfully`.
unfoldable pub pop_written : List Text → List Text × Bool
pop_written [] = ([], false)
pop_written (_ ∷ msgs) = (msgs, true)

-- `on_write`: the answer is whether `stop_session` is posted.
unfoldable pub on_write : WriteEnd → Connection → Connection × Bool
on_write ec c =
    let (msgs, success) = if is_written ec then pop_written c.write_msgs else ([], false) in
    let c' : Connection = record c { write_msgs = msgs; writing_flag = false } in
    if c.stopped
    then (record c { writing_flag = false }, false)
    else if success && not (is_empty msgs) && c.socket_open
    then (do_write_strand c', false)
    else (c', is_failed ec)

-- `stop_session`: whether this call is the one that dispatches the task below.
unfoldable pub stop_session : Connection → Connection × Bool
stop_session c = if c.stopped then (c, false) else (record c { stopped = true }, true)

-- The task: the socket is shut, and the session leaves the server.
unfoldable pub close_socket : Connection → Connection
close_socket c = record c { socket_open = false }

-- The lines of the buffer that `on_read` passes to `process_command`: without a carriage return at
-- the end, and only those that are not empty.
unfoldable pub drop_return : Text → Text
drop_return [] = []
drop_return (c ∷ []) = if c == b'\r' then [] else c ∷ []
drop_return (c ∷ d ∷ cs) = c ∷ drop_return (d ∷ cs)

unfoldable pub keep_lines : List Text → List Text
keep_lines [] = []
keep_lines (line ∷ lines) =
    if is_empty (drop_return line) then keep_lines lines else drop_return line ∷ keep_lines lines

unfoldable pub read_lines : Text → List Text
read_lines buffer = keep_lines (get_lines [] buffer)

-- What `process_command` does: the calls on the server, the answers and the end of the session.
pub data Action : Type 0 where
  registers enters leaves_room : Text → Action
  lists_users quits : Action
  says : Text → Action
  says_in_room : Text → Text → Action
  replies : Text → Action

unfoldable pub help_lines : List Action
help_lines =
    replies (utf8 "--- 도움말 ---" ++ crlf)
    ∷ replies (utf8 "/nick <닉네임> - 닉네임 변경" ++ crlf)
    ∷ replies (utf8 "/join <방이름> - 방 입장/생성" ++ crlf)
    ∷ replies (utf8 "/leave - 현재 방 퇴장" ++ crlf)
    ∷ replies (utf8 "/users - 현재 접속자 목록 보기" ++ crlf)
    ∷ replies (utf8 "/quit - 채팅 종료" ++ crlf)
    ∷ replies (utf8 "/help - 도움말 표시" ++ crlf)
    ∷ replies (utf8 "-------------" ++ crlf)
    ∷ []

unfoldable pub nick_command : Text → Action
nick_command requested_nick =
    if is_empty requested_nick
    then replies (utf8 "Error: 닉네임은 비어있을 수 없습니다." ++ crlf)
    else if has_space requested_nick
    then replies (utf8 "Error: 닉네임에 공백 문자를 포함할 수 없습니다." ++ crlf)
    else if ltb 20 (length requested_nick)
    then replies (utf8 "Error: 닉네임은 20자를 초과할 수 없습니다." ++ crlf)
    else registers requested_nick

unfoldable pub join_command : Text → Session → Action
join_command room_name v =
    if is_empty room_name
    then replies (utf8 "Error: 방 이름은 비어있을 수 없습니다." ++ crlf)
    else if has_space room_name
    then replies (utf8 "Error: 방 이름에 공백 문자를 포함할 수 없습니다." ++ crlf)
    else if ltb 30 (length room_name)
    then replies (utf8 "Error: 방 이름은 30자를 초과할 수 없습니다." ++ crlf)
    else if text_eq room_name v.current_room
    then replies (utf8 "* 이미 '" ++ (room_name ++ (utf8 "' 방에 있습니다." ++ crlf)))
    else enters room_name

unfoldable pub leave_command : Session → Action
leave_command v =
    if is_empty v.current_room
    then replies (utf8 "Error: 현재 어떤 방에도 없습니다." ++ crlf)
    else leaves_room v.current_room

unfoldable pub chat_message : Text → Session → Action
chat_message message v =
    if not (is_empty v.current_room)
    then says_in_room v.current_room (
        utf8 "["
        ++ (v.nickname ++ (utf8 " @ " ++ (v.current_room ++ (utf8 "]: " ++ (message ++ crlf))))))
    else says (utf8 "[" ++ (v.nickname ++ (utf8 "]: " ++ (message ++ crlf))))

unfoldable pub is_slash : Text → Bool
is_slash [] = false
is_slash (c ∷ cs) = c == b'/'

-- `arg1`, and the rest of the line without one leading space.
unfoldable pub drop_space : Text → Text
drop_space [] = []
drop_space (c ∷ cs) = if c == b' ' then cs else c ∷ cs

unfoldable pub full_argument : Text → Text
full_argument line =
    let (arg1, rest) = read_word line in
    let remaining_args = if is_empty arg1 then [] else drop_space (rest_of_line rest) in
    if not (is_empty remaining_args) then arg1 ++ b' ' ∷ remaining_args else arg1

unfoldable pub unknown_command : Text → Action
unknown_command cmd =
    replies (utf8 "Error: 알 수 없는 명령어 '" ++ (cmd ++ (utf8 "'. '/help'를 입력하여 도움말을 확인하세요." ++ crlf)))

-- The actions of a command and its whole argument, on the line that holds them.
unfoldable pub command_actions : Text → Text → Text → Session → List Action
command_actions cmd full_arg line v =
    if text_eq cmd (utf8 "/nick")
    then nick_command full_arg ∷ []
    else if text_eq cmd (utf8 "/join")
    then join_command full_arg v ∷ []
    else if text_eq cmd (utf8 "/leave")
    then leave_command v ∷ []
    else if text_eq cmd (utf8 "/users")
    then lists_users ∷ []
    else if text_eq cmd (utf8 "/quit")
    then replies (utf8 "* 연결을 종료합니다..." ++ crlf) ∷ quits ∷ []
    else if text_eq cmd (utf8 "/help")
    then help_lines
    else if is_empty cmd
    then []
    else if is_slash cmd
    then unknown_command cmd ∷ []
    else chat_message line v ∷ []

unfoldable pub process_command : Text → Session → Connection → List Action
process_command line v c =
    let words = read_word line in
    if c.stopped then [] else command_actions words.0 (full_argument words.1) line v
