-- ===== src/Sessions/WebSocket.antt =====
-- src/WebSocketSession.cpp: a session over a WebSocket: its queue of messages, and its commands.
pub mod Calls
pub mod Requests
pub mod Commands
pub mod Writing
pub mod System
use memory_atlas_server.Prelude.{
  ℕ, List, [], ◌∷◌, ◌++◌, Bool, true, false, not, ◌||◌, ◌&&◌, ◌==◌, leb, if◌then◌else◌, is_empty,
  length, Option, none, some, Text, utf8, text_eq,
}
use memory_atlas_server.History.Writing.{Io}
use memory_atlas_server.Chat.State.{Server, Session, Hub, crlf, deliver, set_nickname}
use memory_atlas_server.Chat.Broadcast.{broadcast, broadcast_to_room, send_private_message}
use memory_atlas_server.Chat.Nicknames.{try_register_nickname, get_user_list}
use memory_atlas_server.Chat.Rooms.{join_room_async, leave_room}
use memory_atlas_server.Chat.Server.{entered_message}
use memory_atlas_server.Sessions.Words.{read_word, rest_of_line, drop_blanks}

-- `write_msgs_` and `is_writing_`; `started` holds the messages handed to `ws_.async_write`,
-- oldest first.
pub record Queue : Type 0 where
  pub write_msgs : List Text
  pub is_writing : Bool
  pub started : List Text

abbrev pub max_queue_size : ℕ
max_queue_size = 100

unfoldable pub do_write : Queue → Queue
do_write q = elim q.write_msgs [
  | [] ↦ q
  | front ∷ _ ↦
      if q.is_writing then q else record q { is_writing = true; started = q.started ++ front ∷ [] }
]

-- The task that `deliver` posts.
unfoldable pub enqueue : Text → Queue → Queue
enqueue msg q =
    let write_in_progress = not (is_empty q.write_msgs) in
    let q' : Queue = record q { write_msgs = q.write_msgs ++ msg ∷ [] } in
    if leb max_queue_size (length q.write_msgs)
    then q
    else if not write_in_progress && not q.is_writing
    then do_write q'
    else q'

-- `on_write`: `failed` is whether `ec` is set, and the answer whether the session leaves the
-- server. `none` is the undefined behaviour of `pop` on an empty queue.
unfoldable pub on_write : Bool → Queue → Option (Queue × Bool)
on_write failed q =
    if failed then some (record q { is_writing = false }, true) else elim q.write_msgs [
      | [] ↦ none
      | _ ∷ msgs ↦
          let q' : Queue = record q { is_writing = false; write_msgs = msgs } in
          some (if not (is_empty msgs) then do_write q' else q', false)
    ]

-- The calls that `process_message` makes on the server and on the session itself.
pub data Call : Type 0 where
  registers enters leaves_room : Text → Call
  lists_users : Call
  whispers : Text → Text → Call
  says : Text → Call
  says_in_room : Text → Text → Call
  replies : Text → Call

-- The call of a command with its first argument, and the rest of the line.
unfoldable pub command_call : Text → Text → Text → Call
command_call command argument rest =
    let pm_message = drop_blanks (rest_of_line rest) in
    if text_eq command (utf8 "/nick")
    then if is_empty argument
      then replies (utf8 "Error: 사용법: /nick <닉네임>" ++ crlf)
      else registers argument
    else if text_eq command (utf8 "/pm")
    then if is_empty argument || is_empty pm_message
      then replies (utf8 "Error: 사용법: /pm <닉네임> <메시지>" ++ crlf)
      else whispers argument pm_message
    else if text_eq command (utf8 "/list")
    then lists_users
    else if text_eq command (utf8 "/join")
    then if is_empty argument
      then replies (utf8 "Error: 사용법: /join <방이름>" ++ crlf)
      else enters argument
    else if text_eq command (utf8 "/leave")
    then if is_empty argument
      then replies (utf8 "Error: 사용법: /leave <방이름>" ++ crlf)
      else leaves_room argument
    else replies (utf8 "Error: 알 수 없는 명령어입니다." ++ crlf)

unfoldable pub process_command : Text → Call
process_command message =
    let words = read_word message in
    let arguments = read_word words.1 in command_call words.0 arguments.0 arguments.1

-- `process_message` of a session that has the given state; `none` when it returns at once.
unfoldable pub process_message : Text → Session → Option Call
process_message [] v = none
process_message (c ∷ cs) v =
    if c == b'/'
    then some (process_command (c ∷ cs))
    else if not (is_empty v.current_room)
    then some (says_in_room v.current_room (c ∷ cs))
    else some (says (utf8 "[" ++ (v.nickname ++ (utf8 "]: " ++ c ∷ cs))))
