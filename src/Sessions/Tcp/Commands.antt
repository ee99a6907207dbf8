-- ===== src/Sessions/Tcp/Commands.antt =====
-- The calls that a line of a TCP client makes.
use memory_atlas_server.Prelude.{
  List, [], ◌∷◌, ◌++◌, true, false, ◌||◌, ltb, if◌then◌else◌, if_both, is_empty, length, Text, utf8,
  text_eq, ◌≡◌, refl, ap, ◌∙◌, subst, append-nil, All, arith,
}
use memory_atlas_server.Chat.State.{Session, crlf}
use memory_atlas_server.Chat.Nicknames.{has_space, is_space, is_invalid_nickname}
use memory_atlas_server.Chat.Rooms.{is_invalid_room_name}
use memory_atlas_server.Sessions.Words.{read_word, skip_spaces, word_of, after_word, rest_of_line}
use memory_atlas_server.Sessions.Words.Commands.{read_word-word}
use memory_atlas_server.Sessions.Tcp.{
  Connection, Action, registers, enters, leaves_room, lists_users, quits, says, says_in_room,
  replies, nick_command, join_command, leave_command, chat_message, help_lines, command_actions,
  process_command, full_argument, drop_space, is_slash, unknown_command,
}

-- What the server may rely on in a call of a session that has the given state.
pub IsAllowed : Session → Action → Type 0
IsAllowed v (registers nick) =
    is_invalid_nickname nick ≡ (text_eq nick (utf8 "Server") || text_eq nick (utf8 "system"))
IsAllowed v (enters room) =
    (is_empty room ≡ false)
    × (is_invalid_room_name room ≡ false)
    × (text_eq room v.current_room ≡ false)
IsAllowed v (leaves_room room) = (room ≡ v.current_room) × (is_empty room ≡ false)
IsAllowed v (says_in_room room message) = (room ≡ v.current_room) × (is_empty room ≡ false)
IsAllowed v (says message) = is_empty v.current_room ≡ true
IsAllowed v lists_users = Unit {0}
IsAllowed v quits = Unit {0}
IsAllowed v (replies message) = Unit {0}

pub record AreAllowed (v : Session) (actions : List Action) : Type 0 where
  pub each : All (IsAllowed v) actions

nick_command-IsAllowed : (nick : Text) (v : Session) → IsAllowed v (nick_command nick)
unfolding nick_command IsAllowed is_invalid_nickname
nick_command-IsAllowed nick v = ground arith

join_command-IsAllowed : (room : Text) (v : Session) → IsAllowed v (join_command room v)
unfolding join_command IsAllowed is_invalid_room_name
join_command-IsAllowed room v = ground arith

leave_command-IsAllowed : (v : Session) → IsAllowed v (leave_command v)
unfolding leave_command IsAllowed
leave_command-IsAllowed v = ground arith

chat_message-IsAllowed : (message : Text) (v : Session) → IsAllowed v (chat_message message v)
unfolding chat_message IsAllowed
chat_message-IsAllowed message v = ground arith

command_actions-AreAllowed :
    (cmd full_arg line : Text) (v : Session) → AreAllowed v (command_actions cmd full_arg line v)
unfolding command_actions help_lines unknown_command IsAllowed
command_actions-AreAllowed cmd full_arg line v =
    let P = AreAllowed v in
    let one : (a : Action) → IsAllowed v a → P (a ∷ []) = λ a h. record { each = (h, _) } in
    let quit : P (replies (utf8 "* 연결을 종료합니다..." ++ crlf) ∷ quits ∷ []) = record { each = _ } in
    let help : P help_lines = record { each = _ } in
    let none : P [] = record { each = _ } in
    if_both P _ _ _ (one _ (nick_command-IsAllowed full_arg v)) (
      if_both P _ _ _ (one _ (join_command-IsAllowed full_arg v)) (
        if_both P _ _ _ (one _ (leave_command-IsAllowed v)) (
          if_both P _ _ _ (one lists_users _) (
            if_both P (text_eq cmd (utf8 "/quit")) _ _ quit (
              if_both P (text_eq cmd (utf8 "/help")) _ _ help (
                if_both P (is_empty cmd) _ _ none (
                  if_both P (is_slash cmd) _ _ (one (unknown_command cmd) _)
                    (one _ (chat_message-IsAllowed line v)))))))))

-- Whatever a TCP client writes, a nickname that the session asks for passes the server's pre-check
-- but for the two reserved names, a room that it enters has a valid name and is not its own, and
-- it leaves and speaks in no room but its own.
pub process_command-AreAllowed :
    (line : Text) (v : Session) (c : Connection) → AreAllowed v (process_command line v c)
unfolding process_command
process_command-AreAllowed line v c =
    if_both (AreAllowed v) c.stopped _ _ (record { each = _ })
      (command_actions-AreAllowed _ _ line v)

full_argument-word :
    (word : Text)
    → is_empty word ≡ false
    → has_space word ≡ false
    → full_argument (b' ' ∷ word) ≡ word
unfolding full_argument rest_of_line drop_space
full_argument-word word e h =
    let f : read_word (b' ' ∷ word) ≡ (word, []) =
      subst (λ t. read_word (b' ' ∷ t) ≡ (word, [])) (append-nil word)
        (read_word-word word [] e h refl) in
    rw (f, e) refl

-- In a running TCP session, for a word that is not empty and has no space, the lines `/nick word`,
-- `/join word` and `/leave` ask for exactly that word and for the session's room: a nickname of at
-- most 20 bytes, a room name of at most 30 that is not the session's own; the others are answered
-- with an error or a notice.
pub process_command-word :
    (word : Text) (v : Session) (c : Connection)
    → c.stopped ≡ false
    → is_empty word ≡ false
    → has_space word ≡ false
    → (process_command (utf8 "/nick " ++ word) v c
        ≡ (if ltb 20 (length word)
            then replies (utf8 "Error: 닉네임은 20자를 초과할 수 없습니다." ++ crlf)
            else registers word)
          ∷ [])
      × (process_command (utf8 "/join " ++ word) v c
          ≡ (if ltb 30 (length word)
              then replies (utf8 "Error: 방 이름은 30자를 초과할 수 없습니다." ++ crlf)
              else if text_eq word v.current_room
              then replies (utf8 "* 이미 '" ++ (word ++ (utf8 "' 방에 있습니다." ++ crlf)))
              else enters word)
            ∷ [])
      × (process_command (utf8 "/leave") v c
          ≡ (if is_empty v.current_room
              then replies (utf8 "Error: 현재 어떤 방에도 없습니다." ++ crlf)
              else leaves_room v.current_room)
            ∷ [])
unfolding process_command command_actions utf8 skip_spaces word_of after_word is_space text_eq
    read_word nick_command join_command leave_command
process_command-word word v c s e h =
    let f = full_argument-word word e h in
    (
      rw s (ap (λ w. nick_command w ∷ []) f ∙ rw (e, h) refl),
      rw s (ap (λ w. join_command w v ∷ []) f ∙ rw (e, h) refl),
      rw s refl,
    )
