-- ===== src/Chat/Room.antt =====
-- src/ChatRoom.cpp. A room acts on its own participants and on the hub of the sessions.
pub mod Effects
use memory_atlas_server.Prelude.{
  ℕ, ◌++◌, List, [], ◌∷◌, Bool, true, false, not, leb, if◌then◌else◌, Option, none, some, length,
  is_empty, Text, utf8, map, find_text, member, add, remove,
}
use memory_atlas_server.Chat.State.{
  Room, Hub, direct, crlf, deliver, set_current_room, nickname, post_to_others,
}

unfoldable pub create : Text → Room
create name = record { name = name; participants = []; max_participants = 100 }

-- `message.find("*") == 0`
unfoldable pub is_system_message : Text → Bool
is_system_message message = elim (find_text (utf8 "*") message) [ some ℕ.zero ↦ true | _ ↦ false ]

abbrev pub sender_name : Option ℕ → Hub → Text
sender_name none hub = utf8 "system"
sender_name (some s) hub = nickname hub s

unfoldable pub format_message : Text → Option ℕ → Room → Hub → Text
format_message message sender r hub =
    if is_system_message message
    then message
    else utf8 "["
      ++ (sender_name sender hub ++ (utf8 " @ " ++ (r.name ++ (utf8 "]: " ++ (message ++ crlf)))))

unfoldable pub broadcast : Text → Option ℕ → Room → Hub → Hub
broadcast message sender r hub =
    post_to_others sender (direct (format_message message sender r hub)) r.participants hub

unfoldable pub is_full : Room → Bool
is_full r = leb r.max_participants (length r.participants)

unfoldable pub join_message : Text → Text → Text
join_message nick name =
    utf8 "* " ++ (nick ++ (utf8 "님이 '" ++ (name ++ (utf8 "' 방에 입장했습니다." ++ crlf))))

unfoldable pub leave_message : Text → Text → Text
leave_message nick name =
    utf8 "* " ++ (nick ++ (utf8 "님이 '" ++ (name ++ (utf8 "' 방에서 나갔습니다." ++ crlf))))

unfoldable pub full_message : Text → Text
full_message name = utf8 "Error: 방 '" ++ (name ++ (utf8 "'이(가) 꽉 찼습니다." ++ crlf))

unfoldable pub join : ℕ → Room → Hub → Room × Hub
join participant r hub =
    if is_full r
    then (r, deliver participant (full_message r.name) hub)
    else let r' : Room = record r { participants = add participant r.participants } in
      let hub' = set_current_room participant r.name hub in
      (r', broadcast (join_message (nickname hub' participant) r.name) none r' hub')

unfoldable pub leave : ℕ → Room → Hub → Room × Hub
leave participant r hub =
    if not (member participant r.participants)
    then (r, hub)
    else let r' : Room = record r { participants = remove participant r.participants } in
      let hub' = set_current_room participant [] hub in
      (r', broadcast (leave_message (nickname hub' participant) r.name) none r' hub')

unfoldable pub get_participant_nicknames : Room → Hub → List Text
get_participant_nicknames r hub = map (nickname hub) r.participants

unfoldable pub empty : Room → Bool
empty r = is_empty r.participants
