-- ===== src/Chat/Rooms.antt =====
-- src/ChatServer.cpp: joining and leaving rooms. The mutex makes each body one step.
pub mod Frame
pub mod Cases
pub mod Effects
pub mod Invariant
pub mod Membership
pub mod Placement
use memory_atlas_server.Prelude.{
  ℕ, zero, suc, ◌+◌, ◌/◌, ◌%◌, ◌++◌, List, [], ◌∷◌, Bool, true, false, not, ◌||◌, ◌&&◌, ltb, ◌==◌,
  if◌then◌else◌, Option, none, some, is_empty, length, take, drop, Text, utf8, text_eq, find_text,
  Map, lookup, insert, erase,
}
use memory_atlas_server.Chat.State.{
  Server, Hub, Room, crlf, deliver, set_current_room, nickname, current_room,
}
use memory_atlas_server.Chat.Nicknames.{has_space}
use memory_atlas_server.Chat.Room

unfoldable pub digits_from : ℕ → ℕ → Text → Text
digits_from zero n acc = acc
digits_from (suc fuel) n acc =
    let rest = digits_from fuel (n / 10) ((b'0' + n % 10) ∷ acc) in
    if ltb n 10 then (b'0' + n % 10) ∷ acc else rest

-- `std::to_string` of a `size_t`; twenty digits are enough for 64 bits.
unfoldable pub to_string : ℕ → Text
to_string n = digits_from 20 n []

unfoldable pub user_left_notice : Text → Text → Text
user_left_notice nick room_name =
    utf8 "* 사용자 '" ++ (nick ++ (utf8 "'님이 '" ++ (room_name ++ (utf8 "' 방에서 나갔습니다." ++ crlf))))

unfoldable pub user_joined_notice : Text → Text
user_joined_notice nick = utf8 "* 사용자 '" ++ (nick ++ (utf8 "'님이 방에 들어왔습니다." ++ crlf))

unfoldable pub left_room_message : Text → Text
left_room_message room_name = utf8 "* '" ++ (room_name ++ (utf8 "' 방에서 퇴장했습니다." ++ crlf))

-- A room after `remove_participant`: dropped from the map when it is empty.
unfoldable pub store_or_erase : Text → Room → Map Room → Map Room
store_or_erase name room rooms =
    if Room.empty room then erase name rooms else insert name room rooms

-- The notice to the others and the removal, as both `join_room` and `leave_room` do them.
unfoldable pub remove_from_room : Text → Room → ℕ → Server → Server
remove_from_room room_name room session s =
    let notice = user_left_notice (nickname s.hub session) room_name in
    let (room', hub') = Room.leave session room (Room.broadcast notice (some session) room s.hub) in
    record s { hub = hub'; rooms = store_or_erase room_name room' s.rooms }

unfoldable pub leave_old_room : Text → ℕ → Server → Server
leave_old_room room_name session s =
    let old_room_name = current_room s.hub session in
    if not (is_empty old_room_name) && not (text_eq old_room_name room_name)
    then elim (lookup old_room_name s.rooms) [
      | none ↦ s
      | some old_room ↦ remove_from_room old_room_name old_room session s
    ]
    else s

-- The list of the members, the caller marked.
unfoldable pub member_list : Hub → ℕ → Bool → List ℕ → Text
member_list hub session first [] = []
member_list hub session first (m ∷ members) =
    (if first then [] else utf8 ", ")
    ++ (nickname hub m
        ++ ((if m == session then utf8 " (You)" else []) ++ member_list hub session false members))

-- `s.replace(s.find(old), old.length(), new)`
unfoldable pub replace_first : Text → Text → Text → Text
replace_first old new s = elim (find_text old s) [
  | none ↦ s
  | some pos ↦ take pos s ++ (new ++ drop (pos + length old) s)
]

unfoldable pub join_confirmation : Text → Hub → ℕ → List ℕ → Text
join_confirmation room_name hub session members =
    let size = to_string (length members) in
    let confirm =
      utf8 "* '"
      ++ (room_name
          ++ (utf8 "' 방에 입장했습니다." ++ (crlf ++ (utf8 "* 현재 멤버 (" ++ (size ++ utf8 "): "))))) in
    replace_first size size confirm ++ (member_list hub session true members ++ crlf)

abbrev pub find_or_create : Text → Map Room → Room
find_or_create room_name rooms = elim (lookup room_name rooms) [
  | none ↦ Room.create room_name
  | some room ↦ room
]

-- The participant is added, and the session told, before the lock is released.
unfoldable pub enter_room : Text → ℕ → Server → Server
enter_room room_name session s =
    let (room', hub') = Room.join session (find_or_create room_name s.rooms) s.hub in
    record s {
      hub = set_current_room session room_name hub';
      rooms = insert room_name room' s.rooms;
    }

-- The confirmation to the session and the notice to the other members.
unfoldable pub announce_join : Text → Text → ℕ → Server → Server
announce_join nick room_name session s = elim (lookup room_name s.rooms) [
  | none ↦ s
  | some room ↦
      let confirm = join_confirmation room_name s.hub session room.participants in
      record s {
        hub =
            Room.broadcast (user_joined_notice nick) (some session) room
              (deliver session confirm s.hub);
      }
]

unfoldable pub join_room : Text → Option ℕ → Server → Server × Bool
join_room room_name none s = (s, false)
join_room room_name (some session) s = if s.stopped then (s, false) else (
  announce_join (nickname s.hub session) room_name session
      (enter_room room_name session (leave_old_room room_name session s)),
  true,
)

unfoldable pub is_invalid_room_name : Text → Bool
is_invalid_room_name room_name = has_space room_name || ltb 30 (length room_name)

unfoldable pub join_room_async : Text → Option ℕ → Server → Server × Bool
join_room_async room_name none s = (s, false)
join_room_async room_name (some session) s =
    if s.stopped || is_empty room_name || is_invalid_room_name room_name
    then (s, false)
    else join_room room_name (some session) s

unfoldable pub leave_room : Text → Option ℕ → Server → Server × Bool
leave_room room_name none s = (s, false)
leave_room room_name (some session) s =
    if s.stopped then (s, false) else elim (lookup room_name s.rooms) [
      | none ↦ (s, false)
      | some room ↦
          let s' = remove_from_room room_name room session s in
          (
            record s' {
              hub =
                  deliver session (left_room_message room_name)
                    (set_current_room session [] s'.hub);
            },
            true,
          )
    ]

unfoldable pub leave_room_async : Text → Option ℕ → Server → Server × Bool
leave_room_async room_name none s = (s, false)
leave_room_async room_name (some session) s =
    if s.stopped || is_empty room_name || not (text_eq (current_room s.hub session) room_name)
    then (s, false)
    else leave_room room_name (some session) s

unfoldable pub leave_all_rooms_impl : ℕ → Server → Server
leave_all_rooms_impl session s =
    if is_empty (current_room s.hub session)
    then s
    else (leave_room (current_room s.hub session) (some session) s).0
