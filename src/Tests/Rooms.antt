-- ===== src/Tests/Rooms.antt =====
-- The rooms at concrete inputs.
use memory_atlas_server.Chat.Room.{create, is_full}
use memory_atlas_server.Chat.Rooms.{join_room, leave_room}
use memory_atlas_server.Chat.Rooms.Effects.{without}
use memory_atlas_server.Chat.Rooms.Membership.{
  join_room_enters, join_room_full, leave_room_elsewhere, leave_room_exits,
}
use memory_atlas_server.Chat.Rooms.Placement.{IsIn}
use memory_atlas_server.Chat.State.{current_room}
use memory_atlas_server.Prelude.{
  Text, [], if◌then◌else◌, lookup, member, refl, some, text_eq, true, ℕ, ◌==◌, ◌↔◌, ◌≡◌,
}
use memory_atlas_server.Tests.Data.{
  den, den_room, full_room, pub_name, pub_room, server, server-IsPlaced, server_with_full_room,
  server_with_rooms, text_ne,
}

join_room_enters_example :
    let (s', answer) = join_room den (some 1) server in
    (answer ≡ true) × (current_room s'.hub 1 ≡ den) × ((k : Text) → IsIn 1 k s' ↔ (k ≡ den))
unfolding lookup text_eq is_full create
join_room_enters_example =
    join_room_enters den 1 server refl (text_ne den [] refl) server-IsPlaced refl

leave_room_exits_example :
    let (s', answer) = leave_room den (some 1) server_with_rooms in
    (answer ≡ true)
    × (¬ IsIn 1 den s')
    × ((k : Text)
        → lookup k s'.rooms
          ≡ (if text_eq den k then without 1 den_room else lookup k server_with_rooms.rooms))
    × ((b : ℕ)
        → current_room s'.hub b ≡ (if 1 == b then [] else current_room server_with_rooms.hub b))
unfolding lookup text_eq
leave_room_exits_example = leave_room_exits den den_room 1 server_with_rooms refl refl

join_room_full_example :
    let (s', answer) = join_room den (some 1) server_with_full_room in
    (answer ≡ true)
    × (current_room s'.hub 1 ≡ den)
    × (lookup den s'.rooms ≡ some full_room)
    × (¬ IsIn 1 den s')
unfolding lookup text_eq is_full member
join_room_full_example = join_room_full den 1 server_with_full_room refl full_room refl refl refl

leave_room_elsewhere_example :
    let (s', answer) = leave_room den (some 3) server_with_rooms in
    (answer ≡ true) × (current_room s'.hub 3 ≡ []) × IsIn 3 pub_name s'
unfolding lookup text_eq member
leave_room_elsewhere_example =
    leave_room_elsewhere den den_room 3 server_with_rooms refl refl pub_name
      (text_ne pub_name den refl) (pub_room, refl, refl)
