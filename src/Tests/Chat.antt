-- ===== src/Tests/Chat.antt =====
-- The chat server at concrete inputs.
use memory_atlas_server.Chat.Broadcast.{
  broadcast, broadcast_to_room, confirmation_message, private_message, send_private_message,
}
use memory_atlas_server.Chat.Broadcast.Deliveries.{
  Posts, broadcast-Posts, broadcast_to_room-Posts, received, send_private_message-Posts,
}
use memory_atlas_server.Chat.Nicknames.{
  get_user_list, has_space, is_invalid_nickname, is_space, try_register_nickname,
}
use memory_atlas_server.Chat.Nicknames.Faults.{register_twice_faults}
use memory_atlas_server.Chat.Nicknames.Registration.{Outcome, try_register_nickname-Outcome}
use memory_atlas_server.Chat.Nicknames.Registry.{get_user_list-live, listed, live_owner}
use memory_atlas_server.Chat.Room.{format_message, sender_name}
use memory_atlas_server.Chat.Room.Effects.{others}
use memory_atlas_server.Chat.Rooms.Placement.{IsIn}
use memory_atlas_server.Chat.Server.{leave}
use memory_atlas_server.Chat.Server.Departure.{leave_clears}
use memory_atlas_server.Chat.State.{
  Server, direct, relayed, has_proper_nickname, is_sender, nickname,
}
use memory_atlas_server.History.Store.{log_global_message, log_private_message, log_room_message}
use memory_atlas_server.Prelude.{
  Text, [], arith, if◌then◌else◌, is_some, lookup, member, none, not, refl, some, text_eq, true,
  utf8, ℕ, ◌&&◌, ◌==◌, ◌∷◌, ◌≡◌,
}
use memory_atlas_server.Tests.Data.{
  ann, bob, den, den_room, hi, io, kim, lee, not-IsTaken, server, server-IsPlaced,
  server-IsRegistry, server_with_rooms, text_ne,
}

try_register_nickname-Outcome_example : Outcome kim 1 server (try_register_nickname kim 1 server)
unfolding is_invalid_nickname has_space is_space text_eq utf8 lookup has_proper_nickname
try_register_nickname-Outcome_example = try_register_nickname-Outcome kim 1 server refl refl refl

leave_clears_example :
    let s' = leave io (some 1) server in
    ((b : ℕ) → member b s'.sessions ≡ (not (1 == b) && member b server.sessions))
    × ((j : Text)
        → lookup j s'.nicknames ≡ (
            if has_proper_nickname (server.session_at 1) && text_eq (nickname server.hub 1) j
            then none
            else lookup j server.nicknames))
    × ((k : Text) → ¬ IsIn 1 k s')
leave_clears_example = leave_clears io 1 server refl server-IsPlaced

broadcast-Posts_example :
    Posts server
      (others ((some 1)) (relayed hi) server.sessions)
      (log_global_message io hi (sender_name ((some 1)) server.hub))
      (broadcast io hi ((some 1)) server)
    × ((p : ℕ)
        → received p (others ((some 1)) (relayed hi) server.sessions)
          ≡ (if member p server.sessions && not (is_sender ((some 1)) p) then 1 else 0))
broadcast-Posts_example =
    broadcast-Posts io hi (some 1) server refl (omega arith, (omega arith, (omega arith, _)))

broadcast_to_room-Posts_example :
    Posts server_with_rooms
      (others
        ((some 1))
        (direct (format_message hi ((some 1)) den_room server_with_rooms.hub))
        den_room.participants)
      (log_room_message io den hi (sender_name ((some 1)) server_with_rooms.hub))
      (broadcast_to_room io den hi ((some 1)) server_with_rooms).0
    × ((broadcast_to_room io den hi ((some 1)) server_with_rooms).1 ≡ true)
    × ((p : ℕ)
        → received p (
            others
              ((some 1))
              (direct (format_message hi ((some 1)) den_room server_with_rooms.hub))
              den_room.participants)
          ≡ (if member p den_room.participants && not (is_sender ((some 1)) p) then 1 else 0))
unfolding lookup text_eq
broadcast_to_room-Posts_example =
    broadcast_to_room-Posts io den hi (some 1) den_room server_with_rooms refl refl
      (omega arith, (omega arith, _))

send_private_message-Posts_example :
    Posts server
      ((2, direct (private_message (nickname server.hub 1) hi))
        ∷ (1, direct (confirmation_message bob hi))
        ∷ [])
      (log_private_message io hi (nickname server.hub 1) bob)
      (send_private_message io hi (some 1) bob server).0
    × ((send_private_message io hi (some 1) bob server).1 ≡ true)
unfolding lookup text_eq
send_private_message-Posts_example =
    send_private_message-Posts io hi 1 2 bob server refl refl refl refl refl

get_user_list-live_example :
    let (s', users) = get_user_list server in
    (listed ann users ≡ is_some (live_owner ann server.session_at server.nicknames))
    × (lookup ann s'.nicknames ≡ live_owner ann server.session_at server.nicknames)
get_user_list-live_example = get_user_list-live ann server refl server-IsRegistry

register_twice_faults_example :
    (s' : Server) × (try_register_nickname kim 1 server ≡ some (s', true))
    × (try_register_nickname lee 1 s' ≡ none)
unfolding is_invalid_nickname has_space is_space text_eq utf8 lookup has_proper_nickname
register_twice_faults_example =
    register_twice_faults kim lee 1 server refl refl refl refl (refl, text_ne ann kim refl)
      (refl, text_ne ann lee refl) refl (not-IsTaken kim 1 server refl)
      (not-IsTaken lee 1 server refl)
