-- ===== src/Chat/Rooms/Effects.antt =====
-- What joining and leaving do to the map of rooms and to the sessions' current rooms.
use memory_atlas_server.Prelude.{
  ℕ, ◌≡◌, refl, [], ◌&&◌, ◌==◌, if◌then◌else◌, Option-cases, inl, inr, Option, none, some, is_empty,
  Text, text_eq, arith, Map, lookup, lookup-insert, lookup-erase, member, add, remove,
}
use memory_atlas_server.Chat.State.{Server, Room, deliver, nickname, current_room}
use memory_atlas_server.Chat.Room
use memory_atlas_server.Chat.Room.Effects.{
  session_at-broadcast, current_room-set_current_room, join-room, join-current_room, leave-room,
  leave-current_room,
}
use memory_atlas_server.Chat.Rooms.{
  store_or_erase, remove_from_room, find_or_create, enter_room, announce_join, user_left_notice,
}

-- A room without one of its participants; no room where nobody is left.
abbrev pub without : ℕ → Room → Option Room
without a r =
    if is_empty (remove a r.participants)
    then none
    else some (record r { participants = remove a r.participants })

-- A room as `join` leaves it.
abbrev pub with_participant : ℕ → Room → Room
with_participant a r =
    if Room.is_full r then r else record r { participants = add a r.participants }

pub lookup-store_or_erase :
    (name k : Text) (r : Room) (rooms : Map Room)
    → lookup k (store_or_erase name r rooms) ≡ (
        if text_eq name k
        then (if is_empty r.participants then none else some r)
        else lookup k rooms)
unfolding store_or_erase Room.empty
lookup-store_or_erase name k r rooms =
    ground (arith, lookup-insert name k r rooms, lookup-erase name k rooms)

module _ (name : Text) (r : Room) (a : ℕ) (s : Server) where
  pub lookup-remove_from_room :
      (k : Text)
      → lookup k (remove_from_room name r a s).rooms
        ≡ (if text_eq name k then without a r else lookup k s.rooms)
  unfolding remove_from_room
  lookup-remove_from_room k = rw (lookup-store_or_erase name k _ s.rooms) (
      rw
        (leave-room a r
          (Room.broadcast (user_left_notice (nickname s.hub a) name) (some a) r s.hub))
        refl)

  pub current_room-remove_from_room :
      (b : ℕ)
      → current_room (remove_from_room name r a s).hub b
        ≡ (if a == b && member a r.participants then [] else current_room s.hub b)
  unfolding remove_from_room
  current_room-remove_from_room b =
      rw
        (leave-current_room a b r
          (Room.broadcast (user_left_notice (nickname s.hub a) name) (some a) r s.hub))
        (rw (session_at-broadcast (user_left_notice (nickname s.hub a) name) (some a) r s.hub) refl)

module _ (name : Text) (a : ℕ) (s : Server) where
  pub lookup-enter_room :
      (k : Text)
      → lookup k (enter_room name a s).rooms ≡ (
          if text_eq name k
          then some (with_participant a (find_or_create name s.rooms))
          else lookup k s.rooms)
  unfolding enter_room
  lookup-enter_room k = rw (lookup-insert name k _ s.rooms) (rw (join-room a _ s.hub) refl)

  pub current_room-enter_room :
      (b : ℕ)
      → current_room (enter_room name a s).hub b ≡ (if a == b then name else current_room s.hub b)
  unfolding enter_room
  current_room-enter_room b = ground (
    arith,
    current_room-set_current_room a b name (Room.join a (find_or_create name s.rooms) s.hub).1,
    join-current_room a b (find_or_create name s.rooms) s.hub,
  )

  pub announce_join-rooms : (nick : Text) → (announce_join nick name a s).rooms ≡ s.rooms
  unfolding announce_join
  announce_join-rooms nick = ground arith

  pub announce_join-session_at :
      (nick : Text) → (announce_join nick name a s).session_at ≡ s.session_at
  unfolding announce_join deliver
  announce_join-session_at nick = elim (Option-cases (lookup name s.rooms)) [
    | inl missing ↦ rw (missing, announce_join) refl
    | inr (r, found) ↦ rw (found, announce_join) (session_at-broadcast _ (some a) r _)
  ]
