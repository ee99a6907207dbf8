-- ===== src/Chat/Rooms/Invariant.antt =====
-- The invariant of the map of rooms: each room stands under its own name, holds between one and a
-- hundred participants, each once, and no room is empty.
use memory_atlas_server.Prelude.{
  ℕ, ◌≤◌, ◌≡◌, ◌≢◌, refl, ap, List, [], ◌∷◌, Bool-cases, Option-cases, inl, inr, Option, some,
  is_empty, length, Text, arith, Map, lookup, All, All-insert, All-erase, All-lookup, add, Above,
  Above-add, Above-remove, length-add-le, length-remove-le,
}
use memory_atlas_server.Chat.State.{Server, Room, nickname}
use memory_atlas_server.Chat.Rooms.Cases.{leave_old_room_cases, join_room_cases, leave_room_cases}
use memory_atlas_server.Chat.Room
use memory_atlas_server.Chat.Room.Effects.{leave-room, join-room}
use memory_atlas_server.Chat.Rooms.Effects.{with_participant, announce_join-rooms}
use memory_atlas_server.Chat.Rooms.{
  store_or_erase, remove_from_room, leave_old_room, find_or_create, enter_room, join_room,
  leave_room,
}

pub record IsSound (e : Text × Room) : Type 0 where
  pub named : e.1.name ≡ e.0
  pub limit : e.1.max_participants ≡ 100
  pub bounded : length e.1.participants ≤ 100
  pub occupied : e.1.participants ≢ []
  pub distinct : Above 0 e.1.participants

-- A room that may be empty, as one that was just made or left.
record IsSoundRoom (name : Text) (r : Room) : Type 0 where
  named : r.name ≡ name
  limit : r.max_participants ≡ 100
  bounded : length r.participants ≤ 100
  distinct : Above 0 r.participants

abbrev pub AreSound : Server → Type 0
AreSound s = All IsSound s.rooms

create-IsSoundRoom : (name : Text) → IsSoundRoom name (Room.create name)
unfolding Room.create
create-IsSoundRoom name = record {
  named = refl;
  limit = refl;
  bounded = omega arith;
  distinct = tt;
}

IsSound-room : (name : Text) (r : Room) → IsSound (name, r) → IsSoundRoom name r
IsSound-room name r h = record {
  named = h.named;
  limit = h.limit;
  bounded = h.bounded;
  distinct = h.distinct;
}

add-ne-nil : (a : ℕ) (xs : List ℕ) → add a xs ≢ []
unfolding add
add-ne-nil a [] = λ e. cc
add-ne-nil a (x ∷ xs) = ground arith

with_participant-IsSound :
    (name : Text) (a : ℕ) (r : Room) → IsSoundRoom name r → IsSound (name, with_participant a r)
unfolding Room.is_full
with_participant-IsSound name a r h = elim (Bool-cases (Room.is_full r)) [
  | inl full ↦ rw full (record {
    named = h.named;
    limit = h.limit;
    bounded = h.bounded;
    occupied = λ e. ground (arith, full, h.limit, ap length e);
    distinct = h.distinct;
  })
  | inr room ↦ rw room (record {
    named = h.named;
    limit = h.limit;
    bounded = ground (arith, h.limit, h.bounded, length-add-le a r.participants);
    occupied = add-ne-nil a r.participants;
    distinct = Above-add 0 a r.participants (omega arith) h.distinct;
  })
]

store_or_erase-AreSound :
    (name : Text) (r : Room) (rooms : Map Room)
    → IsSoundRoom name r
    → All IsSound rooms
    → All IsSound (store_or_erase name r rooms)
unfolding store_or_erase Room.empty
store_or_erase-AreSound name r rooms h k = elim (Bool-cases (is_empty r.participants)) [
  | inl gone ↦ rw gone (All-erase IsSound name rooms k)
  | inr left ↦ rw left (
      All-insert IsSound name r rooms
        (record {
          named = h.named;
          limit = h.limit;
          bounded = h.bounded;
          occupied = λ e. ground arith;
          distinct = h.distinct;
        })
        k)
]

remove_from_room-AreSound :
    (name : Text) (r : Room) (a : ℕ) (s : Server)
    → IsSoundRoom name r
    → AreSound s
    → AreSound (remove_from_room name r a s)
unfolding remove_from_room
remove_from_room-AreSound name r a s h k =
    store_or_erase-AreSound name _ s.rooms
      (rw (leave-room a r _) (record {
        named = h.named;
        limit = h.limit;
        bounded = omega (arith, length-remove-le a r.participants, h.bounded);
        distinct = Above-remove 0 a r.participants h.distinct;
      }))
      k

found-IsSoundRoom :
    (name : Text) (r : Room) (rooms : Map Room)
    → All IsSound rooms
    → lookup name rooms ≡ some r
    → IsSoundRoom name r
found-IsSoundRoom name r rooms k found =
    IsSound-room name r (All-lookup IsSound name r rooms k found)

find_or_create-IsSoundRoom :
    (name : Text) (rooms : Map Room)
    → All IsSound rooms
    → IsSoundRoom name (find_or_create name rooms)
find_or_create-IsSoundRoom name rooms k = elim (Option-cases (lookup name rooms)) [
  | inl missing ↦ rw (missing, find_or_create) (create-IsSoundRoom name)
  | inr (r, found) ↦ rw (found, find_or_create) (found-IsSoundRoom name r rooms k found)
]

enter_room-AreSound :
    (name : Text) (a : ℕ) (s : Server) → AreSound s → AreSound (enter_room name a s)
unfolding enter_room
enter_room-AreSound name a s k =
    All-insert IsSound name _ s.rooms
      (rw (join-room a (find_or_create name s.rooms) s.hub)
        (with_participant-IsSound name a _ (find_or_create-IsSoundRoom name s.rooms k)))
      k

leave_old_room-AreSound :
    (name : Text) (a : ℕ) (s : Server) → AreSound s → AreSound (leave_old_room name a s)
leave_old_room-AreSound name a s k =
    leave_old_room_cases AreSound name a s (λ _. k)
      λ r found _. remove_from_room-AreSound _ r a s (found-IsSoundRoom _ r s.rooms k found) k

-- Joining keeps the rooms sound, on every branch.
pub join_room-AreSound :
    (name : Text) (a : Option ℕ) (s : Server) → AreSound s → AreSound (join_room name a s).0
join_room-AreSound name a s k =
    join_room_cases (λ r. AreSound r.0) name a s k
      λ b _ _.
        rw
          (announce_join-rooms name b (enter_room name b (leave_old_room name b s))
            (nickname s.hub b))
          (enter_room-AreSound name b (leave_old_room name b s)
            (leave_old_room-AreSound name b s k))

-- So does leaving.
pub leave_room-AreSound :
    (name : Text) (a : Option ℕ) (s : Server) → AreSound s → AreSound (leave_room name a s).0
leave_room-AreSound name a s k =
    leave_room_cases (λ r. AreSound r.0) name a s k
      λ b r _ _ found.
        remove_from_room-AreSound name r b s (found-IsSoundRoom name r s.rooms k found) k
