-- ===== src/Chat/Rooms/Frame.antt =====
-- What joining and leaving rooms leaves alone.
use memory_atlas_server.Prelude.{
  ℕ, ◌≡◌, refl, Bool-cases, inl, inr, Option, some, is_empty, Text, arith,
}
use memory_atlas_server.Chat.State.{Server, current_room, nickname}
use memory_atlas_server.Chat.Rooms.{
  remove_from_room, leave_old_room, enter_room, announce_join, join_room, leave_room,
  leave_all_rooms_impl,
}
use memory_atlas_server.Chat.Rooms.Cases.{leave_old_room_cases, join_room_cases, leave_room_cases}

-- The fields that the rooms do not touch.
pub record IsSameBut (s s' : Server) : Type 0 where
  pub sessions : s'.sessions ≡ s.sessions
  pub nicknames : s'.nicknames ≡ s.nicknames
  pub stopped : s'.stopped ≡ s.stopped

pub leave_room-IsSameBut :
    (name : Text) (a : Option ℕ) (s : Server) → IsSameBut s (leave_room name a s).0
unfolding remove_from_room
leave_room-IsSameBut name a s =
    leave_room_cases (λ r. IsSameBut s r.0) name a s
      (record { sessions = refl; nicknames = refl; stopped = refl })
      λ b r _ _ _. record { sessions = refl; nicknames = refl; stopped = refl }

pub leave_all_rooms_impl-IsSameBut : (a : ℕ) (s : Server) → IsSameBut s (leave_all_rooms_impl a s)
unfolding leave_all_rooms_impl
leave_all_rooms_impl-IsSameBut a s = elim (Bool-cases (is_empty (current_room s.hub a))) [
  | inl none_left ↦
      rw (none_left, leave_all_rooms_impl)
        (record { sessions = refl; nicknames = refl; stopped = refl })
  | inr some_left ↦
      rw (some_left, leave_all_rooms_impl) (leave_room-IsSameBut (current_room s.hub a) (some a) s)
]

leave_old_room-IsSameBut :
    (name : Text) (a : ℕ) (s : Server) → IsSameBut s (leave_old_room name a s)
unfolding remove_from_room
leave_old_room-IsSameBut name a s =
    leave_old_room_cases (IsSameBut s) name a s
      (λ _. record { sessions = refl; nicknames = refl; stopped = refl })
      λ r _ _. record { sessions = refl; nicknames = refl; stopped = refl }

announce_join-IsSameBut :
    (nick name : Text) (a : ℕ) (s : Server) → IsSameBut s (announce_join nick name a s)
unfolding announce_join
announce_join-IsSameBut nick name a s = record {
  sessions = ground arith;
  nicknames = ground arith;
  stopped = ground arith;
}

pub join_room-IsSameBut :
    (name : Text) (a : Option ℕ) (s : Server) → IsSameBut s (join_room name a s).0
unfolding enter_room
join_room-IsSameBut name a s =
    join_room_cases (λ r. IsSameBut s r.0) name a s
      (record { sessions = refl; nicknames = refl; stopped = refl })
      λ b _ _.
        let old = leave_old_room-IsSameBut name b s in
        let told =
          announce_join-IsSameBut (nickname s.hub b) name b
            (enter_room name b (leave_old_room name b s)) in
        record {
          sessions = ground (arith, old.sessions, told.sessions);
          nicknames = ground (arith, old.nicknames, told.nicknames);
          stopped = ground (arith, old.stopped, told.stopped);
        }
