-- ===== src/Chat/Rooms/Membership.antt =====
-- Who is in which room after a session has joined or left one.
use memory_atlas_server.Prelude.{
  ℕ, ◌≡◌, ◌≢◌, ◌↔◌, refl, sym, ◌∙◌, subst, [], true, false, ◌==◌, if◌then◌else◌, none, some, Text,
  text_eq, text_eq_iff, text_eq_refl, lookup, member, add, member-add, member-remove, arith,
}
use memory_atlas_server.Chat.State.{Server, Room, deliver, nickname, current_room}
use memory_atlas_server.Chat.Room
use memory_atlas_server.Chat.Room.Effects.{current_room-set_current_room}
use memory_atlas_server.Chat.Rooms.{
  remove_from_room, leave_old_room, find_or_create, enter_room, join_room, leave_room,
}
use memory_atlas_server.Chat.Rooms.Cases.{left, joined, leave_old_room_cases}
use memory_atlas_server.Chat.Rooms.Effects.{
  without, with_participant, lookup-remove_from_room, current_room-remove_from_room,
  lookup-enter_room, current_room-enter_room, announce_join-rooms, announce_join-session_at,
}
use memory_atlas_server.Chat.Rooms.Placement.{IsIn, IsPlaced, join_room-IsPlaced}

-- The old room is another one: the room to join is as it was.
lookup-leave_old_room :
    (name : Text) (a : ℕ) (s : Server)
    → lookup name (leave_old_room name a s).rooms ≡ lookup name s.rooms
lookup-leave_old_room name a s =
    leave_old_room_cases (λ s'. lookup name s'.rooms ≡ lookup name s.rooms) name a s (λ _. refl)
      λ r found other. ground (arith, lookup-remove_from_room (current_room s.hub a) r a s name)

find_or_create-leave_old_room :
    (name : Text) (a : ℕ) (s : Server)
    → find_or_create name (leave_old_room name a s).rooms ≡ find_or_create name s.rooms
find_or_create-leave_old_room name a s = rw (lookup-leave_old_room name a s, find_or_create) refl

module _ (name : Text) (a : ℕ) (s : Server) (running : s.stopped ≡ false) where
  join_room_running : join_room name (some a) s ≡ (joined name a s, true)
  unfolding join_room
  join_room_running = simp running

  -- The room after the call.
  lookup-joined :
      lookup name (joined name a s).rooms ≡ some (with_participant a (find_or_create name s.rooms))
  lookup-joined =
      rw
        (announce_join-rooms name a (enter_room name a (leave_old_room name a s))
          (nickname s.hub a))
        (ground (
          arith,
          lookup-enter_room name a (leave_old_room name a s) name,
          text_eq_refl name,
          find_or_create-leave_old_room name a s,
        ))

  current_room-joined : current_room (joined name a s).hub a ≡ name
  current_room-joined = ground (
    arith,
    announce_join-session_at name a (enter_room name a (leave_old_room name a s))
        (nickname s.hub a),
    current_room-enter_room name a (leave_old_room name a s) a,
  )

  -- On a running server whose participants stand where their sessions say, a session that joins a
  -- room with a proper name and a free place is told so, has that room as its current one, and
  -- stands in exactly that room.
  pub join_room_enters :
      name ≢ []
      → IsPlaced s
      → Room.is_full (find_or_create name s.rooms) ≡ false
      → let (s', answer) = join_room name (some a) s in
        (answer ≡ true) × (current_room s'.hub a ≡ name) × ((k : Text) → IsIn a k s' ↔ (k ≡ name))
  join_room_enters proper v free =
      let v' : IsPlaced (joined name a s) =
        subst (λ r. IsPlaced r.0) join_room_running (join_room-IsPlaced name (some a) s proper v) in
      rw join_room_running (
        refl,
        current_room-joined,
        λ k. (
          λ i. sym (v'.placed a k i) ∙ current_room-joined,
          λ e.
              subst (λ k. IsIn a k (joined name a s)) (sym e)
                (
                  record (find_or_create name s.rooms) {
                    participants = add a (find_or_create name s.rooms).participants;
                  },
                  ground (arith, lookup-joined),
                  ground (arith, member-add a a (find_or_create name s.rooms).participants),
                ),
        ),
      )

  -- On a running server, a session that joins a full room which it is not in is told that it
  -- succeeded and has that room as its current one, and yet is not among the participants, who
  -- stay as they were.
  pub join_room_full :
      (r : Room)
      → lookup name s.rooms ≡ some r
      → Room.is_full r ≡ true
      → member a r.participants ≡ false
      → let (s', answer) = join_room name (some a) s in
        (answer ≡ true)
        × (current_room s'.hub a ≡ name)
        × (lookup name s'.rooms ≡ some r)
        × (¬ IsIn a name s')
  join_room_full r found full outside =
      let kept : lookup name (joined name a s).rooms ≡ some r =
        lookup-joined ∙ rw (found, find_or_create) (ground arith) in
      rw join_room_running (refl, current_room-joined, kept, λ (q, e, m). ground arith)

module _ (name : Text) (r : Room) (a : ℕ) (s : Server) (running : s.stopped ≡ false)
    (found : lookup name s.rooms ≡ some r) where
  leave_room_running : leave_room name (some a) s ≡ (left name r a s, true)
  unfolding leave_room
  leave_room_running = simp (running, found)

  current_room-left :
      (b : ℕ) → current_room (left name r a s).hub b ≡ (if a == b then [] else current_room s.hub b)
  unfolding deliver
  current_room-left b = ground (
    arith,
    current_room-set_current_room a b [] (remove_from_room name r a s).hub,
    current_room-remove_from_room name r a s b,
  )

  -- On a running server, leaving a room that exists succeeds, takes the session out of it, drops
  -- the room where nobody is left, changes no other room, and clears the session's current room
  -- and no other session's.
  pub leave_room_exits :
      let (s', answer) = leave_room name (some a) s in
      (answer ≡ true)
      × (¬ IsIn a name s')
      × ((k : Text)
          → lookup k s'.rooms ≡ (if text_eq name k then without a r else lookup k s.rooms))
      × ((b : ℕ) → current_room s'.hub b ≡ (if a == b then [] else current_room s.hub b))
  leave_room_exits = rw leave_room_running (
    refl,
    λ (q, e, m). ground (
      arith,
      lookup-remove_from_room name r a s name,
      text_eq_refl name,
      member-remove a a r.participants,
    ),
    λ k. ground (arith, lookup-remove_from_room name r a s k, text_eq_iff name k),
    λ b. current_room-left b,
  )

  -- On a running server, a session that leaves a room which exists while it is in another one is
  -- told that it succeeded and loses its current room, and stays among the participants of the
  -- other room.
  pub leave_room_elsewhere :
      (k : Text)
      → k ≢ name
      → IsIn a k s
      → let (s', answer) = leave_room name (some a) s in
        (answer ≡ true) × (current_room s'.hub a ≡ []) × IsIn a k s'
  leave_room_elsewhere k other (q, e, m) = rw leave_room_running (
    refl,
    ground (arith, current_room-left a),
    (q, ground (arith, lookup-remove_from_room name r a s k, text_eq_iff name k), m),
  )

pub leave_room_missing :
    (name : Text) (a : ℕ) (s : Server)
    → lookup name s.rooms ≡ none
    → leave_room name (some a) s ≡ (s, false)
unfolding leave_room
leave_room_missing name a s missing = ground arith
