-- ===== src/Chat/Room/Effects.antt =====
-- What a room's operations change and what they leave.
use memory_atlas_server.Prelude.{
  ℕ, ◌≡◌, refl, ◌∙◌, List, [], ◌∷◌, ◌++◌, append_assoc, append-nil, ◌&&◌, ◌==◌, if◌then◌else◌,
  Bool-cases, inl, inr, Option, none, Text, arith, member, add, remove, remove_of_not_member,
}
use memory_atlas_server.Chat.State.{
  Room, Hub, Post, direct, post, deliver, set_current_room, nickname, current_room, post_to_others,
  is_sender,
}
use memory_atlas_server.Chat.Room.{broadcast, format_message, is_full, join, leave}

-- The posts of a broadcast: one to each member but the sender, in the order of the set.
abbrev pub others : Option ℕ → Post → List ℕ → List (ℕ × Post)
others sender task [] = []
others sender task (p ∷ ps) =
    let rest = others sender task ps in if is_sender sender p then rest else (p, task) ∷ rest

pub post_to_others_lem :
    (sender : Option ℕ) (task : Post) (ps : List ℕ) (hub : Hub)
    → post_to_others sender task ps hub
      ≡ record hub { posted = hub.posted ++ others sender task ps }
unfolding post_to_others
post_to_others_lem sender task [] hub = ground (arith, append-nil hub.posted)
post_to_others_lem sender task (p ∷ ps) hub =
    post_to_others_lem sender task ps (if is_sender sender p then hub else post p task hub)
    ∙ ground (arith, append_assoc hub.posted ((p, task) ∷ []) (others sender task ps))

pub session_at-post_to_others :
    (sender : Option ℕ) (task : Post) (ps : List ℕ) (hub : Hub)
    → (post_to_others sender task ps hub).session_at ≡ hub.session_at
session_at-post_to_others sender task ps hub = rw (post_to_others_lem sender task ps hub)

pub session_at-broadcast :
    (message : Text) (sender : Option ℕ) (r : Room) (hub : Hub)
    → (broadcast message sender r hub).session_at ≡ hub.session_at
unfolding broadcast
session_at-broadcast message sender r hub = session_at-post_to_others sender _ r.participants hub

-- A broadcast posts the formatted message once to each participant but the sender, in the order
-- of the set, behind what was posted before, and changes no session.
pub broadcast_lem :
    (message : Text) (sender : Option ℕ) (r : Room) (hub : Hub)
    → broadcast message sender r hub ≡ record hub {
      posted =
          hub.posted ++ others sender (direct (format_message message sender r hub)) r.participants;
    }
unfolding broadcast
broadcast_lem message sender r hub =
    post_to_others_lem sender (direct (format_message message sender r hub)) r.participants hub

pub current_room-set_current_room :
    (a b : ℕ) (room : Text) (hub : Hub)
    → current_room (set_current_room a room hub) b ≡ (if a == b then room else current_room hub b)
unfolding set_current_room
current_room-set_current_room a b room hub = ground arith

pub nickname-set_current_room :
    (a b : ℕ) (room : Text) (hub : Hub) → nickname (set_current_room a room hub) b ≡ nickname hub b
unfolding set_current_room
nickname-set_current_room a b room hub = ground arith

-- Whether the session was let in, and the participants after that.
pub join-room :
    (a : ℕ) (r : Room) (hub : Hub)
    → (join a r hub).0 ≡ (if is_full r then r else record r { participants = add a r.participants })
unfolding join
join-room a r hub = ground arith

pub join-current_room :
    (a b : ℕ) (r : Room) (hub : Hub)
    → current_room (join a r hub).1 b
      ≡ (if is_full r then current_room hub b else (if a == b then r.name else current_room hub b))
unfolding join deliver
join-current_room a b r hub = elim (Bool-cases (is_full r)) [
  | inl full ↦ rw full refl
  | inr room ↦ rw room (
      rw (session_at-broadcast _ none _ (set_current_room a r.name hub))
        (current_room-set_current_room a b r.name hub))
]

pub leave-room :
    (a : ℕ) (r : Room) (hub : Hub)
    → (leave a r hub).0 ≡ record r { participants = remove a r.participants }
unfolding leave
leave-room a r hub = ground (arith, remove_of_not_member a r.participants)

pub leave-current_room :
    (a b : ℕ) (r : Room) (hub : Hub)
    → current_room (leave a r hub).1 b
      ≡ (if a == b && member a r.participants then [] else current_room hub b)
unfolding leave
leave-current_room a b r hub = elim (Bool-cases (member a r.participants)) [
  | inl was ↦ rw was (
      rw (session_at-broadcast _ none _ (set_current_room a [] hub))
        (ground (arith, current_room-set_current_room a b [] hub)))
  | inr not_in ↦ rw not_in (ground arith)
]
