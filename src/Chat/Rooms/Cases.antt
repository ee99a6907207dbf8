-- ===== src/Chat/Rooms/Cases.antt =====
-- Case rules for the operations on rooms: what a predicate must satisfy to hold of the result.
use memory_atlas_server.Prelude.{
  ℕ, ◌≡◌, refl, [], Bool, true, false, Bool-cases, Option-cases, inl, inr, Option, none, some,
  is_empty, Text, text_eq, lookup, ◌⊎◌, text_eq_iff, eq_nil_of_is_empty,
}
use memory_atlas_server.Chat.State.{Server, Room, deliver, set_current_room, current_room}
use memory_atlas_server.Chat.Rooms.{
  remove_from_room, leave_old_room, enter_room, announce_join, join_room, leave_room,
  left_room_message,
}
use memory_atlas_server.Chat.State.{nickname}

-- The state after a successful `leave_room`.
abbrev pub left : Text → Room → ℕ → Server → Server
left name r a s =
    let s' = remove_from_room name r a s in
    record s' { hub = deliver a (left_room_message name) (set_current_room a [] s'.hub) }

-- The state after a successful `join_room`.
abbrev pub joined : Text → ℕ → Server → Server
joined name a s =
    announce_join (nickname s.hub a) name a (enter_room name a (leave_old_room name a s))

-- Why there is no old room to leave.
abbrev pub Stays : Text → ℕ → Server → Type 0
Stays name a s =
    (current_room s.hub a ≡ [])
    ⊎ (current_room s.hub a ≡ name)
    ⊎ (lookup (current_room s.hub a) s.rooms ≡ none)

module _ {ℓ} (P : Server → Type ℓ) (name : Text) (a : ℕ) (s : Server) where
  pub leave_old_room_cases :
      (Stays name a s → P s)
      → ((r : Room)
          → lookup (current_room s.hub a) s.rooms ≡ some r
          → text_eq (current_room s.hub a) name ≡ false
          → P (remove_from_room (current_room s.hub a) r a s))
      → P (leave_old_room name a s)
  unfolding leave_old_room
  leave_old_room_cases same found = elim (Bool-cases (is_empty (current_room s.hub a))) [
    | inl e ↦ simp e (same (inl (eq_nil_of_is_empty _ e)))
    | inr e ↦ elim (Bool-cases (text_eq (current_room s.hub a) name)) [
      | inl here ↦ simp (e, here) (same (inr (inl ((text_eq_iff _ _).0 here))))
      | inr other ↦ elim (Option-cases (lookup (current_room s.hub a) s.rooms)) [
        | inl m ↦ simp (e, other, m) (same (inr (inr m)))
        | inr (r, m) ↦ simp (e, other, m) (found r m other)
      ]
    ]
  ]

module _ {ℓ} (P : Server × Bool → Type ℓ) (name : Text) where
  pub join_room_cases :
      (a : Option ℕ) (s : Server)
      → P (s, false)
      → ((b : ℕ) → a ≡ some b → s.stopped ≡ false → P (joined name b s, true))
      → P (join_room name a s)
  unfolding join_room
  join_room_cases none s refused run = refused
  join_room_cases (some b) s refused run = elim (Bool-cases s.stopped) [
    | inl e ↦ simp e refused
    | inr e ↦ simp e (run b refl e)
  ]

  pub leave_room_cases :
      (a : Option ℕ) (s : Server)
      → P (s, false)
      → ((b : ℕ) (r : Room)
          → a ≡ some b
          → s.stopped ≡ false
          → lookup name s.rooms ≡ some r
          → P (left name r b s, true))
      → P (leave_room name a s)
  unfolding leave_room
  leave_room_cases none s refused run = refused
  leave_room_cases (some b) s refused run = elim (Bool-cases s.stopped) [
    | inl e ↦ simp e refused
    | inr e ↦ elim (Option-cases (lookup name s.rooms)) [
      | inl m ↦ simp (e, m) refused
      | inr (r, m) ↦ simp (e, m) (run b r refl e m)
    ]
  ]
