-- ===== src/Chat/Server/Departure.antt =====
-- What a session that leaves the server takes with it.
use memory_atlas_server.Prelude.{
  ℕ, ◌≡◌, ◌≢◌, true, false, not, ◌&&◌, ◌==◌, if◌then◌else◌, Bool-cases, Option-cases, inl, inr,
  none, some, is_empty, eq_nil_of_is_empty, ◌⊎◌, Text, text_eq, text_eq_iff, text_eq_refl, lookup,
  lookup-erase, member, remove, member-remove, arith,
}
use memory_atlas_server.History.Writing.{Io}
use memory_atlas_server.Chat.State.{Server, Room, nickname, current_room, has_proper_nickname}
use memory_atlas_server.Chat.Broadcast.{broadcast_impl, find_session_by_nickname}
use memory_atlas_server.Chat.Nicknames.{unregister_nickname}
use memory_atlas_server.Chat.Rooms.{leave_room, leave_all_rooms_impl}
use memory_atlas_server.Chat.Rooms.Frame.{leave_all_rooms_impl-IsSameBut}
use memory_atlas_server.Chat.Rooms.Membership.{leave_room_exits, leave_room_missing}
use memory_atlas_server.Chat.Rooms.Placement.{IsIn, IsPlaced}
use memory_atlas_server.Chat.Server.{leave, remove_session}

module _ (io : Io) (a : ℕ) (s : Server) (running : s.stopped ≡ false) where
  -- The state behind the guard and the rooms.
  abbrev unregistered : Server
  unregistered =
      if has_proper_nickname (s.session_at a)
      then unregister_nickname (nickname s.hub a) (leave_all_rooms_impl a s)
      else leave_all_rooms_impl a s

  leave_running :
      leave io (some a) s
      ≡ remove_session io a (nickname s.hub a) (has_proper_nickname (s.session_at a)) unregistered
  unfolding leave
  leave_running = simp running

  unregistered-sessions : unregistered.sessions ≡ s.sessions
  unfolding unregister_nickname
  unregistered-sessions = ground (arith, (leave_all_rooms_impl-IsSameBut a s).sessions)

  leave-sessions : (leave io (some a) s).sessions ≡ remove a s.sessions
  unfolding remove_session broadcast_impl
  leave-sessions = rw leave_running (ground (arith, unregistered-sessions))

  leave-nicknames : (leave io (some a) s).nicknames ≡ unregistered.nicknames
  unfolding remove_session broadcast_impl
  leave-nicknames = rw leave_running (ground arith)

  leave-rooms : (leave io (some a) s).rooms ≡ (leave_all_rooms_impl a s).rooms
  unfolding remove_session broadcast_impl unregister_nickname
  leave-rooms = rw leave_running (ground arith)

  -- The nicknames after a departure: the session's own is gone, whoever the registry gave it to,
  -- and every other is as before.
  leave-lookup :
      (j : Text)
      → lookup j (leave io (some a) s).nicknames ≡ (
          if has_proper_nickname (s.session_at a) && text_eq (nickname s.hub a) j
          then none
          else lookup j s.nicknames)
  unfolding unregister_nickname has_proper_nickname
  leave-lookup j = rw leave-nicknames (
      ground (
        arith,
        (leave_all_rooms_impl-IsSameBut a s).nicknames,
        lookup-erase (nickname s.hub a) j s.nicknames,
      ))

leave_all_rooms_impl-nowhere :
    (a : ℕ) (s : Server)
    → s.stopped ≡ false
    → IsPlaced s
    → (k : Text) → ¬ IsIn a k (leave_all_rooms_impl a s)
unfolding leave_all_rooms_impl
leave_all_rooms_impl-nowhere a s running v k = elim (Bool-cases (is_empty (current_room s.hub a))) [
  | inl nowhere ↦
      rw (nowhere, leave_all_rooms_impl)
        (λ (r, e, m).
          ground
            (arith, v.placed a k (r, e, m), eq_nil_of_is_empty (current_room s.hub a), v.unnamed))
  | inr somewhere ↦
      rw (somewhere, leave_all_rooms_impl) (from_room (Option-cases (lookup room s.rooms)))
]
  where
    room : Text
    room = current_room s.hub a

    gone : (r : Room) → lookup room s.rooms ≡ some r → ¬ IsIn a k (leave_room room (some a) s).0
    gone r found =
        let (_, out, same, _) = leave_room_exits room r a s running found in
        λ (q, e, m). elim (Bool-cases (text_eq room k)) [
          | inl here ↦ out (q, ground (arith, text_eq_iff room k), m)
          | inr other ↦ ground (
            arith,
            text_eq_iff room k,
            v.placed a k (q, ground (arith, same k, text_eq_iff room k), m),
          )
        ]

    from_room :
        (lookup room s.rooms ≡ none) ⊎ ((r : Room) × (lookup room s.rooms ≡ some r))
        → ¬ IsIn a k (leave_room room (some a) s).0
    from_room (inr (r, found)) = gone r found
    from_room (inl missing) =
        rw (leave_room_missing room a s missing)
          (λ (r, e, m). ground (arith, v.placed a k (r, e, m)))

-- On a running server whose participants stand where their sessions say, a session that leaves is
-- no member any more, and every other session is one exactly if it was; its own nickname is free,
-- and every other is as before; and it stands in no room.
pub leave_clears :
    (io : Io) (a : ℕ) (s : Server)
    → s.stopped ≡ false
    → IsPlaced s
    → let s' = leave io (some a) s in
      ((b : ℕ) → member b s'.sessions ≡ (not (a == b) && member b s.sessions))
      × ((j : Text)
          → lookup j s'.nicknames ≡ (
              if has_proper_nickname (s.session_at a) && text_eq (nickname s.hub a) j
              then none
              else lookup j s.nicknames))
      × ((k : Text) → ¬ IsIn a k s')
leave_clears io a s running v = (
  λ b. rw (leave-sessions io a s running) (member-remove a b s.sessions),
  leave-lookup io a s running,
  λ k (r, e, m).
      leave_all_rooms_impl-nowhere a s running v k (r, rw (leave-rooms io a s running) at e, m),
)

-- On a running server, the departure of a session frees the nickname that it shows also where the
-- registry has given that nickname to another session: that one stays a member and cannot be found
-- by it any more.
pub leave_frees_foreign_nickname :
    (io : Io) (a b : ℕ) (s : Server)
    → s.stopped ≡ false
    → has_proper_nickname (s.session_at a) ≡ true
    → lookup (nickname s.hub a) s.nicknames ≡ some b
    → b ≢ a
    → let s' = leave io (some a) s in
      (find_session_by_nickname (nickname s.hub a) s' ≡ none)
      × (member b s'.sessions ≡ member b s.sessions)
unfolding find_session_by_nickname
leave_frees_foreign_nickname io a b s running proper owned other = (
  ground (arith, leave-lookup io a s running (nickname s.hub a), text_eq_refl (nickname s.hub a)),
  rw (leave-sessions io a s running) (ground (arith, member-remove a b s.sessions)),
)
