-- ===== src/Chat/Server/Requests/Placement.antt =====
-- Each request leaves the participants where their sessions say.
use memory_atlas_server.Prelude.{
  ℕ, ◌≡◌, refl, subst, Bool, true, false, Option, none, some, some-injective, Text, arith,
}
use memory_atlas_server.History.Writing.{Io}
use memory_atlas_server.Chat.State.{Server, set_nickname}
use memory_atlas_server.Chat.Nicknames.{try_register_nickname}
use memory_atlas_server.Chat.Rooms.Placement.{IsPlaced}
use memory_atlas_server.Chat.Server.{reset_history, set_history_enabled}
use memory_atlas_server.Chat.Server.Requests.{
  Request, joins, leaves, asks_nickname, stores_nickname, lists_users, enters, leaves_room,
  leaves_directly, says, says_in_room, whispers, expires, stops, resets_history, closes_sessions,
  enables_history, step, expire,
}
use memory_atlas_server.Chat.Server.Placement.{
  same-IsPlaced, broadcast_to_room-IsPlaced, send_private_message-IsPlaced, join-IsPlaced,
  leave-IsPlaced, join_room_async-IsPlaced, leave_room_async-IsPlaced, register-IsPlaced,
  get_user_list-IsPlaced, broadcast-IsPlaced, stop-IsPlaced, close_sessions-IsPlaced,
}

asked-IsPlaced :
    (nick : Text) (a : ℕ) (s s' : Server) (answer : Option (Server × Bool))
    → try_register_nickname nick a s ≡ answer
    → elim answer [ none ↦ none | some r ↦ some r.0 ] ≡ some s'
    → IsPlaced s
    → IsPlaced s'
asked-IsPlaced nick a s s' none f e v = ground arith
asked-IsPlaced nick a s s' (some r) f e v =
    subst IsPlaced (some-injective _ _ e) (register-IsPlaced nick a s r.0 r.1 f v)

-- Any request but the call of `leave_room` without the check of `leave_room_async`.
abbrev pub is_checked : Request → Bool
is_checked (leaves_directly name a) = false
is_checked _ = true

pub step-IsPlaced :
    (io : Io) (request : Request) (s s' : Server)
    → is_checked request ≡ true
    → step io request s ≡ some s'
    → IsPlaced s
    → IsPlaced s'
unfolding step expire set_nickname reset_history set_history_enabled
step-IsPlaced io (joins a) s s' h e v =
    subst IsPlaced (some-injective _ _ e) (join-IsPlaced io a s v)
step-IsPlaced io (leaves a) s s' h e v =
    subst IsPlaced (some-injective _ _ e) (leave-IsPlaced io a s v)
step-IsPlaced io (asks_nickname nick a) s s' h e v =
    asked-IsPlaced nick a s s' (try_register_nickname nick a s) refl e v
step-IsPlaced io (stores_nickname nick a) s s' h e v =
    subst IsPlaced (some-injective _ _ e) (same-IsPlaced s _ refl (λ p. ground arith) v)
step-IsPlaced io lists_users s s' h e v =
    subst IsPlaced (some-injective _ _ e) (get_user_list-IsPlaced s v)
step-IsPlaced io (enters name a) s s' h e v =
    subst IsPlaced (some-injective _ _ e) (join_room_async-IsPlaced name a s v)
step-IsPlaced io (leaves_room name a) s s' h e v =
    subst IsPlaced (some-injective _ _ e) (leave_room_async-IsPlaced name a s v)
step-IsPlaced io (leaves_directly name a) s s' h e v = ground arith
step-IsPlaced io (says message sender) s s' h e v =
    subst IsPlaced (some-injective _ _ e) (broadcast-IsPlaced io message sender s v)
step-IsPlaced io (says_in_room name message sender) s s' h e v =
    subst IsPlaced (some-injective _ _ e) (broadcast_to_room-IsPlaced io name message sender s v)
step-IsPlaced io (whispers message sender nick) s s' h e v =
    subst IsPlaced (some-injective _ _ e) (send_private_message-IsPlaced io message sender nick s v)
step-IsPlaced io (expires a) s s' h e v =
    subst IsPlaced (some-injective _ _ e) (same-IsPlaced s _ refl (λ p. ground arith) v)
step-IsPlaced io stops s s' h e v = subst IsPlaced (some-injective _ _ e) (stop-IsPlaced s v)
step-IsPlaced io resets_history s s' h e v =
    subst IsPlaced (some-injective _ _ e) (same-IsPlaced s _ refl (λ p. refl) v)
step-IsPlaced io closes_sessions s s' h e v =
    subst IsPlaced (some-injective _ _ e) (close_sessions-IsPlaced s)
step-IsPlaced io (enables_history enable) s s' h e v =
    subst IsPlaced (some-injective _ _ e) (same-IsPlaced s _ refl (λ p. refl) v)
