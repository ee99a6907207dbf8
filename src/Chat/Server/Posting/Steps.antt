-- ===== src/Chat/Server/Posting/Steps.antt =====
-- What a request adds to the messages posted to the sessions.
use memory_atlas_server.Prelude.{
  ◌≡◌, subst, Bool, if_both, arith, some-injective, Option-cases, inl, inr, some,
}
use memory_atlas_server.History.Writing.{Io}
use memory_atlas_server.Chat.State.{Server, set_nickname}
use memory_atlas_server.Chat.Nicknames.{try_register_nickname}
use memory_atlas_server.Chat.Server.{stop, reset_history, close_sessions, set_history_enabled}
use memory_atlas_server.Chat.Server.Requests.{
  Request, joins, leaves, asks_nickname, stores_nickname, lists_users, enters, leaves_room,
  leaves_directly, says, says_in_room, whispers, expires, stops, resets_history, closes_sessions,
  enables_history, expire,
}
use memory_atlas_server.Chat.Server.Requests
use memory_atlas_server.Chat.Server.Posting.{
  Extends, Extends-refl, leave_room-Extends, leave_room_async-Extends, join_room_async-Extends,
  broadcast-Extends, broadcast_to_room-Extends, send_private_message-Extends, join-Extends,
  leave-Extends, get_user_list-Extends, register-Extends,
}

stepped :
    (s s' r : Server) → some r ≡ some s' → Extends s.posted r.posted → Extends s.posted s'.posted
stepped s s' r e x = subst (λ (t : Server). Extends s.posted t.posted) (some-injective _ _ e) x

-- A request that does not fault.
pub step-Extends :
    (io : Io) (request : Request) (s s' : Server)
    → Requests.step io request s ≡ some s'
    → Extends s.posted s'.posted
unfolding Requests.step stop reset_history close_sessions set_history_enabled expire set_nickname
step-Extends io (joins a) s s' e = stepped s s' _ e (join-Extends io a s)
step-Extends io (leaves a) s s' e = stepped s s' _ e (leave-Extends io a s)
step-Extends io (asks_nickname nick a) s s' e =
    elim (Option-cases (try_register_nickname nick a s)) [
      | inl fault ↦ ground arith
      | inr (r, found) ↦ stepped s s' r.0 (ground arith) (register-Extends nick a s r.0 r.1 found)
    ]
step-Extends io (stores_nickname nick a) s s' e = stepped s s' _ e (Extends-refl s.posted)
step-Extends io lists_users s s' e = stepped s s' _ e (get_user_list-Extends s)
step-Extends io (enters name a) s s' e = stepped s s' _ e (join_room_async-Extends name a s)
step-Extends io (leaves_room name a) s s' e = stepped s s' _ e (leave_room_async-Extends name a s)
step-Extends io (leaves_directly name a) s s' e =
    stepped s s' _ e (leave_room-Extends name (some a) s)
step-Extends io (says message sender) s s' e =
    stepped s s' _ e (broadcast-Extends io message sender s)
step-Extends io (says_in_room name message sender) s s' e =
    stepped s s' _ e (broadcast_to_room-Extends io name message sender s)
step-Extends io (whispers message a nick) s s' e =
    stepped s s' _ e (send_private_message-Extends io message a nick s)
step-Extends io (expires a) s s' e = stepped s s' _ e (Extends-refl s.posted)
step-Extends io stops s s' e = stepped s s' _ e (
    if_both (λ (r : Server × Bool). Extends s.posted r.0.posted) s.stopped _ _
      (Extends-refl s.posted) (Extends-refl s.posted))
step-Extends io resets_history s s' e = stepped s s' _ e (Extends-refl s.posted)
step-Extends io closes_sessions s s' e = stepped s s' _ e (Extends-refl s.posted)
step-Extends io (enables_history enable) s s' e = stepped s s' _ e (Extends-refl s.posted)
