-- ===== src/Sessions/WebSocket/Requests.antt =====
-- A session's calls are requests of the server, so they keep what the server keeps.
use memory_atlas_server.Prelude.{
  Option-cases, inl, inr, ap, Bool, true, false, ℕ, if_both, Option, none, some, Text, ◌≡◌, refl,
  arith, some-injective, subst,
}
use memory_atlas_server.Chat.Server.{join}
use memory_atlas_server.History.Writing.{Io}
use memory_atlas_server.Chat.State.{Server}
use memory_atlas_server.Chat.Nicknames.{try_register_nickname}
use memory_atlas_server.Chat.Server.Requests.Invariant.{
  join-IsValid, leave-IsValid, IsValid, same-IsValid, broadcast-IsValid, broadcast_to_room-IsValid,
  send_private_message-IsValid, join_room_async-IsValid, leave_room-IsValid, register-IsValid,
}
use memory_atlas_server.Chat.Server.Requests.Histories.{get_user_list-IsValid}
use memory_atlas_server.Sessions.WebSocket.{Call, process_message}
use memory_atlas_server.Sessions.WebSocket
use memory_atlas_server.Sessions.WebSocket.Calls.{
  perform, reply, on_nickname, on_joined, on_left, on_accept, ReadEnd, closed_by_client,
  read_failed, got, on_read, perform_all,
}

reply-IsValid : (a : ℕ) (msg : Text) (s : Server) → IsValid s → IsValid (reply a msg s)
unfolding reply
reply-IsValid a msg s = same-IsValid s _ refl refl refl

on_nickname-IsValid :
    (io : Io) (a : ℕ) (nick : Text) (success : Bool) (s : Server)
    → IsValid s
    → IsValid (on_nickname io a nick success s)
unfolding on_nickname
on_nickname-IsValid io a nick true s v =
    broadcast-IsValid io _ (some a) _ (same-IsValid s _ refl refl refl v)
on_nickname-IsValid io a nick false s v = reply-IsValid a _ s v

registered-IsValid :
    (io : Io) (a : ℕ) (nick : Text) (s s' : Server) (answer : Option (Server × Bool))
    → try_register_nickname nick a s ≡ answer
    → elim answer [ none ↦ none | some r ↦ some (on_nickname io a nick r.1 r.0) ] ≡ some s'
    → IsValid s
    → IsValid s'
registered-IsValid io a nick s s' none f e v = ground arith
registered-IsValid io a nick s s' (some r) f e v =
    subst IsValid (some-injective _ _ e)
      (on_nickname-IsValid io a nick r.1 r.0 (register-IsValid nick a s r.0 r.1 f v))

-- No call of a WebSocket session, with its callback, takes the server out of its invariant.
pub perform-IsValid :
    (io : Io) (a : ℕ) (call : Call) (s s' : Server)
    → perform io a call s ≡ some s'
    → IsValid s
    → IsValid s'
unfolding perform on_joined on_left
perform-IsValid io a (WebSocket.registers nick) s s' e v =
    registered-IsValid io a nick s s' (try_register_nickname nick a s) refl e v
perform-IsValid io a (WebSocket.enters room) s s' e v =
    let v' = join_room_async-IsValid room a s v in
    subst IsValid (some-injective _ _ e)
      (if_both IsValid _ _ _ (reply-IsValid a _ _ v') (reply-IsValid a _ _ v'))
perform-IsValid io a (WebSocket.leaves_room room) s s' e v =
    let v' = leave_room-IsValid room (some a) s v in
    subst IsValid (some-injective _ _ e)
      (if_both IsValid _ _ _ (reply-IsValid a _ _ v') (reply-IsValid a _ _ v'))
perform-IsValid io a WebSocket.lists_users s s' e v =
    subst IsValid (some-injective _ _ e) (reply-IsValid a _ _ (get_user_list-IsValid s v))
perform-IsValid io a (WebSocket.whispers nick message) s s' e v =
    subst IsValid (some-injective _ _ e) (send_private_message-IsValid io message (some a) nick s v)
perform-IsValid io a (WebSocket.says message) s s' e v =
    subst IsValid (some-injective _ _ e) (broadcast-IsValid io message (some a) s v)
perform-IsValid io a (WebSocket.says_in_room room message) s s' e v =
    subst IsValid (some-injective _ _ e) (broadcast_to_room-IsValid io room message (some a) s v)
perform-IsValid io a (WebSocket.replies msg) s s' e v =
    subst IsValid (some-injective _ _ e) (reply-IsValid a msg s v)

pub on_accept-IsValid :
    (io : Io) (failed : Bool) (a : ℕ) (s : Server) → IsValid s → IsValid (on_accept io failed a s).0
unfolding on_accept
on_accept-IsValid io true a s v = v
on_accept-IsValid io false a s v =
    same-IsValid (join io (some a) s) _ refl refl refl (join-IsValid io a s v)

perform_all-IsValid :
    (io : Io) (a : ℕ) (call : Option Call) (s s' : Server) (more : Bool)
    → perform_all io a call s ≡ some (s', more)
    → IsValid s
    → IsValid s'
unfolding perform_all
perform_all-IsValid io a none s s' more e v = subst IsValid (ap (λ r. r.0) (some-injective _ _ e)) v
perform_all-IsValid io a (some call) s s' more e v = elim (Option-cases (perform io a call s)) [
  | inl f ↦ ground arith
  | inr (t, f) ↦ perform-IsValid io a call s s' (ground arith) v
]

-- Whatever a WebSocket session reads, a message with any command or the end of the stream, the
-- call that it makes and its callback take the server out of its invariant in no case: each room
-- stands under its own name and holds between one and a hundred participants, the nicknames are
-- valid and in order, and a session is a member once.
pub on_read-IsValid :
    (io : Io) (end : ReadEnd) (a : ℕ) (s s' : Server) (more : Bool)
    → on_read io end a s ≡ some (s', more)
    → IsValid s
    → IsValid s'
unfolding on_read
on_read-IsValid io closed_by_client a s s' more e v =
    subst IsValid (ap (λ r. r.0) (some-injective _ _ e)) (leave-IsValid io a s v)
on_read-IsValid io read_failed a s s' more e v =
    subst IsValid (ap (λ r. r.0) (some-injective _ _ e)) (leave-IsValid io a s v)
on_read-IsValid io (got text) a s s' more e v =
    perform_all-IsValid io a (process_message text (s.session_at a)) s s' more e v
