-- ===== src/Sessions/WebSocket/System/Postings.antt =====
-- What the calls of a WebSocket session add to the messages posted to the sessions.
use memory_atlas_server.Prelude.{
  ℕ, List, [], ◌∷◌, Bool, true, false, Option, Option-cases, inl, inr, none, some, Text, ◌≡◌, ap,
  arith, some-injective, subst,
}
use memory_atlas_server.History.Writing.{Io}
use memory_atlas_server.Chat.State.{Server, Hub, set_nickname}
use memory_atlas_server.Chat.Nicknames.{try_register_nickname}
use memory_atlas_server.Chat.Server.Posting.{
  Extends, Extends-refl, Extends-trans, deliver-Extends, broadcast-Extends,
  broadcast_to_room-Extends, send_private_message-Extends, join_room_async-Extends,
  leave_room-Extends, get_user_list-Extends, register-Extends, join-Extends, leave-Extends,
}
use memory_atlas_server.Sessions.WebSocket.{
  process_message, Call, registers, enters, leaves_room, lists_users, whispers, says, says_in_room,
  replies,
}
use memory_atlas_server.Sessions.WebSocket.Calls.{
  reply, on_nickname, on_joined, on_left, perform, welcome, deliver_all, on_accept, ReadEnd,
  closed_by_client, read_failed, got, perform_all, on_read,
}

reply-Extends : (a : ℕ) (msg : Text) (s : Server) → Extends s.posted (reply a msg s).posted
unfolding reply
reply-Extends a msg s = deliver-Extends a msg s.hub

-- A call, and then an answer.
replied-Extends :
    (a : ℕ) (msg : Text) (s s' : Server)
    → Extends s.posted s'.posted
    → Extends s.posted (reply a msg s').posted
replied-Extends a msg s s' x = Extends-trans s.posted s'.posted _ x (reply-Extends a msg s')

on_nickname-Extends :
    (io : Io) (a : ℕ) (nick : Text) (success : Bool) (s : Server)
    → Extends s.posted (on_nickname io a nick success s).posted
unfolding on_nickname set_nickname
on_nickname-Extends io a nick true s =
    Extends-trans s.posted _ _ (deliver-Extends a _ _) (broadcast-Extends io _ (some a) _)
on_nickname-Extends io a nick false s = reply-Extends a _ s

joined-Extends :
    (a : ℕ) (room : Text) (success : Bool) (s s' : Server)
    → Extends s.posted s'.posted
    → Extends s.posted (on_joined a room success s').posted
unfolding on_joined
joined-Extends a room true s s' x = replied-Extends a _ s s' x
joined-Extends a room false s s' x = replied-Extends a _ s s' x

left-Extends :
    (a : ℕ) (room : Text) (success : Bool) (s s' : Server)
    → Extends s.posted s'.posted
    → Extends s.posted (on_left a room success s').posted
unfolding on_left
left-Extends a room true s s' x = replied-Extends a _ s s' x
left-Extends a room false s s' x = replied-Extends a _ s s' x

performed :
    (s s' r : Server) → some r ≡ some s' → Extends s.posted r.posted → Extends s.posted s'.posted
performed s s' r e x = subst (λ (t : Server). Extends s.posted t.posted) (some-injective _ _ e) x

perform-Extends :
    (io : Io) (a : ℕ) (call : Call) (s s' : Server)
    → perform io a call s ≡ some s'
    → Extends s.posted s'.posted
unfolding perform
perform-Extends io a (registers nick) s s' e =
    elim (Option-cases (try_register_nickname nick a s)) [
      | inl fault ↦ ground arith
      | inr (r, found) ↦ performed s s' (on_nickname io a nick r.1 r.0) (ground arith) (
          Extends-trans s.posted _ _ (register-Extends nick a s r.0 r.1 found)
            (on_nickname-Extends io a nick r.1 r.0))
    ]
perform-Extends io a (enters room) s s' e =
    performed s s' _ e (joined-Extends a room _ s _ (join_room_async-Extends room a s))
perform-Extends io a (leaves_room room) s s' e =
    performed s s' _ e (left-Extends a room _ s _ (leave_room-Extends room (some a) s))
perform-Extends io a lists_users s s' e =
    performed s s' _ e (replied-Extends a _ s _ (get_user_list-Extends s))
perform-Extends io a (whispers nick message) s s' e =
    performed s s' _ e (send_private_message-Extends io message a nick s)
perform-Extends io a (says message) s s' e =
    performed s s' _ e (broadcast-Extends io message (some a) s)
perform-Extends io a (says_in_room room message) s s' e =
    performed s s' _ e (broadcast_to_room-Extends io room message (some a) s)
perform-Extends io a (replies msg) s s' e = performed s s' _ e (reply-Extends a msg s)

deliver_all-Extends :
    (a : ℕ) (msgs : List Text) (hub : Hub) → Extends hub.posted (deliver_all a msgs hub).posted
unfolding deliver_all
deliver_all-Extends a [] hub = Extends-refl hub.posted
deliver_all-Extends a (msg ∷ msgs) hub =
    Extends-trans hub.posted _ _ (deliver-Extends a msg hub) (deliver_all-Extends a msgs _)

pub on_accept-Extends :
    (io : Io) (failed : Bool) (a : ℕ) (s : Server)
    → Extends s.posted (on_accept io failed a s).0.posted
unfolding on_accept
on_accept-Extends io true a s = Extends-refl s.posted
on_accept-Extends io false a s =
    Extends-trans s.posted _ _ (join-Extends io a s) (deliver_all-Extends a welcome _)

perform_all-Extends :
    (io : Io) (a : ℕ) (call : Option Call) (s : Server) (r : Server × Bool)
    → perform_all io a call s ≡ some r
    → Extends s.posted r.0.posted
unfolding perform_all
perform_all-Extends io a none s r e =
    performed s r.0 s (ap (λ o. elim o [ none ↦ none | some x ↦ some x.0 ]) e)
      (Extends-refl s.posted)
perform_all-Extends io a (some call) s r e = elim (Option-cases (perform io a call s)) [
  | inl fault ↦ ground arith
  | inr (t, done) ↦ performed s r.0 t (ground arith) (perform-Extends io a call s t done)
]

pub on_read-Extends :
    (io : Io) (end : ReadEnd) (a : ℕ) (s : Server) (r : Server × Bool)
    → on_read io end a s ≡ some r
    → Extends s.posted r.0.posted
unfolding on_read
on_read-Extends io closed_by_client a s r e =
    performed s r.0 _ (ap (λ o. elim o [ none ↦ none | some x ↦ some x.0 ]) e)
      (leave-Extends io a s)
on_read-Extends io read_failed a s r e =
    performed s r.0 _ (ap (λ o. elim o [ none ↦ none | some x ↦ some x.0 ]) e)
      (leave-Extends io a s)
on_read-Extends io (got text) a s r e =
    perform_all-Extends io a (process_message text (s.session_at a)) s r e
