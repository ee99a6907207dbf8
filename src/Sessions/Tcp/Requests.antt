-- ===== src/Sessions/Tcp/Requests.antt =====
-- A TCP session's actions keep what the server keeps.
use memory_atlas_server.Prelude.{
  ℕ, List, [], ◌∷◌, Bool, true, false, if_both, Option, none, some, Text, ◌≡◌, refl, arith,
  some-injective, subst,
}
use memory_atlas_server.History.Writing.{Io}
use memory_atlas_server.Chat.State.{Server}
use memory_atlas_server.Chat.Nicknames.{try_register_nickname}
use memory_atlas_server.Chat.Server.Requests.Invariant.{
  IsValid, same-IsValid, broadcast-IsValid, broadcast_to_room-IsValid, join_room_async-IsValid,
  leave_room_async-IsValid, register-IsValid, join-IsValid, leave-IsValid,
}
use memory_atlas_server.Chat.Server.Requests.Histories.{get_user_list-IsValid}
use memory_atlas_server.Sessions.Tcp.{Action}
use memory_atlas_server.Sessions.Tcp
use memory_atlas_server.Sessions.Tcp.Calls.{
  deliver_all, on_nickname, on_joined, on_left, on_users, perform, start,
}

deliver_all-IsValid :
    (a : ℕ) (msgs : List Text) (s : Server) → IsValid s → IsValid (deliver_all a msgs s)
unfolding deliver_all
deliver_all-IsValid a [] s v = v
deliver_all-IsValid a (msg ∷ msgs) s v =
    deliver_all-IsValid a msgs _ (same-IsValid s _ refl refl refl v)

on_nickname-IsValid :
    (io : Io) (stopped : Bool) (a : ℕ) (nick : Text) (success : Bool) (s : Server)
    → IsValid s
    → IsValid (on_nickname io stopped a nick success s)
unfolding on_nickname
on_nickname-IsValid io true a nick success s v = v
on_nickname-IsValid io false a nick true s v =
    deliver_all-IsValid a _ _
      (broadcast-IsValid io _ (some a) _ (same-IsValid s _ refl refl refl v))
on_nickname-IsValid io false a nick false s v = deliver_all-IsValid a _ s v

registered-IsValid :
    (io : Io) (stopped : Bool) (a : ℕ) (nick : Text) (s s' : Server)
    (answer : Option (Server × Bool))
    → try_register_nickname nick a s ≡ answer
    → elim answer [ none ↦ none | some r ↦ some (on_nickname io stopped a nick r.1 r.0) ] ≡ some s'
    → IsValid s
    → IsValid s'
registered-IsValid io stopped a nick s s' none f e v = ground arith
registered-IsValid io stopped a nick s s' (some r) f e v =
    subst IsValid (some-injective _ _ e)
      (on_nickname-IsValid io stopped a nick r.1 r.0 (register-IsValid nick a s r.0 r.1 f v))

-- No action of a TCP session, with its callback, takes the server out of its invariant: each room
-- stands under its own name and holds between one and a hundred participants, each once; the
-- nicknames are valid and in order; and a session is a member once.
pub perform-IsValid :
    (io : Io) (stopped : Bool) (a : ℕ) (action : Action) (s s' : Server)
    → perform io stopped a action s ≡ some s'
    → IsValid s
    → IsValid s'
unfolding perform on_joined on_left on_users
perform-IsValid io stopped a (Tcp.registers nick) s s' e v =
    registered-IsValid io stopped a nick s s' (try_register_nickname nick a s) refl e v
perform-IsValid io stopped a (Tcp.enters room) s s' e v =
    let v' = join_room_async-IsValid room a s v in
    subst IsValid (some-injective _ _ e)
      (if_both IsValid _ _ _ v' (if_both IsValid _ _ _ v' (deliver_all-IsValid a _ _ v')))
perform-IsValid io stopped a (Tcp.leaves_room room) s s' e v =
    let v' = leave_room_async-IsValid room a s v in
    subst IsValid (some-injective _ _ e)
      (if_both IsValid _ _ _ v' (if_both IsValid _ _ _ v' (deliver_all-IsValid a _ _ v')))
perform-IsValid io stopped a Tcp.lists_users s s' e v =
    let v' = get_user_list-IsValid s v in
    subst IsValid (some-injective _ _ e) (if_both IsValid _ _ _ v' (deliver_all-IsValid a _ _ v'))
perform-IsValid io stopped a Tcp.quits s s' e v =
    subst IsValid (some-injective _ _ e) (leave-IsValid io a s v)
perform-IsValid io stopped a (Tcp.says message) s s' e v =
    subst IsValid (some-injective _ _ e) (broadcast-IsValid io message (some a) s v)
perform-IsValid io stopped a (Tcp.says_in_room room message) s s' e v =
    subst IsValid (some-injective _ _ e) (broadcast_to_room-IsValid io room message (some a) s v)
perform-IsValid io stopped a (Tcp.replies msg) s s' e v =
    subst IsValid (some-injective _ _ e) (deliver_all-IsValid a _ s v)

pub start-IsValid :
    (io : Io) (stopped : Bool) (a : ℕ) (s : Server) → IsValid s → IsValid (start io stopped a s)
unfolding start
start-IsValid io true a s v = v
start-IsValid io false a s v = deliver_all-IsValid a _ _ (join-IsValid io a s v)
