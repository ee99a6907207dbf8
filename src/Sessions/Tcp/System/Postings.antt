-- ===== src/Sessions/Tcp/System/Postings.antt =====
-- What the actions of a TCP session add to the messages posted to the sessions.
use memory_atlas_server.Prelude.{
  ℕ, List, [], ◌∷◌, Bool, true, false, if◌then◌else◌, if_both, Option-cases, inl, inr, some, Text,
  ◌≡◌, arith, some-injective, subst,
}
use memory_atlas_server.History.Writing.{Io}
use memory_atlas_server.Chat.State.{Server, set_nickname}
use memory_atlas_server.Chat.Nicknames.{try_register_nickname}
use memory_atlas_server.Chat.Server.Posting.{
  Extends, Extends-refl, Extends-trans, deliver-Extends, broadcast-Extends,
  broadcast_to_room-Extends, join_room_async-Extends, leave_room_async-Extends,
  get_user_list-Extends, register-Extends, join-Extends, leave-Extends,
}
use memory_atlas_server.Sessions.Tcp.{
  Action, registers, enters, leaves_room, lists_users, quits, says, says_in_room, replies,
}
use memory_atlas_server.Sessions.Tcp.Calls.{
  deliver_all, on_nickname, on_joined, on_left, on_users, perform, start,
}

deliver_all-Extends :
    (a : ℕ) (msgs : List Text) (s : Server) → Extends s.posted (deliver_all a msgs s).posted
unfolding deliver_all
deliver_all-Extends a [] s = Extends-refl s.posted
deliver_all-Extends a (msg ∷ msgs) s =
    Extends-trans s.posted _ _ (deliver-Extends a msg s.hub) (deliver_all-Extends a msgs _)

on_nickname-Extends :
    (io : Io) (stopped : Bool) (a : ℕ) (nick : Text) (success : Bool) (s : Server)
    → Extends s.posted (on_nickname io stopped a nick success s).posted
unfolding on_nickname set_nickname
on_nickname-Extends io true a nick success s = Extends-refl s.posted
on_nickname-Extends io false a nick true s =
    Extends-trans s.posted _ _ (broadcast-Extends io _ (some a) _) (deliver_all-Extends a _ _)
on_nickname-Extends io false a nick false s = deliver_all-Extends a _ s

-- A callback that is given what a call left, and adds nothing or answers.
answered-Extends :
    (a : ℕ) (stopped success : Bool) (msgs : List Text) (s s' : Server)
    → Extends s.posted s'.posted
    → Extends s.posted
        (if stopped then s' else if success then s' else deliver_all a msgs s').posted
answered-Extends a stopped success msgs s s' x =
    let P : Server → Type 0 = λ t. Extends s.posted t.posted in
    if_both P stopped _ _ x
      (if_both P success _ _ x (Extends-trans s.posted _ _ x (deliver_all-Extends a msgs s')))

performed :
    (s s' r : Server) → some r ≡ some s' → Extends s.posted r.posted → Extends s.posted s'.posted
performed s s' r e x = subst (λ (t : Server). Extends s.posted t.posted) (some-injective _ _ e) x

-- An action that does not fault.
pub perform-Extends :
    (io : Io) (stopped : Bool) (a : ℕ) (action : Action) (s s' : Server)
    → perform io stopped a action s ≡ some s'
    → Extends s.posted s'.posted
unfolding perform on_joined on_left on_users
perform-Extends io stopped a (registers nick) s s' e =
    elim (Option-cases (try_register_nickname nick a s)) [
      | inl fault ↦ ground arith
      | inr (r, found) ↦ performed s s' (on_nickname io stopped a nick r.1 r.0) (ground arith) (
          Extends-trans s.posted _ _ (register-Extends nick a s r.0 r.1 found)
            (on_nickname-Extends io stopped a nick r.1 r.0))
    ]
perform-Extends io stopped a (enters room) s s' e =
    performed s s' _ e (answered-Extends a stopped _ _ s _ (join_room_async-Extends room a s))
perform-Extends io stopped a (leaves_room room) s s' e =
    performed s s' _ e (answered-Extends a stopped _ _ s _ (leave_room_async-Extends room a s))
perform-Extends io stopped a lists_users s s' e =
    performed s s' _ e (answered-Extends a stopped false _ s _ (get_user_list-Extends s))
perform-Extends io stopped a quits s s' e = performed s s' _ e (leave-Extends io a s)
perform-Extends io stopped a (says message) s s' e =
    performed s s' _ e (broadcast-Extends io message (some a) s)
perform-Extends io stopped a (says_in_room room message) s s' e =
    performed s s' _ e (broadcast_to_room-Extends io room message (some a) s)
perform-Extends io stopped a (replies msg) s s' e = performed s s' _ e (deliver_all-Extends a _ s)

pub start-Extends :
    (io : Io) (stopped : Bool) (a : ℕ) (s : Server) → Extends s.posted (start io stopped a s).posted
unfolding start
start-Extends io true a s = Extends-refl s.posted
start-Extends io false a s =
    Extends-trans s.posted _ _ (join-Extends io a s) (deliver_all-Extends a _ _)
