-- ===== src/Chat/Server/Posting.antt =====
-- What the server has posted to the sessions is only ever added to.
pub mod Steps
use memory_atlas_server.Prelude.{
  ℕ, ◌≡◌, refl, ap, ◌∙◌, sym, subst, List, [], ◌++◌, append-nil, append_assoc, Bool, not, if_both,
  arith, some-injective, Option-cases, inl, inr, Option, none, some, is_empty, Text, text_eq,
  lookup, member,
}
use memory_atlas_server.History.Writing.{Io}
use memory_atlas_server.Chat.State.{
  Server, Hub, Room, Post, relayed, deliver, set_current_room, set_nickname, nickname, current_room,
  has_proper_nickname,
}
use memory_atlas_server.Chat.Room
use memory_atlas_server.Chat.Room.Effects.{post_to_others_lem, broadcast_lem}
use memory_atlas_server.Chat.Broadcast.{
  broadcast_impl, broadcast, broadcast_to_room, send_private_message, on_receiver,
  find_session_by_nickname,
}
use memory_atlas_server.Chat.Nicknames.{try_register_nickname, unregister_nickname, get_user_list}
use memory_atlas_server.Chat.Nicknames.Registry.{try_register_nickname-IsSameBut}
use memory_atlas_server.Chat.Rooms.{
  remove_from_room, find_or_create, leave_old_room, enter_room, announce_join, join_room,
  join_room_async, leave_room, leave_room_async, leave_all_rooms_impl, left_room_message,
}
use memory_atlas_server.Chat.Rooms.Cases.{leave_old_room_cases, join_room_cases, leave_room_cases}
use memory_atlas_server.Chat.Server.{
  join, leave, remove_session, stop, reset_history, close_sessions, set_history_enabled,
}
use memory_atlas_server.Chat.Server.Requests.{
  Request, joins, leaves, asks_nickname, stores_nickname, lists_users, enters, leaves_room,
  leaves_directly, says, says_in_room, whispers, expires, stops, resets_history, closes_sessions,
  enables_history, expire,
}
use memory_atlas_server.Chat.Server.Requests

-- The second list is the first and then some more.
abbrev pub Extends : List (ℕ × Post) → List (ℕ × Post) → Type 0
Extends l l' = (ds : List (ℕ × Post)) × (l' ≡ l ++ ds)

pub Extends-refl : (l : List (ℕ × Post)) → Extends l l
Extends-refl l = ([], sym (append-nil l))

pub Extends-trans : (l l' l'' : List (ℕ × Post)) → Extends l l' → Extends l' l'' → Extends l l''
Extends-trans l l' l'' (ds, e) (es, f) = (ds ++ es, f ∙ ap (λ k. k ++ es) e ∙ append_assoc l ds es)

pub deliver-Extends :
    (a : ℕ) (msg : Text) (hub : Hub) → Extends hub.posted (deliver a msg hub).posted
unfolding deliver
deliver-Extends a msg hub = (_, refl)

pub room_broadcast-Extends :
    (message : Text) (sender : Option ℕ) (r : Room) (hub : Hub)
    → Extends hub.posted (Room.broadcast message sender r hub).posted
room_broadcast-Extends message sender r hub =
    (_, ap (λ h. h.posted) (broadcast_lem message sender r hub))

room_join-Extends : (a : ℕ) (r : Room) (hub : Hub) → Extends hub.posted (Room.join a r hub).1.posted
unfolding Room.join set_current_room
room_join-Extends a r hub =
    if_both (λ (x : Room × Hub). Extends hub.posted x.1.posted) (Room.is_full r) _ _
      (deliver-Extends a _ hub) (room_broadcast-Extends _ none _ (set_current_room a r.name hub))

room_leave-Extends :
    (a : ℕ) (r : Room) (hub : Hub) → Extends hub.posted (Room.leave a r hub).1.posted
unfolding Room.leave set_current_room
room_leave-Extends a r hub =
    if_both (λ (x : Room × Hub). Extends hub.posted x.1.posted) (not (member a r.participants)) _ _
      (Extends-refl hub.posted) (room_broadcast-Extends _ none _ (set_current_room a [] hub))

remove_from_room-Extends :
    (name : Text) (r : Room) (a : ℕ) (s : Server)
    → Extends s.posted (remove_from_room name r a s).posted
unfolding remove_from_room
remove_from_room-Extends name r a s =
    Extends-trans s.posted _ _ (room_broadcast-Extends _ (some a) r s.hub)
      (room_leave-Extends a r _)

pub leave_room-Extends :
    (name : Text) (a : Option ℕ) (s : Server) → Extends s.posted (leave_room name a s).0.posted
unfolding set_current_room
leave_room-Extends name a s =
    leave_room_cases (λ (r : Server × Bool). Extends s.posted r.0.posted) name a s
      (Extends-refl s.posted)
      λ b r _ _ _.
        let s' = remove_from_room name r b s in
        Extends-trans s.posted s'.posted _ (remove_from_room-Extends name r b s)
          (deliver-Extends b (left_room_message name) (set_current_room b [] s'.hub))

pub leave_room_async-Extends :
    (name : Text) (a : ℕ) (s : Server)
    → Extends s.posted (leave_room_async name (some a) s).0.posted
unfolding leave_room_async
leave_room_async-Extends name a s =
    if_both (λ (r : Server × Bool). Extends s.posted r.0.posted) _ _ _ (Extends-refl s.posted)
      (leave_room-Extends name (some a) s)

leave_old_room-Extends :
    (name : Text) (a : ℕ) (s : Server) → Extends s.posted (leave_old_room name a s).posted
leave_old_room-Extends name a s =
    leave_old_room_cases (λ (s' : Server). Extends s.posted s'.posted) name a s
      (λ _. Extends-refl s.posted) λ r _ _. remove_from_room-Extends (current_room s.hub a) r a s

enter_room-Extends :
    (name : Text) (a : ℕ) (s : Server) → Extends s.posted (enter_room name a s).posted
unfolding enter_room set_current_room
enter_room-Extends name a s = room_join-Extends a (find_or_create name s.rooms) s.hub

announce_join-Extends :
    (nick name : Text) (a : ℕ) (s : Server) → Extends s.posted (announce_join nick name a s).posted
unfolding announce_join
announce_join-Extends nick name a s = elim (Option-cases (lookup name s.rooms)) [
  | inl missing ↦ rw (missing, announce_join) (Extends-refl s.posted)
  | inr (r, found) ↦
      rw (found, announce_join)
        (Extends-trans s.posted _ _ (deliver-Extends a _ s.hub)
          (room_broadcast-Extends _ (some a) r _))
]

pub join_room-Extends :
    (name : Text) (a : Option ℕ) (s : Server) → Extends s.posted (join_room name a s).0.posted
join_room-Extends name a s =
    join_room_cases (λ (r : Server × Bool). Extends s.posted r.0.posted) name a s
      (Extends-refl s.posted)
      λ b _ _.
        let s' = leave_old_room name b s in
        Extends-trans s.posted s'.posted _ (leave_old_room-Extends name b s) (
          Extends-trans s'.posted _ _ (enter_room-Extends name b s')
            (announce_join-Extends (nickname s.hub b) name b (enter_room name b s')))

pub join_room_async-Extends :
    (name : Text) (a : ℕ) (s : Server) → Extends s.posted (join_room_async name (some a) s).0.posted
unfolding join_room_async
join_room_async-Extends name a s =
    if_both (λ (r : Server × Bool). Extends s.posted r.0.posted) _ _ _ (Extends-refl s.posted)
      (join_room-Extends name (some a) s)

broadcast_impl-Extends :
    (io : Io) (message : Text) (sender : Option ℕ) (s : Server)
    → Extends s.posted (broadcast_impl io message sender s).posted
unfolding broadcast_impl
broadcast_impl-Extends io message sender s =
    (_, ap (λ h. h.posted) (post_to_others_lem sender (relayed message) s.sessions s.hub))

pub broadcast-Extends :
    (io : Io) (message : Text) (sender : Option ℕ) (s : Server)
    → Extends s.posted (broadcast io message sender s).posted
unfolding broadcast
broadcast-Extends io message sender s =
    if_both (λ (s' : Server). Extends s.posted s'.posted) _ _ _ (Extends-refl s.posted)
      (broadcast_impl-Extends io message sender s)

pub broadcast_to_room-Extends :
    (io : Io) (name message : Text) (sender : Option ℕ) (s : Server)
    → Extends s.posted (broadcast_to_room io name message sender s).0.posted
unfolding broadcast_to_room
broadcast_to_room-Extends io name message sender s =
    if_both (λ (r : Server × Bool). Extends s.posted r.0.posted) s.stopped _ _
      (Extends-refl s.posted)
      (elim (Option-cases (lookup name s.rooms)) [
        | inl missing ↦ rw missing (Extends-refl s.posted)
        | inr (r, found) ↦ rw found (room_broadcast-Extends message sender r s.hub)
      ])

on_receiver-Extends :
    (io : Io) (message : Text) (a : ℕ) (sender_nick nick : Text) (receiver : Option ℕ) (s : Server)
    → Extends s.posted (on_receiver io message a sender_nick nick receiver s).posted
unfolding on_receiver
on_receiver-Extends io message a sender_nick nick none s =
    if_both (λ (s' : Server). Extends s.posted s'.posted) s.stopped _ _ (Extends-refl s.posted)
      (deliver-Extends a _ s.hub)
on_receiver-Extends io message a sender_nick nick (some b) s =
    if_both (λ (s' : Server). Extends s.posted s'.posted) s.stopped _ _ (Extends-refl s.posted)
      (Extends-trans s.posted _ _ (deliver-Extends b _ s.hub) (deliver-Extends a _ _))

pub send_private_message-Extends :
    (io : Io) (message : Text) (a : ℕ) (nick : Text) (s : Server)
    → Extends s.posted (send_private_message io message (some a) nick s).0.posted
unfolding send_private_message
send_private_message-Extends io message a nick s =
    if_both (λ (r : Server × Bool). Extends s.posted r.0.posted) _ _ _ (Extends-refl s.posted)
      (on_receiver-Extends io message a (nickname s.hub a) nick (find_session_by_nickname nick s) s)

pub join-Extends : (io : Io) (a : ℕ) (s : Server) → Extends s.posted (join io (some a) s).posted
unfolding join
join-Extends io a s =
    let P : Server → Type 0 = λ s'. Extends s.posted s'.posted in
    if_both P s.stopped _ _ (Extends-refl s.posted) (
      if_both P (text_eq (nickname s.hub a) (s.session_at a).remote_id) _ _ (Extends-refl s.posted)
        (broadcast_impl-Extends io _ (some a) _))

leave_all_rooms_impl-Extends :
    (a : ℕ) (s : Server) → Extends s.posted (leave_all_rooms_impl a s).posted
unfolding leave_all_rooms_impl
leave_all_rooms_impl-Extends a s =
    if_both (λ (s' : Server). Extends s.posted s'.posted) _ _ _ (Extends-refl s.posted)
      (leave_room-Extends (current_room s.hub a) (some a) s)

remove_session-Extends :
    (io : Io) (a : ℕ) (nick : Text) (proper : Bool) (s : Server)
    → Extends s.posted (remove_session io a nick proper s).posted
unfolding remove_session
remove_session-Extends io a nick proper s =
    if_both (λ (s' : Server). Extends s.posted s'.posted) _ _ _ (broadcast_impl-Extends io _ none _)
      (Extends-refl s.posted)

pub leave-Extends : (io : Io) (a : ℕ) (s : Server) → Extends s.posted (leave io (some a) s).posted
unfolding leave unregister_nickname
leave-Extends io a s =
    let P : Server → Type 0 = λ s'. Extends s.posted s'.posted in
    let all = leave_all_rooms_impl-Extends a s in
    if_both P s.stopped _ _ (Extends-refl s.posted) (
      Extends-trans s.posted _ _
        (if_both P (has_proper_nickname (s.session_at a)) _ _
          (if_both P (is_empty (s.session_at a).nickname) _ _ all all) all)
        (remove_session-Extends io a _ _ _))

pub get_user_list-Extends : (s : Server) → Extends s.posted (get_user_list s).0.posted
unfolding get_user_list
get_user_list-Extends s =
    if_both (λ (r : Server × List Text). Extends s.posted r.0.posted) s.stopped _ _
      (Extends-refl s.posted) (Extends-refl s.posted)

pub register-Extends :
    (nick : Text) (a : ℕ) (s s' : Server) (answer : Bool)
    → try_register_nickname nick a s ≡ some (s', answer)
    → Extends s.posted s'.posted
register-Extends nick a s s' answer e =
    let same = try_register_nickname-IsSameBut nick a s s' answer e in
    subst (λ (h : Hub). Extends s.posted h.posted) (sym same.3) (Extends-refl s.posted)
