-- ===== src/Chat/Server/Placement.antt =====
-- Every operation of the server keeps the participants where their sessions say.
use memory_atlas_server.Prelude.{
  ℕ, ◌≡◌, refl, sym, ap, ◌∙◌, [], ◌∷◌, Bool, if_both, Option-cases, inl, inr, Option, none, some,
  is_empty, Text, text_eq, text_eq_iff, lookup, arith, add, remove,
}
use memory_atlas_server.History.Writing.{Io}
use memory_atlas_server.History.Store.{History}
use memory_atlas_server.Chat.State.{
  Server, Session, relayed, current_room, nickname, has_proper_nickname, deliver,
}
use memory_atlas_server.Chat.Room.Effects.{session_at-post_to_others, session_at-broadcast}
use memory_atlas_server.Chat.Broadcast.{
  broadcast_impl, broadcast, broadcast_to_room, send_private_message, on_receiver,
}
use memory_atlas_server.Chat.Nicknames.{unregister_nickname, try_register_nickname, get_user_list}
use memory_atlas_server.Chat.Nicknames.Registry.{try_register_nickname-IsSameBut}
use memory_atlas_server.Chat.Rooms.{join_room_async, leave_room_async, leave_all_rooms_impl}
use memory_atlas_server.Chat.Rooms.Placement.{IsPlaced, join_room-IsPlaced, leave_room-IsPlaced}
use memory_atlas_server.Chat.Server.{create, join, leave, remove_session, stop, close_sessions}

pub same-IsPlaced :
    (s s' : Server)
    → s'.rooms ≡ s.rooms
    → ((p : ℕ) → current_room s'.hub p ≡ current_room s.hub p)
    → IsPlaced s
    → IsPlaced s'
same-IsPlaced s s' r c v = record {
  placed = λ p k (q, e, m). c p ∙ v.placed p k (q, ap (lookup k) (sym r) ∙ e, m);
  unnamed = ap (lookup []) r ∙ v.unnamed;
}

pub broadcast_impl-IsPlaced :
    (io : Io) (message : Text) (sender : Option ℕ) (s : Server)
    → IsPlaced s
    → IsPlaced (broadcast_impl io message sender s)
unfolding broadcast_impl
broadcast_impl-IsPlaced io message sender s = same-IsPlaced s _ refl (λ p.
    ap (λ f. (f p).current_room)
      (session_at-post_to_others sender (relayed message) s.sessions s.hub))

pub broadcast_to_room-IsPlaced :
    (io : Io) (name message : Text) (sender : Option ℕ) (s : Server)
    → IsPlaced s
    → IsPlaced (broadcast_to_room io name message sender s).0
unfolding broadcast_to_room
broadcast_to_room-IsPlaced io name message sender s v = elim (Option-cases (lookup name s.rooms)) [
  | inl f ↦
      rw (f, broadcast_to_room) (if_both (λ (r : Server × Bool). IsPlaced r.0) s.stopped _ _ v v)
  | inr (r, f) ↦
      rw (f, broadcast_to_room)
        (if_both (λ (r : Server × Bool). IsPlaced r.0) s.stopped _ _ v
          (same-IsPlaced s _ refl
            (λ p. ap (λ f. (f p).current_room) (session_at-broadcast message sender r s.hub)) v))
]

pub send_private_message-IsPlaced :
    (io : Io) (message : Text) (sender : ℕ) (nick : Text) (s : Server)
    → IsPlaced s
    → IsPlaced (send_private_message io message (some sender) nick s).0
unfolding send_private_message on_receiver deliver
send_private_message-IsPlaced io message a nick s =
    same-IsPlaced s _ (ground arith) (λ p. ground arith)

pub join-IsPlaced : (io : Io) (a : ℕ) (s : Server) → IsPlaced s → IsPlaced (join io (some a) s)
unfolding join
join-IsPlaced io a s v =
    let v' : IsPlaced (record s { sessions = add a s.sessions }) =
      same-IsPlaced s _ refl (λ p. refl) v in
    if_both IsPlaced s.stopped _ _ v (
      if_both IsPlaced (text_eq (nickname s.hub a) (s.session_at a).remote_id) _ _ v'
        (broadcast_impl-IsPlaced io _ (some a) _ v'))

pub leave_all_rooms_impl-IsPlaced :
    (a : ℕ) (s : Server) → IsPlaced s → IsPlaced (leave_all_rooms_impl a s)
unfolding leave_all_rooms_impl
leave_all_rooms_impl-IsPlaced a s v =
    ground (arith, leave_room-IsPlaced (current_room s.hub a) a s refl v)

pub unregister_nickname-IsPlaced :
    (nick : Text) (s : Server) → IsPlaced s → IsPlaced (unregister_nickname nick s)
unfolding unregister_nickname
unregister_nickname-IsPlaced nick s v =
    if_both IsPlaced (is_empty nick) _ _ v (same-IsPlaced s _ refl (λ p. refl) v)

pub remove_session-IsPlaced :
    (io : Io) (a : ℕ) (nick : Text) (proper : Bool) (s : Server)
    → IsPlaced s
    → IsPlaced (remove_session io a nick proper s)
unfolding remove_session
remove_session-IsPlaced io a nick proper s v =
    let v' : IsPlaced (record s { sessions = remove a s.sessions }) =
      same-IsPlaced s _ refl (λ p. refl) v in
    if_both IsPlaced _ _ _ (broadcast_impl-IsPlaced io _ none _ v') v'

pub leave-IsPlaced : (io : Io) (a : ℕ) (s : Server) → IsPlaced s → IsPlaced (leave io (some a) s)
unfolding leave
leave-IsPlaced io a s v =
    let v' = leave_all_rooms_impl-IsPlaced a s v in
    if_both IsPlaced s.stopped _ _ v (
      remove_session-IsPlaced io a _ _ _ (
        if_both IsPlaced (has_proper_nickname (s.session_at a)) _ _
          (unregister_nickname-IsPlaced _ _ v') v'))

pub join_room_async-IsPlaced :
    (name : Text) (a : ℕ) (s : Server) → IsPlaced s → IsPlaced (join_room_async name (some a) s).0
unfolding join_room_async
join_room_async-IsPlaced [] a s v = ground arith
join_room_async-IsPlaced (c ∷ name) a s v =
    if_both (λ (r : Server × Bool). IsPlaced r.0) _ _ _ v
      (join_room-IsPlaced (c ∷ name) (some a) s (λ e. cc) v)

pub leave_room_async-IsPlaced :
    (name : Text) (a : ℕ) (s : Server) → IsPlaced s → IsPlaced (leave_room_async name (some a) s).0
unfolding leave_room_async
leave_room_async-IsPlaced name a s v =
    ground (arith, text_eq_iff (current_room s.hub a) name, leave_room-IsPlaced name a s)

pub register-IsPlaced :
    (nick : Text) (a : ℕ) (s s' : Server) (answer : Bool)
    → try_register_nickname nick a s ≡ some (s', answer)
    → IsPlaced s
    → IsPlaced s'
register-IsPlaced nick a s s' answer e =
    let (rooms, _, _, hub) = try_register_nickname-IsSameBut nick a s s' answer e in
    same-IsPlaced s s' rooms (λ p. ap (λ h. current_room h p) hub)

pub get_user_list-IsPlaced : (s : Server) → IsPlaced s → IsPlaced (get_user_list s).0
unfolding get_user_list
get_user_list-IsPlaced s = same-IsPlaced s _ (ground arith) (λ p. ground arith)

pub broadcast-IsPlaced :
    (io : Io) (message : Text) (sender : Option ℕ) (s : Server)
    → IsPlaced s
    → IsPlaced (broadcast io message sender s)
unfolding broadcast
broadcast-IsPlaced io message sender s v =
    if_both IsPlaced s.stopped _ _ v (broadcast_impl-IsPlaced io message sender s v)

pub stop-IsPlaced : (s : Server) → IsPlaced s → IsPlaced (stop s).0
unfolding stop
stop-IsPlaced s = same-IsPlaced s _ (ground arith) (λ p. ground arith)

pub no_rooms-IsPlaced : (s : Server) → s.rooms ≡ [] → IsPlaced s
unfolding lookup
no_rooms-IsPlaced s e = record { placed = λ p k (r, f, m). ground arith; unnamed = ground arith }

pub close_sessions-IsPlaced : (s : Server) → IsPlaced (close_sessions s).0
unfolding close_sessions
close_sessions-IsPlaced s = no_rooms-IsPlaced _ refl

pub create-IsPlaced :
    (history : History) (session_at : ℕ → Session) → IsPlaced (create history session_at)
unfolding create
create-IsPlaced history session_at = no_rooms-IsPlaced _ refl
