-- ===== src/Chat/Server/Requests/Invariant.antt =====
-- What holds after every history of the server.
use memory_atlas_server.Prelude.{
  ℕ, ◌≡◌, refl, subst, sym, Bool, if_both, Option, none, some, Text, text_eq, All, Above, Above-add,
  Above-remove, add, remove, arith,
}
use memory_atlas_server.History.Writing.{Io}
use memory_atlas_server.Chat.State.{Server, current_room, nickname, has_proper_nickname}
use memory_atlas_server.Chat.Broadcast.{
  broadcast_impl, broadcast, broadcast_to_room, send_private_message, on_receiver,
}
use memory_atlas_server.Chat.Nicknames.{unregister_nickname, try_register_nickname}
use memory_atlas_server.Chat.Nicknames.Registry.{
  IsRegistry, try_register_nickname-IsRegistry, try_register_nickname-IsSameBut,
  unregister_nickname-IsRegistry,
}
use memory_atlas_server.Chat.Rooms.{
  join_room, join_room_async, leave_room, leave_room_async, leave_all_rooms_impl,
}
use memory_atlas_server.Chat.Rooms.Invariant.{
  IsSound, AreSound, join_room-AreSound, leave_room-AreSound,
}
use memory_atlas_server.Chat.Server.{join, leave, remove_session}
use memory_atlas_server.Chat.Rooms.Frame.{IsSameBut, leave_room-IsSameBut, join_room-IsSameBut}

pub record IsValid (s : Server) : Type 0 where
  pub rooms : AreSound s
  pub registry : IsRegistry s.nicknames
  pub members : Above 0 s.sessions

-- The three collections are those of another valid server.
pub same-IsValid :
    (s s' : Server)
    → s'.rooms ≡ s.rooms
    → s'.nicknames ≡ s.nicknames
    → s'.sessions ≡ s.sessions
    → IsValid s
    → IsValid s'
same-IsValid s s' r n m v = record {
  rooms = subst (All IsSound) (sym r) v.rooms;
  registry = subst IsRegistry (sym n) v.registry;
  members = subst (Above 0) (sym m) v.members;
}

pub rooms-IsValid : (s s' : Server) → IsSameBut s s' → AreSound s' → IsValid s → IsValid s'
rooms-IsValid s s' b r v = record {
  rooms = r;
  registry = subst IsRegistry (sym b.nicknames) v.registry;
  members = subst (Above 0) (sym b.sessions) v.members;
}

broadcast_impl-IsValid :
    (io : Io) (message : Text) (sender : Option ℕ) (s : Server)
    → IsValid s
    → IsValid (broadcast_impl io message sender s)
unfolding broadcast_impl
broadcast_impl-IsValid io message sender s = same-IsValid s _ refl refl refl

pub broadcast-IsValid :
    (io : Io) (message : Text) (sender : Option ℕ) (s : Server)
    → IsValid s
    → IsValid (broadcast io message sender s)
unfolding broadcast
broadcast-IsValid io message sender s v =
    ground (arith, broadcast_impl-IsValid io message sender s v)

pub broadcast_to_room-IsValid :
    (io : Io) (name message : Text) (sender : Option ℕ) (s : Server)
    → IsValid s
    → IsValid (broadcast_to_room io name message sender s).0
unfolding broadcast_to_room
broadcast_to_room-IsValid io name message sender s =
    same-IsValid s _ (ground arith) (ground arith) (ground arith)

pub send_private_message-IsValid :
    (io : Io) (message : Text) (sender : Option ℕ) (nick : Text) (s : Server)
    → IsValid s
    → IsValid (send_private_message io message sender nick s).0
unfolding send_private_message on_receiver
send_private_message-IsValid io message none nick s v = v
send_private_message-IsValid io message (some a) nick s v =
    same-IsValid s _ (ground arith) (ground arith) (ground arith) v

pub join-IsValid : (io : Io) (a : ℕ) (s : Server) → IsValid s → IsValid (join io (some a) s)
unfolding join
join-IsValid io a s v =
    let v' : IsValid (record s { sessions = add a s.sessions }) = record {
      rooms = v.rooms;
      registry = v.registry;
      members = Above-add 0 a s.sessions (omega arith) v.members;
    } in
    if_both IsValid s.stopped _ _ v (
      if_both IsValid (text_eq (nickname s.hub a) (s.session_at a).remote_id) _ _ v'
        (broadcast_impl-IsValid io _ (some a) _ v'))

pub leave_room-IsValid :
    (name : Text) (a : Option ℕ) (s : Server) → IsValid s → IsValid (leave_room name a s).0
leave_room-IsValid name a s v =
    rooms-IsValid s _ (leave_room-IsSameBut name a s) (leave_room-AreSound name a s v.rooms) v

pub leave_room_async-IsValid :
    (name : Text) (a : ℕ) (s : Server) → IsValid s → IsValid (leave_room_async name (some a) s).0
unfolding leave_room_async
leave_room_async-IsValid name a s v = ground (arith, leave_room-IsValid name (some a) s v)

pub join_room_async-IsValid :
    (name : Text) (a : ℕ) (s : Server) → IsValid s → IsValid (join_room_async name (some a) s).0
unfolding join_room_async
join_room_async-IsValid name a s v =
    let v' : IsValid (join_room name (some a) s).0 =
      rooms-IsValid s _ (join_room-IsSameBut name (some a) s)
        (join_room-AreSound name (some a) s v.rooms) v in
    ground (arith, v')

pub leave_all_rooms_impl-IsValid :
    (a : ℕ) (s : Server) → IsValid s → IsValid (leave_all_rooms_impl a s)
unfolding leave_all_rooms_impl
leave_all_rooms_impl-IsValid a s v =
    ground (arith, leave_room-IsValid (current_room s.hub a) (some a) s v)

pub unregister_nickname-IsValid :
    (nick : Text) (s : Server) → IsValid s → IsValid (unregister_nickname nick s)
unfolding unregister_nickname
unregister_nickname-IsValid nick s v =
    ground (arith, unregister_nickname-IsRegistry nick s v.registry)

pub remove_session-IsValid :
    (io : Io) (a : ℕ) (nick : Text) (proper : Bool) (s : Server)
    → IsValid s
    → IsValid (remove_session io a nick proper s)
unfolding remove_session broadcast_impl
remove_session-IsValid io a nick proper s v =
    same-IsValid (record s { sessions = remove a s.sessions }) _ (ground arith) (ground arith)
      (ground arith)
      (record {
        rooms = v.rooms;
        registry = v.registry;
        members = Above-remove 0 a s.sessions v.members;
      })

pub leave-IsValid : (io : Io) (a : ℕ) (s : Server) → IsValid s → IsValid (leave io (some a) s)
unfolding leave
leave-IsValid io a s v =
    let v' = leave_all_rooms_impl-IsValid a s v in
    if_both IsValid s.stopped _ _ v (
      remove_session-IsValid io a _ _ _ (
        if_both IsValid (has_proper_nickname (s.session_at a)) _ _
          (unregister_nickname-IsValid _ _ v') v'))

pub register-IsValid :
    (nick : Text) (a : ℕ) (s s' : Server) (answer : Bool)
    → try_register_nickname nick a s ≡ some (s', answer)
    → IsValid s
    → IsValid s'
register-IsValid nick a s s' answer e v =
    let same = try_register_nickname-IsSameBut nick a s s' answer e in
    record {
      rooms = subst (All IsSound) (sym same.0) v.rooms;
      registry = try_register_nickname-IsRegistry nick a s s' answer v.registry e;
      members = subst (Above 0) (sym same.1) v.members;
    }
