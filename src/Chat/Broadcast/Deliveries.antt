-- ===== src/Chat/Broadcast/Deliveries.antt =====
-- Who gets a message, and what the history records of it.
use memory_atlas_server.Prelude.{
  ℕ, suc, ◌+◌, ◌≤◌, ◌≡◌, refl, List, [], ◌∷◌, ◌++◌, true, false, not, ◌&&◌, ◌==◌, if◌then◌else◌,
  inl, inr, ◌⊎◌, Option, none, some, is_empty, Text, lookup, member, Above, arith, append_assoc,
}
use memory_atlas_server.History.Writing.{Io}
use memory_atlas_server.History.Store.{
  History, log_global_message, log_private_message, log_room_message,
}
use memory_atlas_server.Chat.State.{
  Server, Room, Post, direct, relayed, deliver, nickname, is_sender,
}
use memory_atlas_server.Chat.Room.{sender_name, format_message}
use memory_atlas_server.Chat.Room.Effects.{others, post_to_others_lem, broadcast_lem}
use memory_atlas_server.Chat.Broadcast.{
  with_history, broadcast_impl, broadcast, broadcast_to_room, find_session_by_nickname,
  send_private_message, on_receiver, private_message, confirmation_message, no_receiver_message,
}

-- How often a session is among the deliveries.
unfoldable pub received : ℕ → List (ℕ × Post) → ℕ
received p [] = 0
received p ((q, task) ∷ ds) = (if q == p then 1 else 0) + received p ds

received-append :
    (p : ℕ) (ds es : List (ℕ × Post)) → received p (ds ++ es) ≡ received p ds + received p es
unfolding received
received-append p [] es = omega arith
received-append p ((q, task) ∷ ds) es = omega (arith, received-append p ds es)

received_below :
    (sender : Option ℕ) (task : Post) (p n : ℕ) (ps : List ℕ)
    → Above n ps
    → suc p ≤ n
    → (received p (others sender task ps) ≡ 0) × (member p ps ≡ false)
unfolding received member
received_below sender task p n [] h k = (refl, refl)
received_below sender task p n (q ∷ ps) h k =
    ground (arith, received_below sender task p (suc q) ps h.1)

-- Each member but the sender gets a broadcast exactly once, and nobody else gets it.
received-others :
    (sender : Option ℕ) (task : Post) (p n : ℕ) (ps : List ℕ)
    → Above n ps
    → received p (others sender task ps)
      ≡ (if member p ps && not (is_sender sender p) then 1 else 0)
unfolding received member
received-others sender task p n [] h = refl
received-others sender task p n (q ∷ ps) h = ground (
  arith,
  received-others sender task p (suc q) ps h.1,
  received_below sender task p (suc q) ps h.1,
)

-- What a call adds to the deliveries and to the history, and that it changes nothing else.
abbrev pub Posts : Server → List (ℕ × Post) → (History → History) → Server → Type 0
Posts s ds f s' = s' ≡ record s {
  hub = record { session_at = s.session_at; posted = s.posted ++ ds };
  history = with_history f s.history;
}

-- A broadcast on a running server whose members are distinct posts a task that delivers the
-- message to the strand of every member but the sender, in the order of the set, to each of them
-- once and to nobody else, logs it once under the sender's nickname or as "system", and changes
-- nothing else.
pub broadcast-Posts :
    (io : Io) (message : Text) (sender : Option ℕ) (s : Server)
    → s.stopped ≡ false
    → Above 0 s.sessions
    → Posts s
        (others sender (relayed message) s.sessions)
        (log_global_message io message (sender_name sender s.hub))
        (broadcast io message sender s)
      × ((p : ℕ)
          → received p (others sender (relayed message) s.sessions)
            ≡ (if member p s.sessions && not (is_sender sender p) then 1 else 0))
unfolding broadcast broadcast_impl
broadcast-Posts io message sender s running distinct = (
  simp running (rw (post_to_others_lem sender (relayed message) s.sessions s.hub) refl),
  λ p. received-others sender (relayed message) p 0 s.sessions distinct,
)

-- A message to a room that exists and has distinct participants, on a running server, is posted,
-- formatted for the room, to each participant but the sender once and to nobody else, is logged in
-- the room's history as it was sent, and changes nothing else.
pub broadcast_to_room-Posts :
    (io : Io) (name message : Text) (sender : Option ℕ) (r : Room) (s : Server)
    → s.stopped ≡ false
    → lookup name s.rooms ≡ some r
    → Above 0 r.participants
    → Posts s
        (others sender (direct (format_message message sender r s.hub)) r.participants)
        (log_room_message io name message (sender_name sender s.hub))
        (broadcast_to_room io name message sender s).0
      × ((broadcast_to_room io name message sender s).1 ≡ true)
      × ((p : ℕ)
          → received p
              (others sender (direct (format_message message sender r s.hub)) r.participants)
            ≡ (if member p r.participants && not (is_sender sender p) then 1 else 0))
unfolding broadcast_to_room
broadcast_to_room-Posts io name message sender r s running found distinct = (
  simp (running, found) (rw (broadcast_lem message sender r s.hub) refl),
  simp (running, found),
  λ p. received-others sender _ p 0 r.participants distinct,
)

-- A private message with a text, on a running server, to the nickname of a live session: that
-- session gets the message and then the sender the confirmation, the conversation is logged, and
-- nothing else changes.
pub send_private_message-Posts :
    (io : Io) (message : Text) (sender receiver : ℕ) (nick : Text) (s : Server)
    → s.stopped ≡ false
    → is_empty nick ≡ false
    → is_empty message ≡ false
    → lookup nick s.nicknames ≡ some receiver
    → (s.session_at receiver).alive ≡ true
    → Posts s
        ((receiver, direct (private_message (nickname s.hub sender) message))
          ∷ (sender, direct (confirmation_message nick message))
          ∷ [])
        (log_private_message io message (nickname s.hub sender) nick)
        (send_private_message io message (some sender) nick s).0
      × ((send_private_message io message (some sender) nick s).1 ≡ true)
unfolding send_private_message on_receiver find_session_by_nickname deliver
send_private_message-Posts io message sender receiver nick s running named said found alive =
    (simp (running, named, said, found, alive, append_assoc), simp (running, named, said))

-- A private message with a text, on a running server, to a nickname that nobody alive has, is
-- answered with true all the same; the sender alone gets an error, and nothing is logged or
-- changed.
pub send_private_message-unreachable :
    (io : Io) (message : Text) (sender : ℕ) (nick : Text) (s : Server)
    → s.stopped ≡ false
    → is_empty nick ≡ false
    → is_empty message ≡ false
    → (lookup nick s.nicknames ≡ none)
      ⊎ ((b : ℕ) × (lookup nick s.nicknames ≡ some b) × ((s.session_at b).alive ≡ false))
    → send_private_message io message (some sender) nick s ≡ (
      record s {
        hub = record {
          session_at = s.session_at;
          posted = s.posted ++ (sender, direct (no_receiver_message nick)) ∷ [];
        };
      },
      true,
    )
unfolding send_private_message on_receiver find_session_by_nickname deliver
send_private_message-unreachable io message sender nick s running named said (inl missing) =
    simp (running, named, said, missing)
send_private_message-unreachable io message sender nick s running named said
      (inr (b, found, gone)) =
    simp (running, named, said, found, gone)
