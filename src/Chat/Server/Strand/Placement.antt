-- ===== src/Chat/Server/Strand/Placement.antt =====
-- Where the participants stand while tasks wait on the strand of the server.
use memory_atlas_server.Prelude.{
  ℕ, ◌≡◌, refl, ap, subst, All, All-append, is_empty, List, [], ◌∷◌, ◌++◌, Bool, true, false, ◌&&◌,
  if_both, Option, none, some, Text, text_eq, text_eq_iff, arith,
}
use memory_atlas_server.History.Writing.{Io}
use memory_atlas_server.History.Store.{History}
use memory_atlas_server.Chat.State.{Server, Session, current_room, deliver}
use memory_atlas_server.Chat.Broadcast.{on_receiver}
use memory_atlas_server.Chat.Nicknames.{try_register_nickname_impl}
use memory_atlas_server.Chat.Nicknames.Registry.{KeepsRest, impl-KeepsRest}
use memory_atlas_server.Chat.Rooms.Placement.{IsPlaced, join_room-IsPlaced, leave_room-IsPlaced}
use memory_atlas_server.Chat.Server.Placement.{
  same-IsPlaced, broadcast-IsPlaced, join-IsPlaced, leave_all_rooms_impl-IsPlaced,
  unregister_nickname-IsPlaced, remove_session-IsPlaced, close_sessions-IsPlaced, create-IsPlaced,
}
use memory_atlas_server.Chat.Server.Requests.{
  Request, joins, leaves, asks_nickname, stores_nickname, lists_users, enters, leaves_room,
  leaves_directly, says, says_in_room, whispers, expires, stops, resets_history, closes_sessions,
  enables_history,
}
use memory_atlas_server.Chat.Server.Requests
use memory_atlas_server.Chat.Server.Requests.Placement.{is_checked, step-IsPlaced}
use memory_atlas_server.Chat.Server.Strand.{
  Task, adds, removes, registers, scans, moves_in, moves_out, sends, finds, clears, Handler, Strand,
  Event, at_once, calls, runs_task, runs_handler, take_handler, remove_from_server, scan, server_of,
  posted_by, perform, handlers_of, handle, with_server, next_task, next_handler, step, run,
}
use memory_atlas_server.Chat.Server.Strand.Invariant.{Holds, start}

-- A queued `leave_room` still names the room that its session is in, and a queued `join_room` names
-- some room.
abbrev pub is_current : Task → Server → Bool
is_current (moves_out name a) s = text_eq (current_room s.hub a) name
is_current _ s = true

abbrev pub next_is_current : List Task → Server → Bool
next_is_current [] s = true
next_is_current (task ∷ tasks) s = is_current task s

abbrev pub is_orderly : Event → Strand → Bool
is_orderly (at_once io request) σ = is_checked request
is_orderly (calls request) σ = true
is_orderly (runs_task io) σ = next_is_current σ.tasks σ.server
is_orderly (runs_handler io n) σ = true

-- No session calls `leave_room` past the check of `leave_room_async`, and no queued one has been
-- overtaken by another change of the session's room.
unfoldable pub are_orderly : List Event → Strand → Bool
are_orderly [] σ = true
are_orderly (event ∷ events) σ =
    is_orderly event σ && elim (step event σ) [ none ↦ true | some τ ↦ are_orderly events τ ]

abbrev IsNamed : Task → Type 0
IsNamed (moves_in name a) = is_empty name ≡ false
IsNamed _ = Unit

record ArePlaced (σ : Strand) : Type 0 where
  server : IsPlaced σ.server
  tasks : All IsNamed σ.tasks

posted_by-IsNamed : (request : Request) (s : Server) → All IsNamed (posted_by request s)
unfolding posted_by
posted_by-IsNamed (joins a) s = if_both (All IsNamed) s.stopped _ _ _ (_, _)
posted_by-IsNamed (leaves a) s = (_, _)
posted_by-IsNamed (asks_nickname nick a) s = ground arith
posted_by-IsNamed lists_users s = if_both (All IsNamed) s.stopped _ _ _ (_, _)
posted_by-IsNamed (enters [] a) s = ground arith
posted_by-IsNamed (enters (c ∷ name) a) s = ground arith
posted_by-IsNamed (leaves_room name a) s = ground arith
posted_by-IsNamed (says message sender) s = if_both (All IsNamed) s.stopped _ _ _ (_, _)
posted_by-IsNamed (whispers message a nick) s = ground arith
posted_by-IsNamed closes_sessions s = (_, _)
posted_by-IsNamed (stores_nickname nick a) s = _
posted_by-IsNamed (leaves_directly name a) s = _
posted_by-IsNamed (says_in_room name message sender) s = _
posted_by-IsNamed (expires a) s = _
posted_by-IsNamed stops s = _
posted_by-IsNamed resets_history s = _
posted_by-IsNamed (enables_history enable) s = _

registered-IsPlaced :
    (s : Server) (o : Option (Server × Bool))
    → KeepsRest s o
    → IsPlaced s
    → Holds IsPlaced (server_of o)
registered-IsPlaced s none k v = tt
registered-IsPlaced s (some (s', answer)) k v =
    same-IsPlaced s s' k.0 (λ p. ap (λ h. current_room h p) k.3) v

perform-IsPlaced :
    (io : Io) (task : Task) (s : Server)
    → IsNamed task
    → is_current task s ≡ true
    → IsPlaced s
    → Holds IsPlaced (perform io task s)
unfolding perform remove_from_server scan
perform-IsPlaced io (adds a) s n c v = join-IsPlaced io a s v
perform-IsPlaced io (removes a nick proper) s n c v =
    let v' = leave_all_rooms_impl-IsPlaced a s v in
    if_both IsPlaced s.stopped _ _ v (
      remove_session-IsPlaced io a nick proper _
        (if_both IsPlaced proper _ _ (unregister_nickname-IsPlaced nick _ v') v'))
perform-IsPlaced io (registers nick a) s n c v =
    registered-IsPlaced s (try_register_nickname_impl nick a s) (impl-KeepsRest nick a s) v
perform-IsPlaced io scans s n c v = same-IsPlaced s _ refl (λ p. refl) v
perform-IsPlaced io (moves_in name a) s n c v =
    join_room-IsPlaced name (some a) s (λ e. ground (arith, e)) v
perform-IsPlaced io (moves_out name a) s n c v =
    leave_room-IsPlaced name a s ((text_eq_iff (current_room s.hub a) name).0 c) v
perform-IsPlaced io (sends message sender) s n c v = broadcast-IsPlaced io message sender s v
perform-IsPlaced io (finds message a nick receiver_nick) s n c v = v
perform-IsPlaced io clears s n c v = close_sessions-IsPlaced s

on_receiver-IsPlaced :
    (io : Io) (message : Text) (a : ℕ) (nick receiver_nick : Text) (r : Option ℕ) (s : Server)
    → IsPlaced s
    → IsPlaced (on_receiver io message a nick receiver_nick r s)
unfolding on_receiver deliver
on_receiver-IsPlaced io message a nick receiver_nick none s v =
    if_both IsPlaced s.stopped _ _ v (same-IsPlaced s _ refl (λ p. refl) v)
on_receiver-IsPlaced io message a nick receiver_nick (some r) s v =
    if_both IsPlaced s.stopped _ _ v (same-IsPlaced s _ refl (λ p. refl) v)

with_server-ArePlaced :
    (σ : Strand) (o : Option Server)
    → All IsNamed σ.tasks
    → Holds IsPlaced o
    → Holds ArePlaced (with_server σ o)
with_server-ArePlaced σ none t h = tt
with_server-ArePlaced σ (some s) t h = record { server = h; tasks = t }

requested-IsPlaced :
    (io : Io) (request : Request) (s : Server) (o : Option Server)
    → is_checked request ≡ true
    → Requests.step io request s ≡ o
    → IsPlaced s
    → Holds IsPlaced o
requested-IsPlaced io request s none c e v = tt
requested-IsPlaced io request s (some s') c e v = step-IsPlaced io request s s' c e v

next_task-ArePlaced :
    (io : Io) (σ : Strand) (tasks : List Task)
    → next_is_current tasks σ.server ≡ true
    → All IsNamed tasks
    → ArePlaced σ
    → Holds ArePlaced (next_task io σ tasks)
next_task-ArePlaced io σ [] c t v = v
next_task-ArePlaced io σ (task ∷ tasks) c t v =
    with_server-ArePlaced
      (record σ { tasks = tasks; handlers = σ.handlers ++ handlers_of task σ.server })
      (perform io task σ.server) t.1 (perform-IsPlaced io task σ.server t.0 c v.server)

next_handler-ArePlaced :
    (io : Io) (σ : Strand) (o : Option (Handler × List Handler))
    → ArePlaced σ
    → Holds ArePlaced (next_handler io σ o)
unfolding handle
next_handler-ArePlaced io σ none v = v
next_handler-ArePlaced io σ (some (h, hs)) v = record {
  server =
      on_receiver-IsPlaced io h.message h.sender h.sender_nick h.receiver_nick h.receiver σ.server
        v.server;
  tasks = v.tasks;
}

step-ArePlaced :
    (event : Event) (σ : Strand)
    → is_orderly event σ ≡ true
    → ArePlaced σ
    → Holds ArePlaced (step event σ)
unfolding step
step-ArePlaced (at_once io request) σ c v =
    with_server-ArePlaced σ (Requests.step io request σ.server) v.tasks
      (requested-IsPlaced io request σ.server _ c refl v.server)
step-ArePlaced (calls request) σ c v = record {
  server = v.server;
  tasks = All-append IsNamed σ.tasks _ v.tasks (posted_by-IsNamed request σ.server);
}
step-ArePlaced (runs_task io) σ c v = next_task-ArePlaced io σ σ.tasks c v.tasks v
step-ArePlaced (runs_handler io n) σ c v = next_handler-ArePlaced io σ (take_handler n σ.handlers) v

and_true : (b c : Bool) → b && c ≡ true → (b ≡ true) × (c ≡ true)
and_true b c e = (ground arith, ground arith)

run_next-ArePlaced :
    (events : List Event) (o : Option Strand)
    → elim o [ none ↦ true | some τ ↦ are_orderly events τ ] ≡ true
    → Holds ArePlaced o
    → ((t : Strand) → are_orderly events t ≡ true → ArePlaced t → Holds ArePlaced (run events t))
    → Holds ArePlaced (elim o [ none ↦ none | some t ↦ run events t ])
run_next-ArePlaced events none c h k = tt
run_next-ArePlaced events (some t) c h k = k t c h

run-ArePlaced :
    (events : List Event) (σ : Strand)
    → are_orderly events σ ≡ true
    → ArePlaced σ
    → Holds ArePlaced (run events σ)
unfolding run are_orderly
run-ArePlaced [] σ c v = v
run-ArePlaced (event ∷ events) σ c v =
    let (now, later) = and_true (is_orderly event σ) _ c in
    run_next-ArePlaced events (step event σ) later (step-ArePlaced event σ now v)
      λ t d w. run-ArePlaced events t d w

-- A server as the constructor makes it, with its queue of posted tasks: in whatever order calls
-- are made, tasks and handlers run and other things take effect, as long as no registration
-- faults, every participant stands in the room that its session names, and no room has the empty
-- name, so that a session is in one room at most. This is so where no session calls `leave_room`
-- past the check of `leave_room_async`, and where each `leave_room` that was queued still names
-- the session's current room when it runs.
pub run-start-IsPlaced :
    (events : List Event) (history : History) (session_at : ℕ → Session) (σ : Strand)
    → are_orderly events (start history session_at) ≡ true
    → run events (start history session_at) ≡ some σ
    → IsPlaced σ.server
run-start-IsPlaced events history session_at σ c e =
    (subst (Holds ArePlaced) e (
      run-ArePlaced events (start history session_at) c
        (record { server = create-IsPlaced history session_at; tasks = _ }))).server
