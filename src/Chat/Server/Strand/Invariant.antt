-- ===== src/Chat/Server/Strand/Invariant.antt =====
-- What holds of the server with its queue of tasks, in whatever order things happen.
use memory_atlas_server.Prelude.{
  ℕ, ◌≡◌, refl, subst, sym, List, [], ◌∷◌, ◌++◌, Bool, false, ◌||◌, if_both, Option, none, some,
  Text, All, Above, All-append, arith, is_empty, not, text_eq,
}
use memory_atlas_server.History.Writing.{Io}
use memory_atlas_server.History.Store.{History}
use memory_atlas_server.Chat.State.{Server, Session, current_room}
use memory_atlas_server.Chat.Broadcast.{on_receiver}
use memory_atlas_server.Chat.Nicknames.{is_invalid_nickname, try_register_nickname_impl}
use memory_atlas_server.Chat.Nicknames.Registry.{
  Keeps, impl-Keeps, KeepsRest, impl-KeepsRest, scan_users-IsRegistry,
}
use memory_atlas_server.Chat.Rooms.{is_invalid_room_name}
use memory_atlas_server.Chat.Rooms.Frame.{join_room-IsSameBut}
use memory_atlas_server.Chat.Rooms.Invariant.{IsSound, join_room-AreSound}
use memory_atlas_server.Chat.Server.{create}
use memory_atlas_server.Chat.Server.Requests.{
  Request, joins, leaves, asks_nickname, stores_nickname, lists_users, enters, leaves_room,
  leaves_directly, says, says_in_room, whispers, expires, stops, resets_history, closes_sessions,
  enables_history,
}
use memory_atlas_server.Chat.Server.Requests
use memory_atlas_server.Chat.Server.Requests.Invariant.{
  IsValid, same-IsValid, rooms-IsValid, join-IsValid, leave_room-IsValid, broadcast-IsValid,
  leave_all_rooms_impl-IsValid, unregister_nickname-IsValid, remove_session-IsValid,
}
use memory_atlas_server.Chat.Server.Requests.Histories.{
  close_sessions-IsValid, step-IsValid, run-create-IsValid,
}
use memory_atlas_server.Chat.Server.Strand.{
  Task, adds, removes, registers, scans, moves_in, moves_out, sends, finds, clears, Handler, Strand,
  posted_by, perform, handle, handlers_of, Event, at_once, calls, runs_task, runs_handler,
  take_handler, step, run, server_of, with_server, next_task, next_handler, remove_from_server,
}

abbrev pub Holds {ℓ κ} : {A : Type ℓ} → (A → Type κ) → Option A → Type κ
Holds P none = Unit
Holds P (some a) = P a

-- A registration waits for a nickname that has passed the check.
abbrev pub IsChecked : Task → Type 0
IsChecked (adds a) = Unit
IsChecked (removes a nick proper) = Unit
IsChecked (registers nick a) = is_invalid_nickname nick ≡ false
IsChecked scans = Unit
IsChecked (moves_in name a) = Unit
IsChecked (moves_out name a) = Unit
IsChecked (sends message sender) = Unit
IsChecked (finds message a nick receiver_nick) = Unit
IsChecked clears = Unit

pub record AreValid (σ : Strand) : Type 0 where
  pub server : IsValid σ.server
  pub tasks : All IsChecked σ.tasks

posted_by-IsChecked : (request : Request) (s : Server) → All IsChecked (posted_by request s)
unfolding posted_by
posted_by-IsChecked (joins a) s = if_both (All IsChecked) s.stopped _ _ _ (_, _)
posted_by-IsChecked (leaves a) s = (_, _)
posted_by-IsChecked (asks_nickname nick a) s = ground arith
posted_by-IsChecked lists_users s = if_both (All IsChecked) s.stopped _ _ _ (_, _)
posted_by-IsChecked (enters name a) s =
    if_both (All IsChecked) (s.stopped || is_empty name || is_invalid_room_name name) _ _ _ (_, _)
posted_by-IsChecked (leaves_room name a) s =
    if_both (All IsChecked)
      (s.stopped || is_empty name || not (text_eq (current_room s.hub a) name)) _ _ _ (_, _)
posted_by-IsChecked (says message sender) s = if_both (All IsChecked) s.stopped _ _ _ (_, _)
posted_by-IsChecked (whispers message a nick) s =
    if_both (All IsChecked) (s.stopped || is_empty nick || is_empty message) _ _ _ (_, _)
posted_by-IsChecked closes_sessions s = (_, _)
posted_by-IsChecked (stores_nickname nick a) s = _
posted_by-IsChecked (leaves_directly name a) s = _
posted_by-IsChecked (says_in_room name message sender) s = _
posted_by-IsChecked (expires a) s = _
posted_by-IsChecked stops s = _
posted_by-IsChecked resets_history s = _
posted_by-IsChecked (enables_history enable) s = _

registered-IsValid :
    (s : Server) (o : Option (Server × Bool))
    → Keeps o
    → KeepsRest s o
    → IsValid s
    → Holds IsValid (server_of o)
registered-IsValid s none k r v = tt
registered-IsValid s (some (s', answer)) k r v = record {
  rooms = subst (All IsSound) (sym r.0) v.rooms;
  registry = k;
  members = subst (Above 0) (sym r.1) v.members;
}

remove_from_server-IsValid :
    (io : Io) (a : ℕ) (nick : Text) (proper : Bool) (s : Server)
    → IsValid s
    → IsValid (remove_from_server io a nick proper s)
unfolding remove_from_server
remove_from_server-IsValid io a nick proper s v =
    let v' = leave_all_rooms_impl-IsValid a s v in
    if_both IsValid s.stopped _ _ v (
      remove_session-IsValid io a nick proper _
        (if_both IsValid proper _ _ (unregister_nickname-IsValid nick _ v') v'))

perform-IsValid :
    (io : Io) (task : Task) (s : Server)
    → IsChecked task
    → IsValid s
    → Holds IsValid (perform io task s)
unfolding perform
perform-IsValid io (adds a) s c v = join-IsValid io a s v
perform-IsValid io (removes a nick proper) s c v = remove_from_server-IsValid io a nick proper s v
perform-IsValid io (registers nick a) s c v =
    registered-IsValid s (try_register_nickname_impl nick a s) (impl-Keeps nick a s c v.registry)
      (impl-KeepsRest nick a s) v
perform-IsValid io scans s c v = record {
  rooms = v.rooms;
  registry = scan_users-IsRegistry s.session_at s.nicknames v.registry;
  members = v.members;
}
perform-IsValid io (moves_in name a) s c v =
    rooms-IsValid s _ (join_room-IsSameBut name (some a) s)
      (join_room-AreSound name (some a) s v.rooms) v
perform-IsValid io (moves_out name a) s c v = leave_room-IsValid name (some a) s v
perform-IsValid io (sends message sender) s c v = broadcast-IsValid io message sender s v
perform-IsValid io (finds message a nick receiver_nick) s c v = v
perform-IsValid io clears s c v = close_sessions-IsValid s

on_receiver-IsValid :
    (io : Io) (message : Text) (a : ℕ) (nick receiver_nick : Text) (r : Option ℕ) (s : Server)
    → IsValid s
    → IsValid (on_receiver io message a nick receiver_nick r s)
unfolding on_receiver
on_receiver-IsValid io message a nick receiver_nick none s v =
    if_both IsValid s.stopped _ _ v (same-IsValid s _ refl refl refl v)
on_receiver-IsValid io message a nick receiver_nick (some r) s v =
    if_both IsValid s.stopped _ _ v (same-IsValid s _ refl refl refl v)

handle-IsValid : (io : Io) (h : Handler) (s : Server) → IsValid s → IsValid (handle io h s)
unfolding handle
handle-IsValid io h s v =
    on_receiver-IsValid io h.message h.sender h.sender_nick h.receiver_nick h.receiver s v

with_server-AreValid :
    (σ : Strand) (o : Option Server)
    → All IsChecked σ.tasks
    → Holds IsValid o
    → Holds AreValid (with_server σ o)
with_server-AreValid σ none t h = tt
with_server-AreValid σ (some s) t h = record { server = h; tasks = t }

direct-IsValid :
    (io : Io) (request : Request) (s : Server) (o : Option Server)
    → Requests.step io request s ≡ o
    → IsValid s
    → Holds IsValid o
direct-IsValid io request s none e v = tt
direct-IsValid io request s (some s') e v = step-IsValid io request s s' e v

next_task-AreValid :
    (io : Io) (σ : Strand) (tasks : List Task)
    → AreValid σ
    → All IsChecked tasks
    → Holds AreValid (next_task io σ tasks)
next_task-AreValid io σ [] v t = v
next_task-AreValid io σ (task ∷ tasks) v t =
    with_server-AreValid
      (record σ { tasks = tasks; handlers = σ.handlers ++ handlers_of task σ.server })
      (perform io task σ.server) t.1 (perform-IsValid io task σ.server t.0 v.server)

next_handler-AreValid :
    (io : Io) (σ : Strand) (o : Option (Handler × List Handler))
    → AreValid σ
    → Holds AreValid (next_handler io σ o)
next_handler-AreValid io σ none v = v
next_handler-AreValid io σ (some r) v = record {
  server = handle-IsValid io r.0 σ.server v.server;
  tasks = v.tasks;
}

step-AreValid : (event : Event) (σ : Strand) → AreValid σ → Holds AreValid (step event σ)
unfolding step
step-AreValid (at_once io request) σ v =
    with_server-AreValid σ (Requests.step io request σ.server) v.tasks
      (direct-IsValid io request σ.server _ refl v.server)
step-AreValid (calls request) σ v = record {
  server = v.server;
  tasks = All-append IsChecked σ.tasks _ v.tasks (posted_by-IsChecked request σ.server);
}
step-AreValid (runs_task io) σ v = next_task-AreValid io σ σ.tasks v v.tasks
step-AreValid (runs_handler io n) σ v = next_handler-AreValid io σ (take_handler n σ.handlers) v

run_next-AreValid :
    (events : List Event) (o : Option Strand)
    → Holds AreValid o
    → ((t : Strand) → AreValid t → Holds AreValid (run events t))
    → Holds AreValid (elim o [ none ↦ none | some t ↦ run events t ])
run_next-AreValid events none h k = tt
run_next-AreValid events (some t) h k = k t h

run-AreValid : (events : List Event) (σ : Strand) → AreValid σ → Holds AreValid (run events σ)
unfolding run
run-AreValid [] σ v = v
run-AreValid (event ∷ events) σ v =
    run_next-AreValid events (step event σ) (step-AreValid event σ v) λ t w. run-AreValid events t w

abbrev pub start : History → (ℕ → Session) → Strand
start history session_at = record { server = create history session_at; tasks = []; handlers = [] }

-- A server as the constructor makes it, with its queue of posted tasks and the handlers in the
-- pool, keeps its invariant in whatever order calls are made, tasks and handlers run and other
-- things take effect, as long as no registration faults: each room stands under its own name and
-- holds between one and a hundred participants, each once; the nicknames are valid and in order; a
-- session is a member once; and only registrations of valid nicknames are waiting.
pub run-start-AreValid :
    (events : List Event) (history : History) (session_at : ℕ → Session) (σ : Strand)
    → run events (start history session_at) ≡ some σ
    → AreValid σ
run-start-AreValid events history session_at σ e = subst (Holds AreValid) e (
    run-AreValid events (start history session_at) (record {
      server = run-create-IsValid [] history session_at _ (unfold Requests.run in refl);
      tasks = _;
    }))
