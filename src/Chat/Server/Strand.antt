-- ===== src/Chat/Server/Strand.antt =====
-- src/ChatServer.cpp: the calls with the tasks that they post to the strand of the server, which
-- runs them one after another in the order of posting, and the handlers of private messages, which
-- the pool of threads runs at any time later.
pub mod Invariant
pub mod Refinement
pub mod Runs
pub mod Placement
pub mod Quiet
pub mod Stopping
use memory_atlas_server.Prelude.{
  ℕ, zero, suc, List, [], ◌∷◌, ◌++◌, Bool, true, false, not, ◌||◌, ◌&&◌, if◌then◌else◌, Option,
  none, some, Text, is_empty, text_eq, lookup,
}
use memory_atlas_server.History.Writing.{Io}
use memory_atlas_server.Chat.State.{Server, Session, nickname, current_room, has_proper_nickname}
use memory_atlas_server.Chat.Broadcast.{broadcast, lock, on_receiver}
use memory_atlas_server.Chat.Nicknames.{
  is_invalid_nickname, try_register_nickname_impl, unregister_nickname, scan_users,
}
use memory_atlas_server.Chat.Rooms.{
  is_invalid_room_name, join_room, leave_room, leave_all_rooms_impl,
}
use memory_atlas_server.Chat.Server.{join, remove_session, close_sessions}
use memory_atlas_server.Chat.Server.Requests.{
  Request, joins, leaves, asks_nickname, stores_nickname, lists_users, enters, leaves_room,
  leaves_directly, says, says_in_room, whispers, expires, stops, resets_history, closes_sessions,
  enables_history,
}
use memory_atlas_server.Chat.Server.Requests

-- The lambdas that are posted, with what they have captured.
pub data Task : Type 0 where
  adds : ℕ → Task
  -- the session, its nickname, and whether it is a proper one, at the time of the call
  removes : ℕ → Text → Bool → Task
  registers : Text → ℕ → Task
  scans : Task
  moves_in moves_out : Text → ℕ → Task
  sends : Text → Option ℕ → Task
  -- the message, its sender and the sender's nickname, and the nickname that is looked for
  finds : Text → ℕ → Text → Text → Task
  clears : Task

-- The handler of a search, with the session that was found.
pub record Handler : Type 0 where
  pub message : Text
  pub sender : ℕ
  pub sender_nick : Text
  pub receiver_nick : Text
  pub receiver : Option ℕ

pub record Strand : Type 0 where
  pub server : Server
  pub tasks : List Task
  pub handlers : List Handler

-- What a call posts after its checks; the other requests post nothing.
unfoldable pub posted_by : Request → Server → List Task
posted_by (joins a) s = if s.stopped then [] else adds a ∷ []
posted_by (leaves a) s = removes a (nickname s.hub a) (has_proper_nickname (s.session_at a)) ∷ []
posted_by (asks_nickname nick a) s =
    if s.stopped || is_invalid_nickname nick then [] else registers nick a ∷ []
posted_by lists_users s = if s.stopped then [] else scans ∷ []
posted_by (enters name a) s =
    if s.stopped || is_empty name || is_invalid_room_name name then [] else moves_in name a ∷ []
posted_by (leaves_room name a) s =
    if s.stopped || is_empty name || not (text_eq (current_room s.hub a) name)
    then []
    else moves_out name a ∷ []
posted_by (says message sender) s = if s.stopped then [] else sends message sender ∷ []
posted_by (whispers message a nick) s =
    if s.stopped || is_empty nick || is_empty message
    then []
    else finds message a (nickname s.hub a) nick ∷ []
posted_by closes_sessions s = clears ∷ []
posted_by (stores_nickname nick a) s = []
posted_by (leaves_directly name a) s = []
posted_by (says_in_room name message sender) s = []
posted_by (expires a) s = []
posted_by stops s = []
posted_by resets_history s = []
posted_by (enables_history enable) s = []

-- The body of `leave` on the strand.
unfoldable pub remove_from_server : Io → ℕ → Text → Bool → Server → Server
remove_from_server io a nick proper s =
    let s' = leave_all_rooms_impl a s in
    let s'' = if proper then unregister_nickname nick s' else s' in
    if s.stopped then s else remove_session io a nick proper s''

-- The body of `get_user_list_async` on the strand.
unfoldable pub scan : Server → Server
scan s = record s { nicknames = (scan_users s.session_at s.nicknames).1 }

-- The search of `find_session_by_nickname_async` on the strand.
unfoldable pub find_owner : Text → Server → Option ℕ
find_owner nick s = elim (lookup nick s.nicknames) [ none ↦ none | some a ↦ lock s a ]

abbrev pub server_of : Option (Server × Bool) → Option Server
server_of none = none
server_of (some r) = some r.0

-- A task, and the handlers that it posts to the pool. `none` is a fault of a registration.
unfoldable pub perform : Io → Task → Server → Option Server
unfolding remove_from_server scan
perform io (adds a) s = some (join io (some a) s)
perform io (removes a nick proper) s = some (remove_from_server io a nick proper s)
perform io (registers nick a) s = server_of (try_register_nickname_impl nick a s)
perform io scans s = some (scan s)
perform io (moves_in name a) s = some (join_room name (some a) s).0
perform io (moves_out name a) s = some (leave_room name (some a) s).0
perform io (sends message sender) s = some (broadcast io message sender s)
perform io (finds message a nick receiver_nick) s = some s
perform io clears s = some (close_sessions s).0

unfoldable pub handlers_of : Task → Server → List Handler
unfolding find_owner
handlers_of (finds message a nick receiver_nick) s =
    record {
      message = message;
      sender = a;
      sender_nick = nick;
      receiver_nick = receiver_nick;
      receiver = find_owner receiver_nick s;
    }
    ∷ []
handlers_of _ s = []

unfoldable pub handle : Io → Handler → Server → Server
handle io h s = on_receiver io h.message h.sender h.sender_nick h.receiver_nick h.receiver s

-- What can happen next: something that takes effect at once, a call, the next task of the strand,
-- or one of the handlers.
pub data Event : Type 0 where
  at_once : Io → Request → Event
  calls : Request → Event
  runs_task : Io → Event
  runs_handler : Io → ℕ → Event

-- The handler at a place, and the others.
unfoldable pub take_handler : ℕ → List Handler → Option (Handler × List Handler)
take_handler n [] = none
take_handler zero (h ∷ hs) = some (h, hs)
take_handler (suc n) (h ∷ hs) = elim (take_handler n hs) [
  | none ↦ none
  | some r ↦ some (r.0, h ∷ r.1)
]

abbrev with_server : Strand → Option Server → Option Strand
with_server σ none = none
with_server σ (some s) = some (record σ { server = s })

abbrev next_task : Io → Strand → List Task → Option Strand
next_task io σ [] = some σ
next_task io σ (task ∷ tasks) =
    with_server (record σ { tasks = tasks; handlers = σ.handlers ++ handlers_of task σ.server })
      (perform io task σ.server)

abbrev next_handler : Io → Strand → Option (Handler × List Handler) → Option Strand
next_handler io σ none = some σ
next_handler io σ (some r) = some (record σ { server = handle io r.0 σ.server; handlers = r.1 })

unfoldable pub step : Event → Strand → Option Strand
step (at_once io request) σ = with_server σ (Requests.step io request σ.server)
step (calls request) σ = some (record σ { tasks = σ.tasks ++ posted_by request σ.server })
step (runs_task io) σ = next_task io σ σ.tasks
step (runs_handler io n) σ = next_handler io σ (take_handler n σ.handlers)

unfoldable pub run : List Event → Strand → Option Strand
run [] σ = some σ
run (event ∷ events) σ = elim (step event σ) [ none ↦ none | some σ' ↦ run events σ' ]
