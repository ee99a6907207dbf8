-- ===== src/Chat/Server/Strand/Refinement.antt =====
-- The server with its queue of tasks does what the requests do one after another, each at the time
-- when its task runs.
use memory_atlas_server.Prelude.{
  ℕ, ◌≡◌, refl, ap, ◌∙◌, List, [], ◌∷◌, ◌++◌, Bool, false, ◌||◌, Bool-cases, inl, inr, Option, none,
  some, Text, arith, is_empty,
}
use memory_atlas_server.History.Writing.{Io}
use memory_atlas_server.Chat.State.{Server, nickname, has_proper_nickname}
use memory_atlas_server.Chat.Broadcast.{on_receiver, send_private_message, find_session_by_nickname}
use memory_atlas_server.Chat.Nicknames.{
  is_invalid_nickname, try_register_nickname, try_register_nickname_impl, get_user_list,
}
use memory_atlas_server.Chat.Rooms.{join_room, join_room_async, is_invalid_room_name}
use memory_atlas_server.Chat.Server.{leave}
use memory_atlas_server.Chat.Server.Requests.{
  Request, joins, leaves, asks_nickname, lists_users, enters, leaves_directly, says, whispers,
  closes_sessions,
}
use memory_atlas_server.Chat.Server.Requests
use memory_atlas_server.Chat.Server.Strand.{
  Task, adds, removes, registers, scans, moves_in, moves_out, sends, finds, clears, Handler, Strand,
  perform, handle, Event, at_once, calls, runs_task, runs_handler, take_handler, step, server_of,
  remove_from_server, scan,
}

-- The request that a task carries out; a search is carried out by its handler.
abbrev pub requests_of_task : Io → Task → List (Io × Request)
requests_of_task io (adds a) = (io, joins a) ∷ []
requests_of_task io (removes a nick proper) = (io, leaves a) ∷ []
requests_of_task io (registers nick a) = (io, asks_nickname nick a) ∷ []
requests_of_task io scans = (io, lists_users) ∷ []
requests_of_task io (moves_in name a) = (io, enters name a) ∷ []
requests_of_task io (moves_out name a) = (io, leaves_directly name a) ∷ []
requests_of_task io (sends message sender) = (io, says message sender) ∷ []
requests_of_task io (finds message a nick receiver_nick) = []
requests_of_task io clears = (io, closes_sessions) ∷ []

-- What the task has captured is still so when it runs, and the names pass the checks of the calls;
-- a registration and a scan, which do not look at `stopped_` again, run before the stop.
abbrev pub IsCurrent : Task → Server → Type 0
IsCurrent (adds a) s = Unit
IsCurrent (removes a nick proper) s =
    (nickname s.hub a ≡ nick) × (has_proper_nickname (s.session_at a) ≡ proper)
IsCurrent (registers nick a) s = (s.stopped ≡ false) × (is_invalid_nickname nick ≡ false)
IsCurrent scans s = s.stopped ≡ false
IsCurrent (moves_in name a) s = (is_empty name ≡ false) × (is_invalid_room_name name ≡ false)
IsCurrent (moves_out name a) s = Unit
IsCurrent (sends message sender) s = Unit
IsCurrent (finds message a nick receiver_nick) s = Unit
IsCurrent clears s = Unit

-- The same of a handler: its sender has the nickname, and its receiver is the one that is found.
pub record IsUpToDate (h : Handler) (s : Server) : Type 0 where
  pub running : s.stopped ≡ false
  pub sender_nick : nickname s.hub h.sender ≡ h.sender_nick
  pub receiver : find_session_by_nickname h.receiver_nick s ≡ h.receiver
  pub has_receiver : is_empty h.receiver_nick ≡ false
  pub has_message : is_empty h.message ≡ false

registered : (o : Option (Server × Bool)) → elim o [ none ↦ none | some r ↦ some r.0 ] ≡ server_of o
registered none = refl
registered (some r) = refl

leave_lem :
    (io : Io) (a : ℕ) (s : Server)
    → leave io (some a) s
      ≡ remove_from_server io a (nickname s.hub a) (has_proper_nickname (s.session_at a)) s
unfolding leave remove_from_server
leave_lem io a s = refl

try_register_nickname_lem :
    (nick : Text) (a : ℕ) (s : Server)
    → (s.stopped || is_invalid_nickname nick) ≡ false
    → try_register_nickname nick a s ≡ try_register_nickname_impl nick a s
unfolding try_register_nickname
try_register_nickname_lem nick a s e = rw e refl

get_user_list_lem : (s : Server) → s.stopped ≡ false → (get_user_list s).0 ≡ scan s
unfolding get_user_list scan
get_user_list_lem s e = simp e refl

join_room_async_lem :
    (name : Text) (a : ℕ) (s : Server)
    → (is_empty name || is_invalid_room_name name) ≡ false
    → join_room_async name (some a) s ≡ join_room name (some a) s
unfolding join_room_async join_room
join_room_async_lem name a s e = elim (Bool-cases s.stopped) [
  | inl p ↦ rw p refl
  | inr p ↦ rw (p, e) refl
]

pub run_one :
    (io : Io) (request : Request) (s : Server) (o : Option Server)
    → Requests.step io request s ≡ o
    → Requests.run ((io, request) ∷ []) s ≡ o
unfolding Requests.run
run_one io request s none e = rw (e, Requests.run) refl
run_one io request s (some s') e = rw (e, Requests.run) refl

-- A task does what its request does.
pub perform_refines :
    (io : Io) (task : Task) (s : Server) (s' : Server)
    → IsCurrent task s
    → perform io task s ≡ some s'
    → Requests.run (requests_of_task io task) s ≡ some s'
unfolding perform Requests.run Requests.step
perform_refines io (adds a) s s' c e = e
perform_refines io (removes a nick proper) s s' c e =
    ap some (leave_lem io a s)
    ∙ (ap (λ n. some (remove_from_server io a n (has_proper_nickname (s.session_at a)) s)) c.0
        ∙ (ap (λ p. some (remove_from_server io a nick p s)) c.1 ∙ e))
perform_refines io (registers nick a) s s' c e = run_one io (asks_nickname nick a) s (some s') (
    ap (λ (o : Option (Server × Bool)). elim o [ none ↦ none | some r ↦ some r.0 ])
      (try_register_nickname_lem nick a s (ground arith))
    ∙ (registered (try_register_nickname_impl nick a s) ∙ e))
perform_refines io scans s s' c e = ap some (get_user_list_lem s c) ∙ e
perform_refines io (moves_in name a) s s' c e =
    ap (λ (r : Server × Bool). some r.0) (join_room_async_lem name a s (ground arith)) ∙ e
perform_refines io (moves_out name a) s s' c e = e
perform_refines io (sends message sender) s s' c e = e
perform_refines io (finds message a nick receiver_nick) s s' c e = e
perform_refines io clears s s' c e = e

pub handle_refines :
    (io : Io) (h : Handler) (s : Server)
    → IsUpToDate h s
    → Requests.run ((io, whispers h.message h.sender h.receiver_nick) ∷ []) s ≡ some (handle io h s)
unfolding handle Requests.run Requests.step send_private_message
handle_refines io h s u =
    let checked : (s.stopped || is_empty h.receiver_nick || is_empty h.message) ≡ false =
      ground (arith, u.running, u.has_receiver, u.has_message) in
    let found = find_session_by_nickname h.receiver_nick s in
    rw checked (
      ap (λ n. some (on_receiver io h.message h.sender n h.receiver_nick found s)) u.sender_nick
      ∙ ap (λ r. some (on_receiver io h.message h.sender h.sender_nick h.receiver_nick r s))
          u.receiver)

-- The requests that an event carries out.
abbrev pub requests_of : Event → Strand → List (Io × Request)
requests_of (at_once io request) σ = (io, request) ∷ []
requests_of (calls request) σ = []
requests_of (runs_task io) σ = elim σ.tasks [ [] ↦ [] | task ∷ tasks ↦ requests_of_task io task ]
requests_of (runs_handler io n) σ = elim (take_handler n σ.handlers) [
  | none ↦ []
  | some r ↦ (io, whispers r.0.message r.0.sender r.0.receiver_nick) ∷ []
]

abbrev pub AreCurrent : Event → Strand → Type 0
AreCurrent (at_once io request) σ = Unit
AreCurrent (calls request) σ = Unit
AreCurrent (runs_task io) σ = elim σ.tasks [ [] ↦ Unit | task ∷ tasks ↦ IsCurrent task σ.server ]
AreCurrent (runs_handler io n) σ = elim (take_handler n σ.handlers) [
  | none ↦ Unit
  | some r ↦ IsUpToDate r.0 σ.server
]

-- The requests that a run carries out, in the order in which they take effect.
abbrev pub carried_out : List Event → Strand → List (Io × Request)
carried_out [] σ = []
carried_out (event ∷ events) σ =
    requests_of event σ ++ elim (step event σ) [ none ↦ [] | some σ' ↦ carried_out events σ' ]

abbrev pub StaysCurrent : List Event → Strand → Type 0
StaysCurrent [] σ = Unit
StaysCurrent (event ∷ events) σ =
    AreCurrent event σ × elim (step event σ) [ none ↦ Unit | some σ' ↦ StaysCurrent events σ' ]
