-- ===== src/Chat/Server/Requests/Histories.antt =====
-- What holds after every history of requests.
use memory_atlas_server.Prelude.{
  ℕ, ◌≡◌, some-injective, refl, subst, List, [], ◌∷◌, Bool, false, Option, none, some, Text, arith,
}
use memory_atlas_server.History.Writing.{Io}
use memory_atlas_server.History.Store.{History}
use memory_atlas_server.Chat.State.{Server, Session}
use memory_atlas_server.Chat.Nicknames.{try_register_nickname, get_user_list}
use memory_atlas_server.Chat.Nicknames.Registry.{get_user_list-IsRegistry}
use memory_atlas_server.Chat.Server.{
  create, stop, reset_history, close_sessions, set_history_enabled,
}
use memory_atlas_server.Chat.Server.Requests.{
  Request, joins, leaves, asks_nickname, stores_nickname, lists_users, enters, leaves_room,
  leaves_directly, says, says_in_room, whispers, expires, stops, resets_history, closes_sessions,
  enables_history, step, run,
}
use memory_atlas_server.Chat.Server.Requests.Invariant.{
  IsValid, same-IsValid, broadcast-IsValid, broadcast_to_room-IsValid, send_private_message-IsValid,
  join-IsValid, leave_room-IsValid, leave_room_async-IsValid, join_room_async-IsValid,
  leave-IsValid, register-IsValid,
}

empty-IsValid : (s : Server) → IsValid (record s { sessions = []; nicknames = []; rooms = [] })
empty-IsValid s = record { rooms = _; registry = record { valid = _; ascending = _ }; members = _ }

stop-IsValid : (s : Server) → IsValid s → IsValid (stop s).0
unfolding stop
stop-IsValid s v = same-IsValid s _ (ground arith) (ground arith) (ground arith) v

reset_history-IsValid : (s : Server) → IsValid s → IsValid (reset_history s)
unfolding reset_history
reset_history-IsValid s = same-IsValid s _ refl refl refl

pub close_sessions-IsValid : (s : Server) → IsValid (close_sessions s).0
unfolding close_sessions
close_sessions-IsValid s = empty-IsValid s

set_history_enabled-IsValid :
    (enable : Bool) (s : Server) → IsValid s → IsValid (set_history_enabled enable s)
unfolding set_history_enabled
set_history_enabled-IsValid enable s = same-IsValid s _ refl refl refl

pub get_user_list-IsValid : (s : Server) → IsValid s → IsValid (get_user_list s).0
unfolding get_user_list
get_user_list-IsValid s v =
    let v' : IsValid (record s { nicknames = (get_user_list s).0.nicknames }) = record {
      rooms = v.rooms;
      registry = get_user_list-IsRegistry s v.registry;
      members = v.members;
    } in
    same-IsValid (record s { nicknames = (get_user_list s).0.nicknames }) _ (ground arith) refl
      (ground arith) v'

asked-IsValid :
    (nick : Text) (a : ℕ) (s s' : Server) (answer : Option (Server × Bool))
    → try_register_nickname nick a s ≡ answer
    → elim answer [ none ↦ none | some r ↦ some r.0 ] ≡ some s'
    → IsValid s
    → IsValid s'
asked-IsValid nick a s s' none f e v = ground arith
asked-IsValid nick a s s' (some r) f e v =
    subst IsValid (some-injective _ _ e) (register-IsValid nick a s r.0 r.1 f v)

-- No request takes the server out of the invariant: every room stands under its own name with
-- between one and a hundred participants, each once; the nicknames are valid and in order; and a
-- session is a member once.
pub step-IsValid :
    (io : Io) (request : Request) (s s' : Server)
    → step io request s ≡ some s'
    → IsValid s
    → IsValid s'
unfolding step
step-IsValid io (joins a) s s' e v = subst IsValid (some-injective _ _ e) (join-IsValid io a s v)
step-IsValid io (leaves a) s s' e v = subst IsValid (some-injective _ _ e) (leave-IsValid io a s v)
step-IsValid io (asks_nickname nick a) s s' e v =
    asked-IsValid nick a s s' (try_register_nickname nick a s) refl e v
step-IsValid io (stores_nickname nick a) s s' e v =
    subst IsValid (some-injective _ _ e) (same-IsValid s _ refl refl refl v)
step-IsValid io lists_users s s' e v =
    subst IsValid (some-injective _ _ e) (get_user_list-IsValid s v)
step-IsValid io (enters name a) s s' e v =
    subst IsValid (some-injective _ _ e) (join_room_async-IsValid name a s v)
step-IsValid io (leaves_room name a) s s' e v =
    subst IsValid (some-injective _ _ e) (leave_room_async-IsValid name a s v)
step-IsValid io (leaves_directly name a) s s' e v =
    subst IsValid (some-injective _ _ e) (leave_room-IsValid name (some a) s v)
step-IsValid io (says message sender) s s' e v =
    subst IsValid (some-injective _ _ e) (broadcast-IsValid io message sender s v)
step-IsValid io (says_in_room name message sender) s s' e v =
    subst IsValid (some-injective _ _ e) (broadcast_to_room-IsValid io name message sender s v)
step-IsValid io (whispers message sender nick) s s' e v =
    subst IsValid (some-injective _ _ e)
      (send_private_message-IsValid io message (some sender) nick s v)
step-IsValid io (expires a) s s' e v =
    subst IsValid (some-injective _ _ e) (same-IsValid s _ refl refl refl v)
step-IsValid io stops s s' e v = subst IsValid (some-injective _ _ e) (stop-IsValid s v)
step-IsValid io resets_history s s' e v =
    subst IsValid (some-injective _ _ e) (reset_history-IsValid s v)
step-IsValid io closes_sessions s s' e v =
    subst IsValid (some-injective _ _ e) (close_sessions-IsValid s)
step-IsValid io (enables_history enable) s s' e v =
    subst IsValid (some-injective _ _ e) (set_history_enabled-IsValid enable s v)

run_step-IsValid :
    (requests : List (Io × Request)) (s' : Server) (o : Option Server)
    → ((t : Server) → o ≡ some t → IsValid t)
    → ((t : Server) → run requests t ≡ some s' → IsValid t → IsValid s')
    → elim o [ none ↦ none | some t ↦ run requests t ] ≡ some s'
    → IsValid s'
run_step-IsValid requests s' none h k e = ground arith
run_step-IsValid requests s' (some t) h k e = k t e (h t refl)

pub run-IsValid :
    (requests : List (Io × Request)) (s s' : Server)
    → run requests s ≡ some s'
    → IsValid s
    → IsValid s'
unfolding run
run-IsValid [] s s' e v = subst IsValid (some-injective _ _ e) v
run-IsValid ((io, request) ∷ requests) s s' e v =
    run_step-IsValid requests s' (step io request s) (λ t f. step-IsValid io request s t f v)
      (λ t f. run-IsValid requests t s' f) e

-- A server as the constructor makes it keeps its invariant through every history of requests that
-- does not fault: each room stands under its own name and holds between one and a hundred
-- participants, each once; the nicknames are valid and in order; and a session is a member once.
pub run-create-IsValid :
    (requests : List (Io × Request)) (history : History) (session_at : ℕ → Session) (s : Server)
    → run requests (create history session_at) ≡ some s
    → IsValid s
unfolding create
run-create-IsValid requests history session_at s e =
    run-IsValid requests (create history session_at) s e (
      empty-IsValid (record {
        hub = record { session_at = session_at; posted = [] };
        sessions = [];
        nicknames = [];
        rooms = [];
        history = some history;
        stopped = false;
      }))
