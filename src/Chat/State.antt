-- ===== src/Chat/State.antt =====
-- The state of the chat server (include/ChatServer.hpp), the part of a session that the server
-- reads and writes (include/SessionInterface.hpp), and the messages posted to sessions.
use memory_atlas_server.Prelude.{
  ℕ, ◌++◌, List, [], ◌∷◌, Bool, false, not, ◌&&◌, is_empty, text_eq, ◌==◌, if◌then◌else◌, Option,
  none, some, Text, Map,
}
use memory_atlas_server.History.Store.{History}

-- `alive` says that a `shared_ptr` to the session is left, so that `weak_ptr::lock` succeeds.
pub record Session : Type 0 where
  pub nickname : Text
  pub remote_id : Text
  pub current_room : Text
  pub alive : Bool

-- A task on the strand of a session: the one that `deliver` posts, which queues its message, or
-- the one of `broadcast_impl`, which calls `deliver`.
pub data Post : Type 0 where
  direct relayed : Text → Post

-- The session objects by their number, and the tasks posted to their strands so far, oldest first.
pub record Hub : Type 0 where
  pub session_at : ℕ → Session
  pub posted : List (ℕ × Post)

pub record Room : Type 0 where
  pub name : Text
  pub participants : List ℕ
  pub max_participants : ℕ

-- `ChatServer`, without what only the sockets and the signals use.
pub record Server : Type 0 where
  pub hub : Hub
  pub open hub use *
  pub sessions : List ℕ
  pub nicknames : Map ℕ
  pub rooms : Map Room
  pub history : Option History
  pub stopped : Bool

abbrev pub crlf : Text
crlf = b'\r' ∷ b'\n' ∷ []

abbrev pub update_session : ℕ → Session → (ℕ → Session) → ℕ → Session
update_session a v f b = if a == b then v else f b

-- `net::post` to the strand of a session.
abbrev pub post : ℕ → Post → Hub → Hub
post s task hub = record hub { posted = hub.posted ++ (s, task) ∷ [] }

-- `session->deliver(msg)`
unfoldable pub deliver : ℕ → Text → Hub → Hub
deliver s msg hub = post s (direct msg) hub

unfoldable pub set_current_room : ℕ → Text → Hub → Hub
set_current_room s room hub = record hub {
  session_at = update_session s (record (hub.session_at s) { current_room = room }) hub.session_at;
}

unfoldable pub set_nickname : ℕ → Text → Hub → Hub
set_nickname s nick hub = record hub {
  session_at = update_session s (record (hub.session_at s) { nickname = nick }) hub.session_at;
}

abbrev pub nickname : Hub → ℕ → Text
nickname hub s = (hub.session_at s).nickname

abbrev pub current_room : Hub → ℕ → Text
current_room hub s = (hub.session_at s).current_room

-- A nickname of the user's own, and not the address.
unfoldable pub has_proper_nickname : Session → Bool
has_proper_nickname v = not (is_empty v.nickname) && not (text_eq v.nickname v.remote_id)

abbrev pub is_sender : Option ℕ → ℕ → Bool
is_sender none p = false
is_sender (some s) p = s == p

-- A range `for` that posts a task to every member but the sender.
unfoldable pub post_to_others : Option ℕ → Post → List ℕ → Hub → Hub
post_to_others sender task [] hub = hub
post_to_others sender task (p ∷ ps) hub =
    post_to_others sender task ps (if is_sender sender p then hub else post p task hub)
