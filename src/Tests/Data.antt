-- ===== src/Tests/Data.antt =====
-- Concrete texts, sessions, rooms, servers and answers of the environment.
use memory_atlas_server.Prelude.{
  ℕ, zero, suc, ◌≡◌, ◌≢◌, refl, List, [], ◌∷◌, true, false, ◌==◌, if◌then◌else◌, none, some, Text,
  text_eq, text_eq_iff, text_lt, utf8, lookup, arith,
}
use memory_atlas_server.History.Writing.{Io, written, interrupted}
use memory_atlas_server.History.Store.{History}
use memory_atlas_server.Chat.State.{Session, Room, Server}
use memory_atlas_server.Chat.Nicknames.{is_invalid_nickname, has_space, is_space}
use memory_atlas_server.Chat.Nicknames.Registry.{IsRegistry}
use memory_atlas_server.Chat.Nicknames.Releasing.{IsTaken}
use memory_atlas_server.Chat.Rooms.Placement.{IsPlaced}
use memory_atlas_server.Chat.Server.Requests.Invariant.{IsValid}
use memory_atlas_server.Sessions.WebSocket
use memory_atlas_server.Sessions.Tcp

abbrev pub ann : Text
ann = b'a' ∷ b'n' ∷ b'n' ∷ []

abbrev pub bob : Text
bob = b'b' ∷ b'o' ∷ b'b' ∷ []

abbrev pub kim : Text
kim = b'k' ∷ b'i' ∷ b'm' ∷ []

abbrev pub lee : Text
lee = b'l' ∷ b'e' ∷ b'e' ∷ []

abbrev pub den : Text
den = b'd' ∷ b'e' ∷ b'n' ∷ []

abbrev pub pub_name : Text
pub_name = b'p' ∷ b'u' ∷ b'b' ∷ []

abbrev pub hi : Text
hi = b'h' ∷ b'i' ∷ []

-- The UTF-8 bytes of two Korean letters.
abbrev pub ga : Text
ga = 0xea ∷ 0xb0 ∷ 0x80 ∷ []

abbrev pub na : Text
na = 0xeb ∷ 0x82 ∷ 0x98 ∷ []

-- Writes that are interrupted and cut short, and yet take everything.
abbrev pub io : Io
io = record {
  timestamp = b't' ∷ [];
  opens = true;
  writes =
      interrupted
      ∷ written 2
      ∷ written 3
      ∷ interrupted
      ∷ written 4
      ∷ written 5
      ∷ written 6
      ∷ written 7
      ∷ written 1
      ∷ written 1
      ∷ [];
  durable_writes = some (b'1' ∷ []);
  fsync_succeeds = true;
  close_succeeds = true;
}

abbrev pub history : History
history = record { history_dir = b'h' ∷ []; enabled = true; disk = [] }

abbrev pub sessions_at : ℕ → Session
sessions_at n = record {
  nickname = if n == 1 then ann else if n == 2 then bob else b'x' ∷ [];
  remote_id = b'x' ∷ [];
  current_room = [];
  alive = true;
}

abbrev pub server : Server
server = record {
  hub = record { session_at = sessions_at; posted = [] };
  sessions = 1 ∷ 2 ∷ 3 ∷ [];
  nicknames = (ann, 1) ∷ (bob, 2) ∷ [];
  rooms = [];
  history = some history;
  stopped = false;
}

abbrev pub den_room : Room
den_room = record { name = den; participants = 1 ∷ 2 ∷ []; max_participants = 100 }

abbrev pub pub_room : Room
pub_room = record { name = pub_name; participants = 3 ∷ []; max_participants = 100 }

abbrev pub server_with_rooms : Server
server_with_rooms = record server { rooms = (den, den_room) ∷ (pub_name, pub_room) ∷ [] }

-- As many participants as there can be.
abbrev pub crowd : ℕ → ℕ → List ℕ
crowd zero first = []
crowd (suc n) first = first ∷ crowd n (suc first)

abbrev pub full_room : Room
full_room = record { name = den; participants = crowd 100 10; max_participants = 100 }

abbrev pub server_with_full_room : Server
server_with_full_room = record server { rooms = (den, full_room) ∷ [] }

-- The registry has given the nickname that session 1 shows to session 3.
abbrev pub server_with_foreign_nickname : Server
server_with_foreign_nickname = record server { nicknames = (ann, 3) ∷ [] }

abbrev pub server_with_dead_owner : Server
server_with_dead_owner = record server {
  hub = record { session_at = λ n. record (sessions_at n) { alive = n == 1 }; posted = [] };
}

abbrev pub busy_queue : WebSocket.Queue
busy_queue = record { write_msgs = ann ∷ bob ∷ []; is_writing = true; started = ann ∷ [] }

abbrev pub busy_connection : Tcp.Connection
busy_connection = record {
  write_msgs = ann ∷ bob ∷ [];
  writing_flag = true;
  stopped = false;
  socket_open = true;
  started = ann ∷ [];
}

pub text_ne : (a b : Text) → text_eq a b ≡ false → a ≢ b
text_ne a b e = λ p. ground (arith, text_eq_iff a b)

pub not-IsTaken :
    (nick : Text) (a : ℕ) (s : Server) → lookup nick s.nicknames ≡ none → ¬ IsTaken nick a s
not-IsTaken nick a s e = λ (b, found, live, other). ground arith

pub server-IsRegistry : IsRegistry server.nicknames
unfolding is_invalid_nickname has_space is_space text_eq text_lt utf8
server-IsRegistry = record { valid = (refl, (refl, _)); ascending = ((refl, _), (_, _)) }

pub server-IsPlaced : IsPlaced server
unfolding lookup
server-IsPlaced = record { placed = λ p k (r, e, m). ground arith; unnamed = refl }

pub server-IsValid : IsValid server
server-IsValid = record {
  rooms = _;
  registry = server-IsRegistry;
  members = (omega arith, (omega arith, (omega arith, _)));
}
