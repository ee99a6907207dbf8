-- ===== src/Chat/Nicknames.antt =====
-- src/ChatServer.cpp: the registry of nicknames.
pub mod Registry
pub mod Faults
pub mod Releasing
pub mod Registration
use memory_atlas_server.Prelude.{
  ℕ, List, [], ◌∷◌, Bool, true, false, not, ◌||◌, ◌&&◌, ltb, ◌==◌, if◌then◌else◌, Option, none,
  some, is_empty, is_some, length, Text, utf8, text_eq, Map, lookup, insert, erase,
}
use memory_atlas_server.Chat.State.{Server, Session, nickname, has_proper_nickname}
use memory_atlas_server.Chat.Broadcast.{lock}

-- `" \t\n\r\f\v"`
unfoldable pub is_space : ℕ → Bool
is_space c = c == b' ' || c == 9 || c == 10 || c == 13 || c == 12 || c == 11

-- `find_first_of(…) != npos`
unfoldable pub has_space : Text → Bool
has_space [] = false
has_space (c ∷ cs) = is_space c || has_space cs

-- The pre-check of `try_register_nickname_async`.
unfoldable pub is_invalid_nickname : Text → Bool
is_invalid_nickname nick =
    is_empty nick
    || has_space nick
    || ltb 20 (length nick)
    || text_eq nick (utf8 "Server")
    || text_eq nick (utf8 "system")

-- What the search of the new nickname decides, and the map after the removal of an expired entry.
unfoldable pub can_register : Text → ℕ → Server → Bool × Map ℕ
can_register nick session s = elim (lookup nick s.nicknames) [
  | none ↦ (true, s.nicknames)
  | some owner ↦
      if not (s.session_at owner).alive
      then (true, erase nick s.nicknames)
      else (owner == session, s.nicknames)
]

-- The removal of the old nickname. `none` stands for the undefined behaviour of `old_it->second`
-- at the end of the map: the source does not compare `old_it` with `end()`.
unfoldable pub drop_old_nickname : Text → ℕ → Server → Map ℕ → Option (Map ℕ)
drop_old_nickname nick session s names =
    let old_nick = nickname s.hub session in
    if not (text_eq old_nick nick) && has_proper_nickname (s.session_at session)
    then elim (lookup old_nick names) [
      | none ↦ none
      | some owner ↦ some (
          if owner == session && (s.session_at owner).alive
          then erase old_nick names
          else if not (s.session_at owner).alive
          then erase old_nick names
          else names)
    ]
    else some names

-- The body on the strand. `none` is a fault; the Boolean is what the handler gets.
unfoldable pub try_register_nickname_impl : Text → ℕ → Server → Option (Server × Bool)
try_register_nickname_impl nick session s =
    if not (s.session_at session).alive
    then some (s, false)
    else let (allowed, names) = can_register nick session s in
      if not allowed
      then some (record s { nicknames = names }, false)
      else elim (drop_old_nickname nick session s names) [
        | none ↦ none
        | some kept ↦ some (record s { nicknames = insert nick session kept }, true)
      ]

unfoldable pub try_register_nickname : Text → ℕ → Server → Option (Server × Bool)
try_register_nickname nick session s =
    if s.stopped || is_invalid_nickname nick
    then some (s, false)
    else try_register_nickname_impl nick session s

unfoldable pub unregister_nickname : Text → Server → Server
unregister_nickname nick s =
    if is_empty nick then s else record s { nicknames = erase nick s.nicknames }

-- The scan of `get_user_list_async`: the live nicknames, and the map without the expired ones.
unfoldable pub scan_users : (ℕ → Session) → Map ℕ → List Text × Map ℕ
scan_users at [] = ([], [])
scan_users at ((nick, a) ∷ names) =
    let (user_list, kept) = scan_users at names in
    if (at a).alive then (nick ∷ user_list, (nick, a) ∷ kept) else (user_list, kept)

unfoldable pub get_user_list : Server → Server × List Text
get_user_list s =
    let (user_list, kept) = scan_users s.session_at s.nicknames in
    if s.stopped then (s, []) else (record s { nicknames = kept }, user_list)
