-- ===== src/History/Paths.antt =====
-- src/MessageHistory.cpp: `safe_path_component` and the names of the files.
pub mod Safety
use memory_atlas_server.Prelude.{
  ℕ, ◌++◌, List, [], ◌∷◌, Bool, ◌||◌, ◌&&◌, leb, ◌==◌, if◌then◌else◌, Text, utf8, text_lt, is_empty,
}

-- `std::isalnum` of the "C" locale.
unfoldable pub is_alnum : ℕ → Bool
is_alnum c = (leb b'0' c && leb c b'9') || (leb b'A' c && leb c b'Z') || (leb b'a' c && leb c b'z')

-- One round of the loop.
unfoldable pub safe_char : ℕ → ℕ
safe_char ch = if is_alnum ch || ch == b'-' || ch == b'_' then ch else b'_'

unfoldable pub safe_chars : Text → Text
safe_chars [] = []
safe_chars (ch ∷ value) = safe_char ch ∷ safe_chars value

unfoldable pub safe_path_component : Text → Text
safe_path_component value =
    let result = safe_chars value in if is_empty result then utf8 "unknown" else result

-- `history_dir_ + "/global/history.txt"`
unfoldable pub global_file : Text → Text
global_file history_dir = history_dir ++ utf8 "/global/history.txt"

-- The two components in order, whoever sends.
unfoldable pub private_file : Text → Text → Text → Text
private_file history_dir sender receiver =
    let user1 = safe_path_component sender in
    let user2 = safe_path_component receiver in
    let first = if text_lt user2 user1 then user2 else user1 in
    let second = if text_lt user2 user1 then user1 else user2 in
    history_dir ++ (utf8 "/private/" ++ (first ++ (utf8 "_" ++ (second ++ utf8 ".txt"))))

unfoldable pub room_file : Text → Text → Text
room_file history_dir room_name =
    history_dir ++ (utf8 "/rooms/" ++ (safe_path_component room_name ++ utf8 ".txt"))
