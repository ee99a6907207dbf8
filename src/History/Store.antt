-- ===== src/History/Store.antt =====
-- src/MessageHistory.cpp: the class. The mutex makes each call one step; the time, the results of
-- the POSIX calls and those of the `std::filesystem` calls come as an `Io`.
pub mod RoundTrip
use memory_atlas_server.Prelude.{
  ℕ, ◌++◌, List, [], ◌∷◌, Bool, true, false, ◌&&◌, not, if◌then◌else◌, none, some, Text, utf8,
  is_empty, lookup, is_some,
}
use memory_atlas_server.History.Paths.{global_file, private_file, room_file}
use memory_atlas_server.History.Writing.{Disk, Io, disk_of, append_history_line}
use memory_atlas_server.History.Reading.{read_last_lines}

pub record History : Type 0 where
  pub history_dir : Text
  pub enabled : Bool
  pub disk : Disk

-- The constructor: `created` says that the directories exist now, that is, nothing threw.
pub init : Text → Bool → Disk → History
init history_dir created disk = record { history_dir = history_dir; enabled = created; disk = disk }

unfoldable pub set_enabled : Bool → History → History
set_enabled enabled h = record h { enabled = enabled }

pub is_enabled : History → Bool
is_enabled h = h.enabled

-- `sender.empty() ? "system" : sender`
abbrev pub shown : Text → Text
shown sender = if is_empty sender then utf8 "system" else sender

unfoldable pub public_entry : Text → Text → Text → Text
public_entry timestamp message sender =
    timestamp ++ (utf8 " [" ++ (shown sender ++ (utf8 "]: " ++ message)))

unfoldable pub private_entry : Text → Text → Text → Text → Text
private_entry timestamp message sender receiver =
    timestamp ++ (utf8 " [" ++ (sender ++ (utf8 " -> " ++ (receiver ++ (utf8 "]: " ++ message)))))

-- An append whose exception is caught and logged: the disk stays as the attempt left it.
unfoldable pub log_line : Io → Text → Text → History → History
log_line io filename entry h = record h {
  disk = disk_of (append_history_line io filename entry h.disk);
}

unfoldable pub log_global_message : Io → Text → Text → History → History
log_global_message io message sender h =
    if not h.enabled
    then h
    else log_line io (global_file h.history_dir) (public_entry io.timestamp message sender) h

unfoldable pub log_private_message : Io → Text → Text → Text → History → History
log_private_message io message sender receiver h =
    if not h.enabled
    then h
    else log_line io (private_file h.history_dir sender receiver)
        (private_entry io.timestamp message sender receiver) h

unfoldable pub log_room_message : Io → Text → Text → Text → History → History
log_room_message io room_name message sender h =
    if not h.enabled
    then h
    else log_line io (room_file h.history_dir room_name) (public_entry io.timestamp message sender)
        h

-- The guards of the three loads: disabled, then `fs::exists`.
unfoldable pub load_lines : Text → ℕ → History → List Text
load_lines filename limit h =
    if not h.enabled
    then []
    else if not (is_some (lookup filename h.disk))
    then []
    else read_last_lines filename limit h.disk

unfoldable pub load_global_history : ℕ → History → List Text
load_global_history limit h = load_lines (global_file h.history_dir) limit h

unfoldable pub load_private_history : Text → Text → ℕ → History → List Text
load_private_history user1 user2 limit h =
    load_lines (private_file h.history_dir user1 user2) limit h

unfoldable pub load_room_history : Text → ℕ → History → List Text
load_room_history room_name limit h = load_lines (room_file h.history_dir room_name) limit h
