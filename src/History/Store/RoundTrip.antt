-- ===== src/History/Store/RoundTrip.antt =====
-- What is logged is loaded again, for any limit.
use memory_atlas_server.Prelude.{
  ℕ, ◌≡◌, refl, ap, ◌∙◌, inl, inr, List, [], ◌∷◌, ◌++◌, true, false, arith, Option-cases, ◌==◌,
  if◌then◌else◌, Text, text_eq, text_eq_refl, lookup,
}
use memory_atlas_server.History.Paths.{global_file, private_file, room_file}
use memory_atlas_server.History.Paths.Safety.{private_file_comm}
use memory_atlas_server.History.Writing.{Disk, Io, done, content, disk_of, append_history_line}
use memory_atlas_server.History.Writing.Durability.{append_history_line-done}
use memory_atlas_server.History.Reading.{get_lines, read_last_lines}
use memory_atlas_server.History.Reading.Tail.{last, tail_lines-last}
use memory_atlas_server.History.Reading.Lines.{unfinished, pieces, get_lines-append_entry}
use memory_atlas_server.History.Store.{
  History, public_entry, private_entry, log_line, log_global_message, log_private_message,
  log_room_message, load_lines, set_enabled, load_global_history, load_private_history,
  load_room_history,
}

-- A limit of zero asks for everything.
abbrev pub window {ℓ} : {A : Type ℓ} → ℕ → List A → List A
window limit xs = if limit == 0 then xs else last limit xs

-- A load gives the last lines of the file, and nothing for a missing file.
pub load_lines-window :
    (f : Text) (limit : ℕ) (h : History)
    → h.enabled ≡ true
    → load_lines f limit h ≡ window limit (get_lines [] (content f h.disk))
unfolding load_lines read_last_lines content get_lines
load_lines-window f limit h on = elim (Option-cases (lookup f h.disk)) [
  | inl missing ↦ ground arith
  | inr (file, found) ↦ ground (arith, tail_lines-last limit [] (get_lines [] file))
]

-- The last line of the file is complete, as after every whole append.
abbrev pub IsClosed : Text → History → Type 0
IsClosed f h = unfinished [] (content f h.disk) ≡ []

-- The append returned, with this disk.
abbrev pub Returns : Io → Text → Text → History → Disk → Type 0
Returns io f entry h d = append_history_line io f entry h.disk ≡ done d

module _ (io : Io) (f entry : Text) (limit : ℕ) (h : History) (d : Disk) (on : h.enabled ≡ true)
    (whole : IsClosed f h) (returned : Returns io f entry h d) where
  logged : History
  unfolding log_line
  logged = log_line io f entry h

  logged-disk : logged.disk ≡ d
  unfolding logged log_line
  logged-disk = ap disk_of returned

  content_after :
      (g : Text)
      → content g logged.disk
        ≡ (if text_eq f g then content f h.disk ++ (entry ++ b'\n' ∷ []) else content g h.disk)
  content_after g = rw logged-disk ((append_history_line-done io f entry h.disk d returned).0 g)

  lines_after :
      (g : Text)
      → get_lines [] (content g logged.disk) ≡ (
          if text_eq f g
          then get_lines [] (content f h.disk) ++ pieces [] entry
          else get_lines [] (content g h.disk))
  lines_after g =
      ground (arith, content_after g, get_lines-append_entry (content f h.disk) entry whole)

  -- The lines of the entry come last; every other file loads as before.
  pub load_lines-log_line :
      (g : Text)
      → load_lines g limit (log_line io f entry h)
        ≡ window limit
            (if text_eq f g then load_lines f 0 h ++ pieces [] entry else load_lines g 0 h)
  unfolding logged log_line
  load_lines-log_line g =
      load_lines-window g limit logged on
      ∙ ap (window limit)
          (ground (arith, lines_after g, load_lines-window f 0 h on, load_lines-window g 0 h on))

module _ (io : Io) (h : History) (on : h.enabled ≡ true) where
  log_global_message_on :
      (message sender : Text)
      → log_global_message io message sender h
        ≡ log_line io (global_file h.history_dir) (public_entry io.timestamp message sender) h
  unfolding log_global_message
  log_global_message_on message sender = simp on

  log_private_message_on :
      (message sender receiver : Text)
      → log_private_message io message sender receiver h
        ≡ log_line io
            (private_file h.history_dir sender receiver)
            (private_entry io.timestamp message sender receiver)
            h
  unfolding log_private_message
  log_private_message_on message sender receiver = simp on

  log_room_message_on :
      (room message sender : Text)
      → log_room_message io room message sender h
        ≡ log_line io (room_file h.history_dir room) (public_entry io.timestamp message sender) h
  unfolding log_room_message
  log_room_message_on room message sender = simp on

  -- The file that was written to.
  load_lines-log_line_self :
      (f entry : Text) (limit : ℕ) (d : Disk)
      → IsClosed f h
      → Returns io f entry h d
      → load_lines f limit (log_line io f entry h)
        ≡ window limit (load_lines f 0 h ++ pieces [] entry)
  load_lines-log_line_self f entry limit d whole returned =
      load_lines-log_line io f entry limit h d on whole returned f
      ∙ ap (window limit) (rw (text_eq_refl f))

-- Where the history is enabled, the file ends with a newline or is empty, and the append returns,
-- a global message that was logged is loaded as the last entry of the global history: all of it
-- for the limit zero, and otherwise the last `limit` lines of all that was logged. A message with
-- newlines makes a line for each piece.
pub load_global_history-log_global_message :
    (io : Io) (message sender : Text) (limit : ℕ) (h : History) (d : Disk)
    → h.enabled ≡ true
    → IsClosed (global_file h.history_dir) h
    → Returns io (global_file h.history_dir) (public_entry io.timestamp message sender) h d
    → load_global_history limit (log_global_message io message sender h)
      ≡ window limit
          (load_global_history 0 h ++ pieces [] (public_entry io.timestamp message sender))
unfolding load_global_history log_line
load_global_history-log_global_message io message sender limit h d on whole returned =
    rw (log_global_message_on io h on message sender) (
      load_lines-log_line_self io h on (global_file h.history_dir)
        (public_entry io.timestamp message sender) limit d whole returned)

-- Where the history is enabled, the file ends with a newline or is empty, and the append returns,
-- a private message from one user to another is loaded as the last entry of their conversation,
-- with the two named in the other order.
pub load_private_history-log_private_message :
    (io : Io) (message sender receiver : Text) (limit : ℕ) (h : History) (d : Disk)
    → h.enabled ≡ true
    → IsClosed (private_file h.history_dir sender receiver) h
    → Returns io
        (private_file h.history_dir sender receiver)
        (private_entry io.timestamp message sender receiver)
        h
        d
    → load_private_history receiver sender limit (log_private_message io message sender receiver h)
      ≡ window limit (
          load_private_history sender receiver 0 h
          ++ pieces [] (private_entry io.timestamp message sender receiver))
unfolding load_private_history log_line
load_private_history-log_private_message io message sender receiver limit h d on whole returned =
    rw (log_private_message_on io h on message sender receiver) (
      ap
        (λ f. load_lines f limit (
          log_line io (private_file h.history_dir sender receiver)
            (private_entry io.timestamp message sender receiver) h))
        (private_file_comm h.history_dir receiver sender)
      ∙ load_lines-log_line_self io h on (private_file h.history_dir sender receiver)
          (private_entry io.timestamp message sender receiver) limit d whole returned)

-- Where the history is enabled, the file ends with a newline or is empty, and the append returns,
-- a room message is loaded as the last entry of its room's history, and the history of a room with
-- another file loads as before.
pub load_room_history-log_room_message :
    (io : Io) (room other message sender : Text) (limit : ℕ) (h : History) (d : Disk)
    → h.enabled ≡ true
    → IsClosed (room_file h.history_dir room) h
    → Returns io (room_file h.history_dir room) (public_entry io.timestamp message sender) h d
    → load_room_history other limit (log_room_message io room message sender h)
      ≡ window limit (
          if text_eq (room_file h.history_dir room) (room_file h.history_dir other)
          then load_room_history room 0 h ++ pieces [] (public_entry io.timestamp message sender)
          else load_room_history other 0 h)
unfolding load_room_history log_line
load_room_history-log_room_message io room other message sender limit h d on whole returned =
    rw (log_room_message_on io h on room message sender) (
      load_lines-log_line io (room_file h.history_dir room)
        (public_entry io.timestamp message sender) limit h d on whole returned
        (room_file h.history_dir other))

-- While the history is disabled nothing is logged and nothing is loaded.
pub disabled_history :
    (io : Io) (a b c : Text) (limit : ℕ) (h : History)
    → let off = set_enabled false h in
      (log_global_message io a b off ≡ off)
      × (log_private_message io a b c off ≡ off)
      × (log_room_message io a b c off ≡ off)
      × (load_global_history limit off ≡ [])
      × (load_private_history a b limit off ≡ [])
      × (load_room_history a limit off ≡ [])
unfolding log_global_message log_private_message log_room_message load_global_history
    load_private_history load_room_history load_lines set_enabled
disabled_history io a b c limit h = (refl, refl, refl, refl, refl, refl)
