-- ===== src/History/Writing.antt =====
-- src/MessageHistory.cpp: `append_history_line` over the POSIX calls, whose results are arguments.
pub mod Loop
pub mod Durability
use memory_atlas_server.Prelude.{
  ℕ, zero, suc, ◌++◌, List, [], ◌∷◌, Bool, true, false, not, ◌||◌, ◌&&◌, ◌==◌, if◌then◌else◌,
  Option, none, some, Text, utf8, text_eq, take, drop, length, Map, lookup, insert, is_empty,
}

-- What one call of `::write` answers: a count, -1 with `EINTR`, or another error.
pub data WriteResult : Type 0 where
  written : ℕ → WriteResult
  interrupted : WriteResult
  failed : WriteResult

-- The file system as far as the history uses it: path and content.
abbrev pub Disk : Type 0
Disk = Map Text

-- What the environment answers during one call: the clock, the calls of POSIX, `getenv`.
pub record Io : Type 0 where
  pub timestamp : Text
  pub opens : Bool
  pub writes : List WriteResult
  pub durable_writes : Option Text
  pub fsync_succeeds : Bool
  pub close_succeeds : Bool

-- How an append ends: it returned, it threw, or the listed results did not end the loop.
pub data Appended : Type 0 where
  done : Disk → Appended
  threw : Disk → Appended
  blocked : Disk → Appended

abbrev pub disk_of : Appended → Disk
disk_of (done d) = d
disk_of (threw d) = d
disk_of (blocked d) = d

-- The content of a file; a missing one reads as empty.
unfoldable pub content : Text → Disk → Text
content filename disk = elim (lookup filename disk) [ none ↦ [] | some bytes ↦ bytes ]

-- `O_APPEND`: the bytes go to the end of the file.
unfoldable pub extend : Text → Text → Disk → Disk
extend filename bytes disk = insert filename (content filename disk ++ bytes) disk

unfoldable pub durable_history_writes_enabled : Option Text → Bool
durable_history_writes_enabled none = false
durable_history_writes_enabled (some flag) = not (
    is_empty flag
    || text_eq flag (utf8 "0")
    || text_eq flag (utf8 "false")
    || text_eq flag (utf8 "FALSE"))

-- The `while (remaining > 0)` loop; `cursor` holds the bytes that remain.
unfoldable pub write_all : Text → Text → List WriteResult → Disk → Appended
write_all filename [] results disk = done disk
write_all filename (c ∷ cursor) [] disk = blocked disk
write_all filename (c ∷ cursor) (interrupted ∷ results) disk =
    write_all filename (c ∷ cursor) results disk
write_all filename (c ∷ cursor) (failed ∷ results) disk = threw disk
write_all filename (c ∷ cursor) (written zero ∷ results) disk = threw disk
write_all filename (c ∷ cursor) (written (suc n) ∷ results) disk =
    write_all filename (drop (suc n) (c ∷ cursor)) results
      (extend filename (take (suc n) (c ∷ cursor)) disk)

-- `fsync` and `close`, after the loop.
unfoldable pub finish : Io → Appended → Appended
finish io (threw disk) = threw disk
finish io (blocked disk) = blocked disk
finish io (done disk) =
    if durable_history_writes_enabled io.durable_writes && not io.fsync_succeeds
    then threw disk
    else if not io.close_succeeds
    then threw disk
    else done disk

-- `O_CREAT` makes an empty file where there is none.
unfoldable pub append_history_line : Io → Text → Text → Disk → Appended
append_history_line io filename line disk =
    if not io.opens
    then threw disk
    else finish io (write_all filename (line ++ b'\n' ∷ []) io.writes (extend filename [] disk))
