-- ===== src/History/Reading.antt =====
-- src/MessageHistory.cpp: `read_last_lines`.
pub mod Lines
pub mod Tail
use memory_atlas_server.Prelude.{
  ℕ, zero, suc, ◌++◌, List, [], ◌∷◌, ◌==◌, ltb, if◌then◌else◌, none, some, Text, length, drop,
  lookup, is_empty,
}
use memory_atlas_server.History.Writing.{Disk}

-- The lines that `std::getline` delivers one after another; `line` holds what it has read of the
-- current one. A last line without a newline counts, unless it is empty.
unfoldable pub get_lines : Text → Text → List Text
get_lines line [] = if is_empty line then [] else line ∷ []
get_lines line (c ∷ file) =
    let next = line ∷ get_lines [] file in
    let longer = get_lines (line ++ c ∷ []) file in if c == b'\n' then next else longer

-- The loop over the bounded deque.
unfoldable pub tail_lines : ℕ → List Text → List Text → List Text
tail_lines limit tail [] = tail
tail_lines limit tail (line ∷ lines) =
    let pushed = tail ++ line ∷ [] in
    tail_lines limit (if ltb limit (length pushed) then drop 1 pushed else pushed) lines

unfoldable pub read_last_lines : Text → ℕ → Disk → List Text
read_last_lines filename limit disk = elim (lookup filename disk) [
  | none ↦ []
  | some file ↦
      let lines = get_lines [] file in if limit == 0 then lines else tail_lines limit [] lines
]
