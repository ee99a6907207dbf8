-- ===== src/Sessions/Words.antt =====
-- Words of a line, as `std::istringstream` reads them.
pub mod Commands
use memory_atlas_server.Prelude.{
  ℕ, List, [], ◌∷◌, Bool, true, false, not, ◌||◌, ◌==◌, if◌then◌else◌, Text,
}
use memory_atlas_server.Chat.Nicknames.{is_space}

-- `iss >> word` on the rest of the line: the word, empty when none is left, and the rest after it.
unfoldable pub skip_spaces : Text → Text
skip_spaces [] = []
skip_spaces (c ∷ cs) = if is_space c then skip_spaces cs else c ∷ cs

unfoldable pub word_of : Text → Text
word_of [] = []
word_of (c ∷ cs) = if is_space c then [] else c ∷ word_of cs

unfoldable pub after_word : Text → Text
after_word [] = []
after_word (c ∷ cs) = if is_space c then c ∷ cs else after_word cs

unfoldable pub read_word : Text → Text × Text
read_word line = (word_of (skip_spaces line), after_word (skip_spaces line))

-- `std::getline(iss, rest)`, which stops before a newline.
unfoldable pub rest_of_line : Text → Text
rest_of_line [] = []
rest_of_line (c ∷ cs) = if c == b'\n' then [] else c ∷ rest_of_line cs

-- `s.erase(0, s.find_first_not_of(" \t"))`
unfoldable pub drop_blanks : Text → Text
drop_blanks [] = []
drop_blanks (c ∷ cs) = if c == b' ' || c == b'\t' then drop_blanks cs else c ∷ cs
