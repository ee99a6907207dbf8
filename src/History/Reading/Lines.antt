-- ===== src/History/Reading/Lines.antt =====
-- `std::getline` over a file that grows by whole lines.
use memory_atlas_server.Prelude.{
  ◌≡◌, refl, ap, ◌∙◌, List, [], ◌∷◌, ◌++◌, ◌==◌, if◌then◌else◌, arith, Text, append_assoc,
  append-nil, ◌≢◌, All,
}
use memory_atlas_server.History.Reading.{get_lines}

-- The bytes behind the last newline.
abbrev pub unfinished : Text → Text → Text
unfinished line [] = line
unfinished line (c ∷ file) = unfinished (if c == b'\n' then [] else line ++ c ∷ []) file

-- A text cut at its newlines: one piece more than there are newlines.
unfoldable pub pieces : Text → Text → List Text
pieces line [] = line ∷ []
pieces line (c ∷ file) =
    let next = line ∷ pieces [] file in
    let longer = pieces (line ++ c ∷ []) file in if c == b'\n' then next else longer

-- The lines of a text that is followed by a newline.
get_lines-append_newline : (line xs : Text) → get_lines line (xs ++ b'\n' ∷ []) ≡ pieces line xs
unfolding get_lines pieces
get_lines-append_newline line [] = refl
get_lines-append_newline line (c ∷ xs) =
    ground (arith, get_lines-append_newline [] xs, get_lines-append_newline (line ++ c ∷ []) xs)

pub get_lines-append :
    (line xs ys : Text)
    → unfinished line xs ≡ []
    → get_lines line (xs ++ ys) ≡ get_lines line xs ++ get_lines [] ys
unfolding get_lines
get_lines-append line [] ys e = ground arith
get_lines-append line (c ∷ xs) ys e =
    ground (arith, get_lines-append [] xs ys, get_lines-append (line ++ c ∷ []) xs ys)

-- An entry with its newline, behind a file whose last line is complete.
pub get_lines-append_entry :
    (file entry : Text)
    → unfinished [] file ≡ []
    → get_lines [] (file ++ (entry ++ b'\n' ∷ [])) ≡ get_lines [] file ++ pieces [] entry
get_lines-append_entry file entry e =
    get_lines-append [] file (entry ++ b'\n' ∷ []) e
    ∙ ap (◌++◌ (get_lines [] file)) (get_lines-append_newline [] entry)

unfinished-append :
    (line xs ys : Text) → unfinished line (xs ++ ys) ≡ unfinished (unfinished line xs) ys
unfinished-append line [] ys = refl
unfinished-append line (c ∷ xs) ys =
    unfinished-append (if c == b'\n' then [] else line ++ c ∷ []) xs ys

-- Such a file stays one.
pub unfinished-append_entry :
    (file entry : Text) → unfinished [] (file ++ (entry ++ b'\n' ∷ [])) ≡ []
unfinished-append_entry file entry =
    unfinished-append [] file (entry ++ b'\n' ∷ [])
    ∙ unfinished-append (unfinished [] file) entry (b'\n' ∷ [])

-- An entry without a newline is one line.
pub pieces_of_line :
    (line entry : Text) → All (λ c. c ≢ b'\n') entry → pieces line entry ≡ (line ++ entry) ∷ []
unfolding pieces
pieces_of_line line [] h = ground (arith, append-nil line)
pieces_of_line line (c ∷ entry) h =
    ground (arith, pieces_of_line (line ++ c ∷ []) entry h.1, append_assoc line (c ∷ []) entry)
