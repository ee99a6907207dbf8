-- ===== src/Sessions/Words/Commands.antt =====
-- What the words of a line written by a client are.
use memory_atlas_server.Prelude.{
  [], ◌∷◌, ◌++◌, Bool, true, false, ◌||◌, ◌==◌, Text, ◌≡◌, refl, is_empty, arith,
}
use memory_atlas_server.Chat.Nicknames.{is_space, has_space}
use memory_atlas_server.Sessions.Words.{skip_spaces, word_of, after_word, read_word, rest_of_line}

pub skip_spaces-word :
    (w t : Text) → is_empty w ≡ false → has_space w ≡ false → skip_spaces (w ++ t) ≡ w ++ t
unfolding skip_spaces has_space
skip_spaces-word [] t e h = ground arith
skip_spaces-word (c ∷ cs) t e h = ground arith

-- A word ends at the end of the line or before a space.
abbrev pub is_word_end : Text → Bool
is_word_end [] = true
is_word_end (c ∷ cs) = is_space c

pub word_of-word : (w t : Text) → has_space w ≡ false → is_word_end t ≡ true → word_of (w ++ t) ≡ w
unfolding word_of has_space
word_of-word [] [] h e = refl
word_of-word [] (c ∷ cs) h e = ground arith
word_of-word (c ∷ cs) t h e = ground (arith, word_of-word cs t)

pub after_word-word :
    (w t : Text) → has_space w ≡ false → is_word_end t ≡ true → after_word (w ++ t) ≡ t
unfolding after_word has_space
after_word-word [] [] h e = refl
after_word-word [] (c ∷ cs) h e = ground arith
after_word-word (c ∷ cs) t h e = ground (arith, after_word-word cs t)

unfoldable pub has_newline : Text → Bool
has_newline [] = false
has_newline (c ∷ cs) = c == b'\n' || has_newline cs

pub rest_of_line-whole : (t : Text) → has_newline t ≡ false → rest_of_line t ≡ t
unfolding rest_of_line has_newline
rest_of_line-whole [] h = refl
rest_of_line-whole (c ∷ cs) h = ground (arith, rest_of_line-whole cs)

-- The first word behind a space.
pub read_word-word :
    (w t : Text)
    → is_empty w ≡ false
    → has_space w ≡ false
    → is_word_end t ≡ true
    → read_word (b' ' ∷ w ++ t) ≡ (w, t)
unfolding read_word skip_spaces is_space
read_word-word w t e h k =
    rw (skip_spaces-word w t e h, word_of-word w t h k, after_word-word w t h k) refl
