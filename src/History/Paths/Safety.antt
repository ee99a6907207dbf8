-- ===== src/History/Paths/Safety.antt =====
-- File names cannot leave the history directory, and a conversation has one file.
use memory_atlas_server.Prelude.{
  ℕ, ◌≤◌, ◌≡◌, ◌≢◌, refl, [], ◌∷◌, arith, length, All, Text, text_lt_asymm, text_lt_total, utf8,
}
use memory_atlas_server.History.Paths.{
  is_alnum, safe_char, safe_chars, safe_path_component, private_file,
}

-- No separator, no dot, no end of a C string, and ASCII only.
abbrev pub IsPlain : ℕ → Type 0
IsPlain c = (c ≢ b'/') × (c ≢ b'.') × (c ≢ 0) × (c ≤ 127)

safe_char-IsPlain : (c : ℕ) → IsPlain (safe_char c)
unfolding safe_char is_alnum
safe_char-IsPlain c = ground arith

safe_chars-IsPlain : (value : Text) → All IsPlain (safe_chars value)
unfolding safe_chars
safe_chars-IsPlain [] = tt
safe_chars-IsPlain (c ∷ value) = (safe_char-IsPlain c, safe_chars-IsPlain value)

-- A path component is never empty, and holds only ASCII bytes that are neither a separator nor a
-- dot nor zero, whatever the name was.
pub safe_path_component-IsPlain :
    (value : Text) → All IsPlain (safe_path_component value) × (safe_path_component value ≢ [])
unfolding safe_path_component safe_chars utf8
safe_path_component-IsPlain [] = (omega arith, λ e. cc)
safe_path_component-IsPlain (c ∷ value) = (safe_chars-IsPlain (c ∷ value), λ e. cc)

-- Both sides of a conversation read and write one file, whoever is named first.
pub private_file_comm :
    (history_dir a b : Text) → private_file history_dir a b ≡ private_file history_dir b a
unfolding private_file
private_file_comm dir a b = ground (
  arith,
  text_lt_asymm (safe_path_component a) (safe_path_component b),
  text_lt_asymm (safe_path_component b) (safe_path_component a),
  text_lt_total (safe_path_component a) (safe_path_component b),
)

safe_chars_of_high :
    (a b : Text)
    → All (λ c. 128 ≤ c) a
    → All (λ c. 128 ≤ c) b
    → length a ≡ length b
    → safe_chars a ≡ safe_chars b
unfolding safe_chars safe_char is_alnum
safe_chars_of_high [] [] h k e = refl
safe_chars_of_high [] (y ∷ ys) h k e = absurd (omega arith)
safe_chars_of_high (x ∷ xs) [] h k e = absurd (omega arith)
safe_chars_of_high (x ∷ xs) (y ∷ ys) h k e = ground (arith, safe_chars_of_high xs ys h.1 k.1)

-- Two names that are all outside ASCII and equally long in bytes share the file of their private
-- messages with any third party, whatever the names are.
pub private_file_shared :
    (history_dir a b other : Text)
    → All (λ c. 128 ≤ c) a
    → All (λ c. 128 ≤ c) b
    → length a ≡ length b
    → private_file history_dir a other ≡ private_file history_dir b other
unfolding private_file safe_path_component
private_file_shared dir a b other h k e = rw (safe_chars_of_high a b h k e)
