-- ===== src/Sessions/Tcp/Lines.antt =====
-- How `on_read` cuts its buffer into lines.
use memory_atlas_server.Prelude.{
  List, [], ◌∷◌, ◌++◌, false, is_empty, Text, ◌≡◌, ◌≢◌, refl, ap, ◌∙◌, All, arith, append-nil,
  append_assoc,
}
use memory_atlas_server.History.Reading.{get_lines}
use memory_atlas_server.History.Reading.Lines.{unfinished, get_lines-append}
use memory_atlas_server.Sessions.Tcp.{drop_return, keep_lines, read_lines}

keep_lines-append : (xs ys : List Text) → keep_lines (xs ++ ys) ≡ keep_lines xs ++ keep_lines ys
unfolding keep_lines
keep_lines-append [] ys = refl
keep_lines-append (x ∷ xs) ys = ground (arith, keep_lines-append xs ys)

-- A text without a newline is one line for `std::getline`.
get_lines_of_fragment :
    (line fragment : Text)
    → All (λ c. c ≢ b'\n') fragment
    → is_empty (line ++ fragment) ≡ false
    → get_lines line fragment ≡ (line ++ fragment) ∷ []
unfolding get_lines
get_lines_of_fragment line [] h e = ground (arith, append-nil line)
get_lines_of_fragment line (c ∷ cs) h e =
    ground (arith, get_lines_of_fragment (line ++ c ∷ []) cs h.1, append_assoc line (c ∷ []) cs)

not_empty : (t : Text) → is_empty (drop_return t) ≡ false → is_empty t ≡ false
unfolding drop_return
not_empty [] e = e
not_empty (c ∷ cs) e = refl

-- Where the buffer of a TCP session ends in bytes without a newline behind complete lines,
-- `on_read` takes these bytes for a line too, although its end has not arrived.
pub read_lines-fragment :
    (complete fragment : Text)
    → unfinished [] complete ≡ []
    → All (λ c. c ≢ b'\n') fragment
    → is_empty (drop_return fragment) ≡ false
    → read_lines (complete ++ fragment) ≡ read_lines complete ++ drop_return fragment ∷ []
unfolding read_lines keep_lines
read_lines-fragment complete fragment u h e =
    ap keep_lines (get_lines-append [] complete fragment u)
    ∙ keep_lines-append (get_lines [] complete) (get_lines [] fragment)
    ∙ ap (λ t. keep_lines (get_lines [] complete) ++ keep_lines t)
        (get_lines_of_fragment [] fragment h (not_empty fragment e))
    ∙ ap (λ t. keep_lines (get_lines [] complete) ++ t) (rw e refl)
