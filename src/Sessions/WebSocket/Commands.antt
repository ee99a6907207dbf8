-- ===== src/Sessions/WebSocket/Commands.antt =====
-- The commands that a client writes are the calls that the session makes.
use memory_atlas_server.Prelude.{
  [], ◌∷◌, ◌++◌, false, is_empty, some, Text, utf8, text_eq, ◌≡◌, refl, arith, ap, ◌∙◌, append-nil,
  subst,
}
use memory_atlas_server.Chat.State.{Session}
use memory_atlas_server.Chat.Nicknames.{is_space, has_space}
use memory_atlas_server.Sessions.Words.{
  skip_spaces, word_of, after_word, read_word, rest_of_line, drop_blanks,
}
use memory_atlas_server.Sessions.Words.Commands.{read_word-word, has_newline, rest_of_line-whole}
use memory_atlas_server.Sessions.WebSocket.{
  registers, enters, leaves_room, whispers, process_message, process_command, command_call,
}

-- A WebSocket line `/pm nick message`, where the nickname has no space, the message starts with no
-- blank and has no newline, and both are not empty, is a private message of exactly that text to
-- exactly that nickname.
pub process_message-pm :
    (v : Session) (nick message : Text)
    → is_empty nick ≡ false
    → has_space nick ≡ false
    → is_empty message ≡ false
    → drop_blanks message ≡ message
    → has_newline message ≡ false
    → process_message (utf8 "/pm " ++ (nick ++ b' ' ∷ message)) v ≡ some (whispers nick message)
unfolding process_message process_command command_call utf8 skip_spaces word_of after_word is_space
    text_eq rest_of_line drop_blanks read_word
process_message-pm v nick message e h e' d n =
    let f : read_word (b' ' ∷ nick ++ b' ' ∷ message) ≡ (nick, b' ' ∷ message) =
      read_word-word nick _ e h refl in
    ap (λ w. some (command_call (utf8 "/pm") w.0 w.1)) f
    ∙ rw (rest_of_line-whole message n, d) ground arith

-- The WebSocket lines `/nick word`, `/join word` and `/leave word`, for a word that is not empty
-- and has no space, are the calls for exactly that word.
pub process_message-word :
    (v : Session) (word : Text)
    → is_empty word ≡ false
    → has_space word ≡ false
    → (process_message (utf8 "/nick " ++ word) v ≡ some (registers word))
      × (process_message (utf8 "/join " ++ word) v ≡ some (enters word))
      × (process_message (utf8 "/leave " ++ word) v ≡ some (leaves_room word))
unfolding process_message process_command command_call utf8 skip_spaces word_of after_word is_space
    text_eq read_word
process_message-word v word e h =
    let f : read_word (b' ' ∷ word) ≡ (word, []) =
      subst (λ t. read_word (b' ' ∷ t) ≡ (word, [])) (append-nil word)
        (read_word-word word [] e h refl) in
    (
      ap (λ w. some (command_call (utf8 "/nick") w.0 w.1)) f ∙ rw e refl,
      ap (λ w. some (command_call (utf8 "/join") w.0 w.1)) f ∙ rw e refl,
      ap (λ w. some (command_call (utf8 "/leave") w.0 w.1)) f ∙ rw e refl,
    )
