-- ===== src/Sessions/Tcp/System/Speaking.antt =====
-- What a TCP client says reaches the sockets of the other members.
use memory_atlas_server.Prelude.{
  ℕ, [], ◌∷◌, ◌++◌, append-nil, append_assoc, false, is_empty, ◌==◌, some, Text, utf8, ◌≡◌, ◌≢◌,
  refl, ap, ◌∙◌, arith, All,
}
use memory_atlas_server.History.Writing.{Io}
use memory_atlas_server.History.Reading.{get_lines}
use memory_atlas_server.Chat.State.{crlf}
use memory_atlas_server.Chat.Broadcast.{broadcast}
use memory_atlas_server.Chat.Nicknames.{is_space}
use memory_atlas_server.Sessions.Tcp.{drop_return, keep_lines, read_lines, process_command, says}
use memory_atlas_server.Sessions.Tcp.Calls.{perform}
use memory_atlas_server.Sessions.Tcp.System.{System, with_tcp, do_read, act, act_all, process_lines}

get_lines_of_line :
    (line text : Text)
    → All (λ c. c ≢ b'\n') text
    → get_lines line (text ++ b'\n' ∷ []) ≡ (line ++ text) ∷ []
unfolding get_lines
get_lines_of_line line [] h = ground (arith, append-nil line)
get_lines_of_line line (c ∷ cs) h =
    ground (arith, get_lines_of_line (line ++ c ∷ []) cs h.1, append_assoc line (c ∷ []) cs)

-- A line that is no command: it starts with neither a space nor a slash, and holds no line end.
pub record IsSaid (line : Text) : Type 0 where
  pub starts :
      (c : ℕ) × (cs : Text) × (line ≡ c ∷ cs) × (is_space c ≡ false) × ((c == b'/') ≡ false)
  pub one_line : All (λ c. c ≢ b'\n') line
  pub no_return : drop_return line ≡ line

pub read_lines-said : (line : Text) → IsSaid line → read_lines (line ++ b'\n' ∷ []) ≡ line ∷ []
unfolding read_lines keep_lines
read_lines-said line h =
    let (c, cs, e, _, _) = h.starts in
    let full : is_empty (drop_return line) ≡ false = ap is_empty (h.no_return ∙ e) in
    ap keep_lines (get_lines_of_line [] line h.one_line) ∙ rw full (ap (λ l. l ∷ []) h.no_return)

-- What the members get of it.
unfoldable pub chat_text : Text → Text → Text
chat_text nick line = utf8 "[" ++ (nick ++ (utf8 "]: " ++ (line ++ crlf)))

-- The one action of the line.
one_line :
    (io : ℕ → Io) (a : ℕ) (line msg : Text) (τ : System)
    → process_command line (τ.server.session_at a) (τ.tcp_session a).connection ≡ says msg ∷ []
    → process_lines io 0 a (line ∷ []) τ
      ≡ some (record τ { server = broadcast (io 0) msg (some a) τ.server })
unfolding process_lines act_all act perform
one_line io a line msg τ e = rw (e, process_lines) refl

-- The system while the line is read.
abbrev reading_line : ℕ → System → System
reading_line a σ = with_tcp a (record (σ.tcp_session a) { reading = false }) σ

-- The system after the line, whose client reads on.
abbrev after_line : Io → ℕ → Text → System → System
after_line io a msg σ =
    let τ : System = record (reading_line a σ) { server = broadcast io msg (some a) σ.server } in
    with_tcp a (do_read (τ.tcp_session a)) τ
