-- ===== src/Sessions/WebSocket/System/Speaking.antt =====
-- What a WebSocket client says reaches the streams of the other members.
use memory_atlas_server.Prelude.{
  ℕ, ◌+◌, ◌≤◌, [], ◌∷◌, ◌++◌, length, drop, drop-append_left, true, false, ◌==◌, some, Text, utf8,
  ◌≡◌, refl, ap, ◌∙◌, arith, Above, member, length-append,
}
use memory_atlas_server.History.Writing.{Io}
use memory_atlas_server.Chat.State.{Server, relayed, nickname, current_room}
use memory_atlas_server.Chat.Broadcast.{broadcast}
use memory_atlas_server.Chat.Server.Posting.{broadcast-Extends}
use memory_atlas_server.Sessions.Posted.{posted_to, posted_to-broadcast, arrivals, arrivals-last}
use memory_atlas_server.Sessions.WebSocket.{process_message}
use memory_atlas_server.Sessions.WebSocket.Writing.{taken}
use memory_atlas_server.Sessions.WebSocket.Calls.{perform, perform_all, got, on_read}
use memory_atlas_server.Sessions.WebSocket.System.{
  System, with_ws, after_read, end_read, reads, step, run,
}
use memory_atlas_server.Sessions.WebSocket.System.Continuing.{elsewhere}
use memory_atlas_server.Sessions.WebSocket.System.Ordering.{IsOrdered, continued}
use memory_atlas_server.Sessions.WebSocket.System.Draining.{pending, pending-reaches}

-- What the members get of a message.
unfoldable pub chat_text : Text → Text → Text
chat_text nick text = utf8 "[" ++ (nick ++ (utf8 "]: " ++ text))

said :
    (io : Io) (a c : ℕ) (cs : Text) (s : Server)
    → (c == b'/') ≡ false
    → current_room s.hub a ≡ []
    → on_read io (got (c ∷ cs)) a s
      ≡ some (broadcast io (chat_text (nickname s.hub a) (c ∷ cs)) (some a) s, true)
unfolding on_read process_message perform_all perform chat_text
said io a c cs s plain room = simp (plain, room) refl

-- The system after the message, whose client reads on.
abbrev after_message : Io → ℕ → Text → System → System
after_message io a msg σ =
    with_ws a (record (σ.ws_session a) { reading = true }) (broadcast io msg (some a) σ.server) σ

reads_message :
    (io : Io) (a c : ℕ) (cs : Text) (σ : System)
    → (σ.ws_session a).reading ≡ true
    → (c == b'/') ≡ false
    → current_room σ.server.hub a ≡ []
    → step (reads io (got (c ∷ cs)) a) σ
      ≡ some (after_message io a (chat_text (nickname σ.server.hub a) (c ∷ cs)) σ)
unfolding step end_read
reads_message io a c cs σ reading plain room =
    simp reading (ap (after_read a σ) (said io a c cs σ.server plain room))

-- When a WebSocket session that is in no room reads a message which is not empty and no command,
-- on a running server with distinct members, and another member's WebSocket session is in order
-- and has at most ninety-nine messages that wait in its queue or for its tasks: with no more than
-- these tasks, those that they post, and the writes, what it took before gets to its stream, then
-- each message whose `deliver` waits, then each broadcast that waits to be delivered, both once
-- and in order, and last the message behind the speaker's nickname.
pub message-reaches :
    (io : Io) (a b c : ℕ) (cs : Text) (σ : System)
    → σ.server.stopped ≡ false
    → Above 0 σ.server.sessions
    → member b σ.server.sessions ≡ true
    → (a == b) ≡ false
    → (σ.ws_session a).reading ≡ true
    → (c == b'/') ≡ false
    → current_room σ.server.hub a ≡ []
    → IsOrdered b σ
    → length (σ.ws_session b).queue.write_msgs
        + (length (arrivals (drop (σ.ws_session b).delivered (posted_to b σ.server.posted))) + 1)
      ≤ 100
    → (τ σ' : System) × (step (reads io (got (c ∷ cs)) a) σ ≡ some τ)
      × (run (pending io b τ) τ ≡ some σ')
      × ((σ'.ws_session b).queue.started
          ≡ taken (σ.ws_session b).queue
            ++ (arrivals (drop (σ.ws_session b).delivered (posted_to b σ.server.posted))
                ++ chat_text (nickname σ.server.hub a) (c ∷ cs) ∷ []))
message-reaches io a b c cs σ up distinct m other reading plain room k free =
    let msg = chat_text (nickname σ.server.hub a) (c ∷ cs) in
    let τ = after_message io a msg σ in
    let t = σ.ws_session b in
    let before = posted_to b σ.server.posted in
    let rest = drop t.delivered before in
    let left : drop t.delivered (posted_to b τ.server.posted) ≡ rest ++ relayed msg ∷ [] =
      ap (drop t.delivered) (posted_to-broadcast io a b msg σ.server up distinct m other)
      ∙ drop-append_left t.delivered before (relayed msg ∷ []) k.in_bounds in
    let last : arrivals (drop t.delivered (posted_to b τ.server.posted))
        ≡ arrivals rest ++ msg ∷ [] =
      ap arrivals left ∙ arrivals-last msg rest in
    let ordered : IsOrdered b τ =
      continued b σ τ (elsewhere b a _ _ σ other (broadcast-Extends io msg (some a) σ.server)) k in
    let (σ', ran, _, started, _, _) =
      pending-reaches io b τ ordered
        (rw (other, last) (omega (arith, length-append (arrivals rest) (msg ∷ []), free))) in
    (τ, σ', reads_message io a c cs σ reading plain room, ran, started ∙ rw (other, last) refl)
