-- ===== src/Sessions/WebSocket/System/Invariant.antt =====
-- The server keeps its invariant whatever the WebSocket sessions do.
use memory_atlas_server.Prelude.{
  drop, List, [], ◌∷◌, ℕ, Bool, Bool-cases, Option, Option-cases, if_both, inl, inr, none, some,
  some-injective, ◌≡◌, refl, subst, arith,
}
use memory_atlas_server.History.Writing.{Io}
use memory_atlas_server.History.Store.{History}
use memory_atlas_server.Chat.State.{Server, Session, Post, direct, relayed, deliver}
use memory_atlas_server.Sessions.Posted.{posted_to, relay}
use memory_atlas_server.Chat.Server.{create}
use memory_atlas_server.Chat.Server.Requests
use memory_atlas_server.Chat.Server.Requests.Invariant.{IsValid, same-IsValid, leave-IsValid}
use memory_atlas_server.Chat.Server.Requests.Histories.{step-IsValid, run-create-IsValid}
use memory_atlas_server.Sessions.WebSocket.{Queue, on_write}
use memory_atlas_server.Sessions.WebSocket.Calls.{on_read}
use memory_atlas_server.Sessions.WebSocket.Requests.{on_accept-IsValid, on_read-IsValid}
use memory_atlas_server.Sessions.WebSocket.System.{
  WsSession, System, after_read, end_read, end_handshake, run_task, run_delivery, after_write,
  end_write, with_result, Event, handshake_ends, reads, delivers, write_ends, at_server, step, run,
}

abbrev Valid : System → Type 0
Valid σ = IsValid σ.server

result-Valid :
    (o : Option Server) (σ σ' : System)
    → with_result σ o ≡ some σ'
    → ((s : Server) → o ≡ some s → IsValid s)
    → Valid σ'
result-Valid none σ σ' e h = ground arith
result-Valid (some s) σ σ' e h = subst Valid (some-injective _ _ e) (h s refl)

read-Valid :
    (a : ℕ) (o : Option (Server × Bool)) (σ σ' : System)
    → after_read a σ o ≡ some σ'
    → ((r : Server × Bool) → o ≡ some r → IsValid r.0)
    → Valid σ'
read-Valid a none σ σ' e h = ground arith
read-Valid a (some r) σ σ' e h = subst Valid (some-injective _ _ e) (h r refl)

write-Valid :
    (io : Io) (a : ℕ) (o : Option (Queue × Bool)) (σ σ' : System)
    → after_write io a σ o ≡ some σ'
    → Valid σ
    → Valid σ'
write-Valid io a none σ σ' e v = ground arith
write-Valid io a (some r) σ σ' e v =
    subst Valid (some-injective _ _ e) (if_both IsValid r.1 _ _ (leave-IsValid io a σ.server v) v)

task-Valid : (a : ℕ) (task : Post) (σ : System) → Valid σ → Valid (run_task a task σ)
unfolding run_task deliver
task-Valid a (direct msg) σ v = v
task-Valid a (relayed msg) σ v = same-IsValid σ.server (relay a msg σ.server) refl refl refl v

delivery-Valid : (a : ℕ) (σ : System) → Valid σ → Valid (run_delivery a σ)
unfolding run_delivery
delivery-Valid a σ v =
    next_task (drop (σ.ws_session a).delivered (posted_to a σ.server.posted)) refl
  where
    next_task :
        (rest : List Post)
        → drop (σ.ws_session a).delivered (posted_to a σ.server.posted) ≡ rest
        → Valid (run_delivery a σ)
    next_task [] e = rw (e, run_delivery) v
    next_task (task ∷ rest) e = rw (e, run_delivery) (task-Valid a task σ v)

step-Valid : (event : Event) (σ σ' : System) → step event σ ≡ some σ' → Valid σ → Valid σ'
unfolding step end_handshake end_read end_write
step-Valid (handshake_ends io failed a) σ σ' e v =
    subst Valid (some-injective _ _ e)
      (if_both Valid (σ.ws_session a).accepting _ _ (on_accept-IsValid io failed a σ.server v) v)
step-Valid (reads io end a) σ σ' e v = elim (Bool-cases (σ.ws_session a).reading) [
  | inl reading ↦
      read-Valid a (on_read io end a σ.server) σ σ' (ground arith)
        λ r f. on_read-IsValid io end a σ.server r.0 r.1 f v
  | inr idle ↦ subst Valid (some-injective σ σ' (ground arith)) v
]
step-Valid (delivers a) σ σ' e v = subst Valid (some-injective _ _ e) (delivery-Valid a σ v)
step-Valid (write_ends io failed a) σ σ' e v = elim (Bool-cases (σ.ws_session a).queue.is_writing) [
  | inl writing ↦ write-Valid io a (on_write failed (σ.ws_session a).queue) σ σ' (ground arith) v
  | inr idle ↦ subst Valid (some-injective σ σ' (ground arith)) v
]
step-Valid (at_server io request) σ σ' e v =
    result-Valid _ σ σ' e λ s f. step-IsValid io request σ.server s f v

run-Valid : (events : List Event) (σ σ' : System) → run events σ ≡ some σ' → Valid σ → Valid σ'
unfolding run
run-Valid [] σ σ' e v = subst Valid (some-injective _ _ e) v
run-Valid (event ∷ events) σ σ' e v = elim (Option-cases (step event σ)) [
  | inl fault ↦ ground arith
  | inr (τ, stepped) ↦ run-Valid events τ σ' (ground arith) (step-Valid event σ τ stepped v)
]

-- A server as the constructor makes it keeps its invariant whatever the WebSocket clients write,
-- however their handshakes, reads and writes end, and whatever else is called at it, as long as no
-- registration faults: each room stands under its own name and holds between one and a hundred
-- participants, each once; the nicknames are valid and in order; and a session is a member once.
pub ws_run-IsValid :
    (history : History) (session_at : ℕ → Session) (ws_session : ℕ → WsSession)
    (events : List Event) (σ' : System)
    → run events (record { server = create history session_at; ws_session = ws_session }) ≡ some σ'
    → IsValid σ'.server
unfolding Requests.run
ws_run-IsValid history session_at ws_session events σ' e =
    run-Valid events (record { server = create history session_at; ws_session = ws_session }) σ' e
      (run-create-IsValid [] history session_at _ refl)
