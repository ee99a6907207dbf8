-- ===== src/Sessions/Tcp/System/Invariant.antt =====
-- The server keeps its invariant whatever the TCP sessions do.
use memory_atlas_server.Prelude.{
  drop, ℕ, suc, List, [], ◌∷◌, Bool-cases, Option, Option-cases, if_both, inl, inr, none, some,
  some-injective, Text, ◌≡◌, refl, false, subst, arith,
}
use memory_atlas_server.History.Writing.{Io}
use memory_atlas_server.History.Store.{History}
use memory_atlas_server.Chat.State.{Server, Session, Post, direct, relayed, deliver}
use memory_atlas_server.Sessions.Posted.{posted_to, relay}
use memory_atlas_server.Chat.Server.{create}
use memory_atlas_server.Chat.Server.Requests
use memory_atlas_server.Chat.Server.Requests.Invariant.{IsValid, same-IsValid, leave-IsValid}
use memory_atlas_server.Chat.Server.Requests.Histories.{step-IsValid, run-create-IsValid}
use memory_atlas_server.Sessions.Tcp.{
  Action, registers, enters, leaves_room, lists_users, quits, says, says_in_room, replies,
  read_lines, process_command, stop_session,
}
use memory_atlas_server.Sessions.Tcp.Calls.{perform}
use memory_atlas_server.Sessions.Tcp.Requests.{perform-IsValid, start-IsValid}
use memory_atlas_server.Sessions.Tcp.System.{
  TcpSession, System, with_tcp, is_active, stop_at, with_result, act, act_all, process_lines,
  read_on, on_read, on_read_error, run_task, run_delivery, end_write, start_session, Event, starts,
  reads, read_fails, delivers, write_ends, stops, at_server, step, run,
}

abbrev Valid : System → Type 0
Valid σ = IsValid σ.server

stop_at-Valid : (io : Io) (a : ℕ) (σ : System) → Valid σ → Valid (stop_at io a σ)
unfolding stop_at
stop_at-Valid io a σ v =
    if_both Valid (stop_session (σ.tcp_session a).connection).1 _ _ (leave-IsValid io a σ.server v)
      v

result-Valid :
    (o : Option Server) (σ σ' : System)
    → with_result σ o ≡ some σ'
    → ((s : Server) → o ≡ some s → IsValid s)
    → Valid σ'
result-Valid none σ σ' e h = ground arith
result-Valid (some s) σ σ' e h = subst Valid (some-injective _ _ e) (h s refl)

performed-Valid :
    (io : Io) (a : ℕ) (action : Action) (σ σ' : System)
    → with_result σ (perform io (σ.tcp_session a).connection.stopped a action σ.server) ≡ some σ'
    → Valid σ
    → Valid σ'
performed-Valid io a action σ σ' e v =
    result-Valid _ σ σ' e
      λ s f. perform-IsValid io (σ.tcp_session a).connection.stopped a action σ.server s f v

act-Valid :
    (io : Io) (a : ℕ) (action : Action) (σ σ' : System)
    → act io a action σ ≡ some σ'
    → Valid σ
    → Valid σ'
unfolding act
act-Valid io a quits σ σ' e v = subst Valid (some-injective _ _ e) (stop_at-Valid io a σ v)
act-Valid io a (registers nick) σ σ' e v = performed-Valid io a (registers nick) σ σ' e v
act-Valid io a (enters room) σ σ' e v = performed-Valid io a (enters room) σ σ' e v
act-Valid io a (leaves_room room) σ σ' e v = performed-Valid io a (leaves_room room) σ σ' e v
act-Valid io a lists_users σ σ' e v = performed-Valid io a lists_users σ σ' e v
act-Valid io a (says message) σ σ' e v = performed-Valid io a (says message) σ σ' e v
act-Valid io a (says_in_room room message) σ σ' e v =
    performed-Valid io a (says_in_room room message) σ σ' e v
act-Valid io a (replies msg) σ σ' e v = performed-Valid io a (replies msg) σ σ' e v

act_all-Valid :
    (io : Io) (a : ℕ) (actions : List Action) (σ σ' : System)
    → act_all io a actions σ ≡ some σ'
    → Valid σ
    → Valid σ'
unfolding act_all
act_all-Valid io a [] σ σ' e v = subst Valid (some-injective _ _ e) v
act_all-Valid io a (action ∷ actions) σ σ' e v = elim (Option-cases (act io a action σ)) [
  | inl fault ↦ ground arith
  | inr (τ, acted) ↦
      act_all-Valid io a actions τ σ' (ground arith) (act-Valid io a action σ τ acted v)
]

process_lines-Valid :
    (io : ℕ → Io) (n a : ℕ) (lines : List Text) (σ σ' : System)
    → process_lines io n a lines σ ≡ some σ'
    → Valid σ
    → Valid σ'
unfolding process_lines
process_lines-Valid io n a [] σ σ' e v = subst Valid (some-injective _ _ e) v
process_lines-Valid io n a (line ∷ lines) σ σ' e v =
    let actions = process_command line (σ.server.session_at a) (σ.tcp_session a).connection in
    elim (Option-cases (act_all (io n) a actions σ)) [
      | inl fault ↦ ground arith
      | inr (τ, acted) ↦
          process_lines-Valid io (suc n) a lines τ σ' (ground arith)
            (act_all-Valid (io n) a actions σ τ acted v)
    ]

read_on-Valid :
    (a : ℕ) (o : Option System) (σ' : System)
    → read_on a o ≡ some σ'
    → ((τ : System) → o ≡ some τ → Valid τ)
    → Valid σ'
read_on-Valid a none σ' e h = ground arith
read_on-Valid a (some τ) σ' e h = subst Valid (some-injective _ _ e) (h τ refl)

on_read-Valid :
    (io : ℕ → Io) (a : ℕ) (text : Text) (σ σ' : System)
    → on_read io a text σ ≡ some σ'
    → Valid σ
    → Valid σ'
unfolding on_read
on_read-Valid io a text σ σ' e v =
    let t = σ.tcp_session a in
    let τ = with_tcp a (record t { reading = false }) σ in
    elim (Bool-cases (is_active t.connection)) [
      | inl active ↦
          read_on-Valid a (process_lines io 0 a (read_lines text) τ) σ' (ground arith)
            λ υ f. process_lines-Valid io 0 a (read_lines text) τ υ f v
      | inr closed ↦ subst Valid (some-injective τ σ' (ground arith)) v
    ]

on_read_error-Valid : (io : Io) (a : ℕ) (σ : System) → Valid σ → Valid (on_read_error io a σ)
unfolding on_read_error
on_read_error-Valid io a σ v =
    let τ : System = with_tcp a (record (σ.tcp_session a) { reading = false }) σ in
    if_both Valid (is_active (σ.tcp_session a).connection) (stop_at io a τ) τ
      (stop_at-Valid io a τ v) v

task-Valid : (a : ℕ) (task : Post) (σ : System) → Valid σ → Valid (run_task a task σ)
unfolding run_task deliver
task-Valid a (direct msg) σ v = v
task-Valid a (relayed msg) σ v = same-IsValid σ.server (relay a msg σ.server) refl refl refl v

delivery-Valid : (a : ℕ) (σ : System) → Valid σ → Valid (run_delivery a σ)
unfolding run_delivery
delivery-Valid a σ v =
    next_task (drop (σ.tcp_session a).delivered (posted_to a σ.server.posted)) refl
  where
    next_task :
        (rest : List Post)
        → drop (σ.tcp_session a).delivered (posted_to a σ.server.posted) ≡ rest
        → Valid (run_delivery a σ)
    next_task [] e = rw (e, run_delivery) v
    next_task (task ∷ rest) e = rw (e, run_delivery) (task-Valid a task σ v)

step-Valid : (event : Event) (σ σ' : System) → step event σ ≡ some σ' → Valid σ → Valid σ'
unfolding step start_session end_write
step-Valid (starts io a) σ σ' e v =
    subst Valid (some-injective _ _ e) (
      if_both Valid (σ.tcp_session a).connection.stopped _ _ v
        (start-IsValid io false a σ.server v))
step-Valid (reads io a text) σ σ' e v = elim (Bool-cases (σ.tcp_session a).reading) [
  | inl reading ↦ on_read-Valid io a text σ σ' (ground arith) v
  | inr idle ↦ subst Valid (some-injective σ σ' (ground arith)) v
]
step-Valid (read_fails io a) σ σ' e v = subst Valid (some-injective _ _ e) (
    if_both Valid (σ.tcp_session a).reading (on_read_error io a σ) σ (on_read_error-Valid io a σ v)
      v)
step-Valid (delivers a) σ σ' e v = subst Valid (some-injective _ _ e) (delivery-Valid a σ v)
step-Valid (write_ends a ec) σ σ' e v =
    subst Valid (some-injective _ _ e)
      (if_both Valid (σ.tcp_session a).connection.writing_flag _ _ v v)
step-Valid (stops io a) σ σ' e v = subst Valid (some-injective _ _ e) (stop_at-Valid io a σ v)
step-Valid (at_server io request) σ σ' e v =
    result-Valid _ σ σ' e λ s f. step-IsValid io request σ.server s f v

run-Valid : (events : List Event) (σ σ' : System) → run events σ ≡ some σ' → Valid σ → Valid σ'
unfolding run
run-Valid [] σ σ' e v = subst Valid (some-injective _ _ e) v
run-Valid (event ∷ events) σ σ' e v = elim (Option-cases (step event σ)) [
  | inl fault ↦ ground arith
  | inr (τ, stepped) ↦ run-Valid events τ σ' (ground arith) (step-Valid event σ τ stepped v)
]

-- A server as the constructor makes it keeps its invariant whatever the TCP clients write, however
-- their reads and writes end, and whatever else is called at it, as long as no registration
-- faults: each room stands under its own name and holds between one and a hundred participants,
-- each once; the nicknames are valid and in order; and a session is a member once.
pub run-IsValid :
    (history : History) (session_at : ℕ → Session) (tcp_session : ℕ → TcpSession)
    (events : List Event) (σ' : System)
    → run events (record { server = create history session_at; tcp_session = tcp_session })
      ≡ some σ'
    → IsValid σ'.server
unfolding Requests.run
run-IsValid history session_at tcp_session events σ' e =
    run-Valid events (record { server = create history session_at; tcp_session = tcp_session }) σ' e
      (run-create-IsValid [] history session_at _ refl)
