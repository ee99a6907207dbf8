-- ===== src/Chat/Server/Strand/Runs.antt =====
-- The server with its queue refines the histories of requests.
use memory_atlas_server.Prelude.{
  ◌≡◌, some-injective, refl, ap, ◌∙◌, List, [], ◌∷◌, ◌++◌, Option, none, some, arith,
}
use memory_atlas_server.History.Writing.{Io}
use memory_atlas_server.Chat.State.{Server}
use memory_atlas_server.Chat.Server.Requests.{
  Request, joins, leaves, asks_nickname, lists_users, enters, leaves_directly, says, whispers,
  closes_sessions,
}
use memory_atlas_server.Chat.Server.Requests
use memory_atlas_server.Chat.Server.Strand.{
  Task, Handler, Strand, perform, handlers_of, Event, at_once, calls, runs_task, runs_handler,
  take_handler, step, run, with_server, next_task, next_handler,
}
use memory_atlas_server.Chat.Server.Strand.Refinement.{
  requests_of_task, IsCurrent, IsUpToDate, run_one, perform_refines, handle_refines, requests_of,
  AreCurrent, carried_out, StaysCurrent,
}

append_step :
    (xs ys : List (Io × Request)) (t : Server) (o : Option Server)
    → ((s' : Server) → Requests.run xs s' ≡ some t → Requests.run (xs ++ ys) s' ≡ Requests.run ys t)
    → elim o [ none ↦ none | some s' ↦ Requests.run xs s' ] ≡ some t
    → elim o [ none ↦ none | some s' ↦ Requests.run (xs ++ ys) s' ] ≡ Requests.run ys t
append_step xs ys t none k e = ground arith
append_step xs ys t (some s') k e = k s' e

run-append :
    (xs ys : List (Io × Request)) (s t : Server)
    → Requests.run xs s ≡ some t
    → Requests.run (xs ++ ys) s ≡ Requests.run ys t
unfolding Requests.run
run-append [] ys s t e = ap (Requests.run ys) (some-injective _ _ e)
run-append ((io, request) ∷ xs) ys s t e =
    append_step xs ys t (Requests.step io request s) (λ s' f. run-append xs ys s' t f) e

with_server-server :
    (σ σ' : Strand) (o : Option Server) → with_server σ o ≡ some σ' → o ≡ some σ'.server
with_server-server σ σ' none e = ground arith
with_server-server σ σ' (some s) e = ap (λ τ. some τ.server) (some-injective _ _ e)

next_task_refines :
    (io : Io) (σ σ' : Strand) (tasks : List Task)
    → next_task io σ tasks ≡ some σ'
    → elim tasks as (λ x. Type 0) [ [] ↦ Unit | task ∷ rest ↦ IsCurrent task σ.server ]
    → Requests.run (elim tasks [ [] ↦ [] | task ∷ rest ↦ requests_of_task io task ]) σ.server
      ≡ some σ'.server
unfolding Requests.run
next_task_refines io σ σ' [] e c = ap (λ τ. some τ.server) (some-injective _ _ e)
next_task_refines io σ σ' (task ∷ tasks) e c = perform_refines io task σ.server σ'.server c (
    with_server-server
      (record σ { tasks = tasks; handlers = σ.handlers ++ handlers_of task σ.server }) σ'
      (perform io task σ.server) e)

next_handler_refines :
    (io : Io) (σ σ' : Strand) (o : Option (Handler × List Handler))
    → next_handler io σ o ≡ some σ'
    → elim o as (λ x. Type 0) [ none ↦ Unit | some r ↦ IsUpToDate r.0 σ.server ]
    → Requests.run
        (elim o [
          | none ↦ []
          | some r ↦ (io, whispers r.0.message r.0.sender r.0.receiver_nick) ∷ []
        ])
        σ.server
      ≡ some σ'.server
unfolding Requests.run
next_handler_refines io σ σ' none e c = ap (λ τ. some τ.server) (some-injective _ _ e)
next_handler_refines io σ σ' (some r) e c =
    handle_refines io r.0 σ.server c ∙ ap (λ τ. some τ.server) (some-injective _ _ e)

step_refines :
    (event : Event) (σ σ' : Strand)
    → step event σ ≡ some σ'
    → AreCurrent event σ
    → Requests.run (requests_of event σ) σ.server ≡ some σ'.server
unfolding step Requests.run
step_refines (at_once io request) σ σ' e c =
    run_one io request σ.server _ (with_server-server σ σ' (Requests.step io request σ.server) e)
step_refines (calls request) σ σ' e c = ap (λ τ. some τ.server) (some-injective _ _ e)
step_refines (runs_task io) σ σ' e c = next_task_refines io σ σ' σ.tasks e c
step_refines (runs_handler io n) σ σ' e c =
    next_handler_refines io σ σ' (take_handler n σ.handlers) e c

next_refines :
    (event : Event) (events : List Event) (σ σ' : Strand) (o : Option Strand)
    → step event σ ≡ o
    → ((t : Strand)
        → run events t ≡ some σ'
        → StaysCurrent events t
        → Requests.run (carried_out events t) t.server ≡ some σ'.server)
    → elim o [ none ↦ none | some t ↦ run events t ] ≡ some σ'
    → AreCurrent event σ
    → elim o as (λ x. Type 0) [ none ↦ Unit | some t ↦ StaysCurrent events t ]
    → Requests.run
        (requests_of event σ ++ elim o [ none ↦ [] | some t ↦ carried_out events t ])
        σ.server
      ≡ some σ'.server
next_refines event events σ σ' none f k e c d = ground arith
next_refines event events σ σ' (some t) f k e c d =
    run-append (requests_of event σ) (carried_out events t) σ.server t.server
      (step_refines event σ t f c)
    ∙ k t e d

-- The server with its queue of posted tasks and its handlers ends in the state in which the
-- requests that were carried out, one after another in the order in which their tasks ran, leave
-- it. The condition is that what a task has captured is still so when it runs: the nickname of a
-- session that leaves, the owner of a nickname that gets a message; that registrations and scans
-- of the users run before the stop; and that the names pass the checks of their calls.
pub run_refines :
    (events : List Event) (σ σ' : Strand)
    → run events σ ≡ some σ'
    → StaysCurrent events σ
    → Requests.run (carried_out events σ) σ.server ≡ some σ'.server
unfolding run Requests.run
run_refines [] σ σ' e c = ap (λ τ. some τ.server) (some-injective _ _ e)
run_refines (event ∷ events) σ σ' e c =
    next_refines event events σ σ' (step event σ) refl (λ t f d. run_refines events t σ' f d) e c.0
      c.1
