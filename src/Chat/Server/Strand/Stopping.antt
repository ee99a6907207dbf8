-- ===== src/Chat/Server/Strand/Stopping.antt =====
-- What can still happen once the server is stopped.
use memory_atlas_server.Prelude.{
  ℕ, ◌≡◌, refl, ap, ◌∙◌, sym, subst, List, [], ◌∷◌, ◌++◌, Bool, true, Option, Option-cases, inl,
  inr, none, some, some-injective, Text, arith,
}
use memory_atlas_server.History.Writing.{Io}
use memory_atlas_server.Chat.State.{Server}
use memory_atlas_server.Chat.Broadcast.{broadcast, on_receiver}
use memory_atlas_server.Chat.Nicknames.{try_register_nickname_impl}
use memory_atlas_server.Chat.Rooms.{join_room, leave_room}
use memory_atlas_server.Chat.Server.{join, stop}
use memory_atlas_server.Chat.Server.Strand.{
  Task, adds, removes, registers, scans, moves_in, moves_out, sends, finds, clears, Handler, Strand,
  Event, at_once, calls, runs_task, runs_handler, take_handler, remove_from_server, scan, server_of,
  perform, handlers_of, handle, with_server, next_task, next_handler, step, run,
}
use memory_atlas_server.Chat.Server.Strand.Invariant.{Holds}
use memory_atlas_server.Chat.Server.Strand.Quiet.{
  IsQuiet, quiet, unchanged, IsQuiet-trans, registered-IsQuiet, closed-IsQuiet, requested-IsQuiet,
}

on_receiver-stopped :
    (io : Io) (message : Text) (a : ℕ) (nick receiver_nick : Text) (r : Option ℕ) (s : Server)
    → s.stopped ≡ true
    → on_receiver io message a nick receiver_nick r s ≡ s
unfolding on_receiver
on_receiver-stopped io message a nick receiver_nick none s h = simp h refl
on_receiver-stopped io message a nick receiver_nick (some r) s h = simp h refl

perform-IsQuiet :
    (io : Io) (task : Task) (s : Server) → s.stopped ≡ true → Holds (IsQuiet s) (perform io task s)
unfolding perform remove_from_server scan join join_room leave_room broadcast
perform-IsQuiet io (adds a) s h = unchanged s _ h (simp h refl)
perform-IsQuiet io (removes a nick proper) s h = unchanged s _ h (simp h refl)
perform-IsQuiet io (registers nick a) s h =
    of_server (try_register_nickname_impl nick a s) (registered-IsQuiet nick a s h)
  where
    of_server :
        (o : Option (Server × Bool))
        → Holds (λ (r : Server × Bool). IsQuiet s r.0) o
        → Holds (IsQuiet s) (server_of o)
    of_server none k = tt
    of_server (some r) k = k
perform-IsQuiet io scans s h = quiet s _ h refl refl refl refl refl
perform-IsQuiet io (moves_in name a) s h = unchanged s _ h (simp h refl)
perform-IsQuiet io (moves_out name a) s h = unchanged s _ h (simp h refl)
perform-IsQuiet io (sends message sender) s h = unchanged s _ h (simp h refl)
perform-IsQuiet io (finds message a nick receiver_nick) s h = unchanged s s h refl
perform-IsQuiet io clears s h = closed-IsQuiet s h

with_server-IsQuiet :
    (s : Server) (σ σ' : Strand) (o : Option Server)
    → Holds (IsQuiet s) o
    → with_server σ o ≡ some σ'
    → IsQuiet s σ'.server
with_server-IsQuiet s σ σ' none k e = ground arith
with_server-IsQuiet s σ σ' (some t) k e =
    subst (λ (τ : Strand). IsQuiet s τ.server) (some-injective _ _ e) k

next_task-IsQuiet :
    (io : Io) (σ σ' : Strand) (tasks : List Task)
    → σ.server.stopped ≡ true
    → next_task io σ tasks ≡ some σ'
    → IsQuiet σ.server σ'.server
next_task-IsQuiet io σ σ' [] h e =
    unchanged σ.server σ'.server h (ap (λ τ. τ.server) (sym (some-injective _ _ e)))
next_task-IsQuiet io σ σ' (task ∷ tasks) h e =
    with_server-IsQuiet σ.server
      (record σ { tasks = tasks; handlers = σ.handlers ++ handlers_of task σ.server }) σ' _
      (perform-IsQuiet io task σ.server h) e

next_handler-IsQuiet :
    (io : Io) (σ σ' : Strand) (o : Option (Handler × List Handler))
    → σ.server.stopped ≡ true
    → next_handler io σ o ≡ some σ'
    → IsQuiet σ.server σ'.server
unfolding handle
next_handler-IsQuiet io σ σ' none h e =
    unchanged σ.server σ'.server h (ap (λ τ. τ.server) (sym (some-injective _ _ e)))
next_handler-IsQuiet io σ σ' (some (k, ks)) h e = unchanged σ.server σ'.server h (
    ap (λ τ. τ.server) (sym (some-injective _ _ e))
    ∙ on_receiver-stopped io k.message k.sender k.sender_nick k.receiver_nick k.receiver σ.server h)

step-IsQuiet :
    (event : Event) (σ σ' : Strand)
    → σ.server.stopped ≡ true
    → step event σ ≡ some σ'
    → IsQuiet σ.server σ'.server
unfolding step
step-IsQuiet (at_once io request) σ σ' h e =
    with_server-IsQuiet σ.server σ σ' _ (requested-IsQuiet io request σ.server h) e
step-IsQuiet (calls request) σ σ' h e =
    unchanged σ.server σ'.server h (ap (λ τ. τ.server) (sym (some-injective _ _ e)))
step-IsQuiet (runs_task io) σ σ' h e = next_task-IsQuiet io σ σ' σ.tasks h e
step-IsQuiet (runs_handler io n) σ σ' h e =
    next_handler-IsQuiet io σ σ' (take_handler n σ.handlers) h e

run-IsQuiet :
    (events : List Event) (σ σ' : Strand)
    → σ.server.stopped ≡ true
    → run events σ ≡ some σ'
    → IsQuiet σ.server σ'.server
unfolding run
run-IsQuiet [] σ σ' h e =
    unchanged σ.server σ'.server h (ap (λ τ. τ.server) (sym (some-injective _ _ e)))
run-IsQuiet (event ∷ events) σ σ' h e = elim (Option-cases (step event σ)) [
  | inl fault ↦ ground arith
  | inr (τ, stepped) ↦
      let k = step-IsQuiet event σ τ h stepped in
      IsQuiet-trans σ.server τ.server σ'.server k (run-IsQuiet events τ σ' k.stopped (ground arith))
]

stop-stopped : (s : Server) → (stop s).0.stopped ≡ true
unfolding stop
stop-stopped s = ground arith

-- Once `stop` has been called, in whatever order calls are made, the tasks that were queued before
-- it and later ones and the handlers run, and other things take effect, as long as nothing faults:
-- the server stays stopped; nothing is posted to a session and nothing is written to the files of
-- the history; and the members and the rooms are those of the moment of the stop, or have been
-- cleared by its task.
pub stop-IsQuiet :
    (events : List Event) (σ σ' : Strand)
    → let halted : Strand = record σ { server = (stop σ.server).0 } in
      run events halted ≡ some σ' → IsQuiet (stop σ.server).0 σ'.server
stop-IsQuiet events σ σ' e =
    run-IsQuiet events (record σ { server = (stop σ.server).0 }) σ' (stop-stopped σ.server) e
