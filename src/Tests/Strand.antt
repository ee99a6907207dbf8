-- ===== src/Tests/Strand.antt =====
-- The queue of the server at a concrete input.
use memory_atlas_server.Prelude.{◌≡◌, refl, List, [], ◌∷◌, false, none, some, utf8, text_eq, lookup}
use memory_atlas_server.Chat.State.{has_proper_nickname}
use memory_atlas_server.Chat.Nicknames.{
  is_invalid_nickname, has_space, is_space, try_register_nickname_impl, can_register,
  drop_old_nickname,
}
use memory_atlas_server.Chat.Rooms.{is_invalid_room_name}
use memory_atlas_server.Chat.Server.{create, join, stop}
use memory_atlas_server.Chat.Server.Requests.{
  joins, asks_nickname, enters, leaves, leaves_room, enables_history,
}
use memory_atlas_server.Chat.Server.Requests
use memory_atlas_server.Chat.Server.Strand.{
  Strand, Event, at_once, adds, calls, runs_task, posted_by, perform, handlers_of, step, run,
}
use memory_atlas_server.Chat.Server.Strand.Invariant.{AreValid, start, run-start-AreValid}
use memory_atlas_server.Chat.Server.Strand.Refinement.{carried_out}
use memory_atlas_server.Chat.Server.Strand.Runs.{run_refines}
use memory_atlas_server.Chat.Rooms.Placement.{IsPlaced}
use memory_atlas_server.Chat.Server.Strand.Placement.{are_orderly, run-start-IsPlaced}
use memory_atlas_server.Chat.Server.Strand.Quiet.{IsQuiet}
use memory_atlas_server.Chat.Server.Strand.Stopping.{stop-IsQuiet}
use memory_atlas_server.Tests.Data.{den, kim, history, io, sessions_at}

-- Two calls are made before either task runs, and a third between them.
abbrev events : List Event
events =
    calls (joins 3)
    ∷ calls (asks_nickname kim 3)
    ∷ runs_task io
    ∷ calls (enters den 3)
    ∷ runs_task io
    ∷ runs_task io
    ∷ []

unfoldable run_or_start : List Event → Strand
run_or_start events = elim (run events (start history sessions_at)) [
  | none ↦ start history sessions_at
  | some σ ↦ σ
]

abbrev final : Strand
final = run_or_start events

run-start-AreValid_example : AreValid final
unfolding run_or_start run step posted_by perform handlers_of create is_invalid_nickname has_space
    is_space text_eq utf8 try_register_nickname_impl join can_register lookup drop_old_nickname
    has_proper_nickname is_invalid_room_name
run-start-AreValid_example = run-start-AreValid events history sessions_at final refl

run_refines_example :
    Requests.run (carried_out events (start history sessions_at)) (start history sessions_at).server
    ≡ some final.server
unfolding run_or_start run step posted_by perform handlers_of create is_invalid_nickname has_space
    is_space text_eq utf8 try_register_nickname_impl join can_register lookup drop_old_nickname
    has_proper_nickname is_invalid_room_name
run_refines_example =
    run_refines events (start history sessions_at) final refl
      (_, (_, (_, (_, ((refl, refl), ((refl, refl), _))))))

run-start-IsPlaced_example : IsPlaced final.server
unfolding run_or_start run step posted_by perform handlers_of create is_invalid_nickname has_space
    is_space text_eq utf8 try_register_nickname_impl join can_register lookup drop_old_nickname
    has_proper_nickname is_invalid_room_name are_orderly
run-start-IsPlaced_example = run-start-IsPlaced events history sessions_at final refl refl

-- A call that was queued before the stop, and others after it.
abbrev after_stop : List Event
after_stop = runs_task io ∷ calls (joins 2) ∷ runs_task io ∷ at_once io (enables_history false) ∷ []

abbrev waiting : Strand
waiting = record (start history sessions_at) { tasks = adds 1 ∷ [] }

unfoldable run_or_waiting : Strand → Strand
run_or_waiting σ = elim (run after_stop σ) [ none ↦ waiting | some σ' ↦ σ' ]

stop-IsQuiet_example :
    IsQuiet
      (stop waiting.server).0
      (run_or_waiting (record waiting { server = (stop waiting.server).0 })).server
unfolding run_or_waiting run step posted_by perform handlers_of create join stop Requests.step
stop-IsQuiet_example = stop-IsQuiet after_stop waiting _ refl
