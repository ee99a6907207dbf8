-- ===== src/Tests/WsSystem.antt =====
-- The server with its WebSocket sessions at concrete inputs.
use memory_atlas_server.Prelude.{
  ℕ, List, [], ◌∷◌, ◌++◌, true, false, none, some, ◌≡◌, refl, arith, utf8, text_eq, member, add,
}
use memory_atlas_server.Chat.State.{direct, relayed, deliver, post_to_others}
use memory_atlas_server.Sessions.Posted.{with_posted}
use memory_atlas_server.Chat.Broadcast.{broadcast, broadcast_impl}
use memory_atlas_server.Chat.Server.{create, join}
use memory_atlas_server.Chat.Server.Requests.Invariant.{IsValid}
use memory_atlas_server.Sessions.WebSocket.{do_write, enqueue, on_write, process_message}
use memory_atlas_server.Sessions.WebSocket.Writing.{taken, waiting}
use memory_atlas_server.Sessions.WebSocket.Calls.{
  got, perform, perform_all, on_read, on_accept, deliver_all, welcome,
}
use memory_atlas_server.Sessions.WebSocket.System.{
  WsSession, System, end_handshake, end_read, run_task, run_delivery, end_write, Event,
  handshake_ends, reads, delivers, write_ends, step, run,
}
use memory_atlas_server.Sessions.WebSocket.System.Ordering.{IsOrdered, nothing}
use memory_atlas_server.Sessions.WebSocket.System.Delivery.{run-IsOrdered}
use memory_atlas_server.Sessions.WebSocket.System.Draining.{pending, pending-reaches}
use memory_atlas_server.Sessions.WebSocket.System.Speaking.{chat_text, message-reaches}
use memory_atlas_server.Sessions.WebSocket.System.Invariant.{ws_run-IsValid}
use memory_atlas_server.Tests.Data.{ann, hi, io, history, sessions_at, server}

abbrev fresh : ℕ → WsSession
fresh a = record {
  queue = record { write_msgs = []; is_writing = false; started = [] };
  accepting = true;
  reading = true;
  delivered = 0;
}

abbrev system : System
system = record { server = server; ws_session = fresh }

abbrev system_with_posts : System
system_with_posts = record {
  server = record server {
    hub = record {
      session_at = sessions_at;
      posted = (2, relayed hi) ∷ (1, direct ann) ∷ (2, direct ann) ∷ [];
    };
  };
  ws_session = fresh;
}

unfoldable run_or_start : List Event → System → System
run_or_start events σ = elim (run events σ) [ none ↦ σ | some σ' ↦ σ' ]

posts-IsOrdered : (a : ℕ) → IsOrdered a system_with_posts
unfolding taken waiting
posts-IsOrdered a = record {
  flowing = record { busy = refl; bounded = omega arith };
  in_order = nothing;
  in_bounds = omega arith;
}

start-IsOrdered : (a : ℕ) → IsOrdered a system
unfolding taken waiting
start-IsOrdered a = record {
  flowing = record { busy = refl; bounded = omega arith };
  in_order = nothing;
  in_bounds = omega arith;
}

pending-reaches_example :
    (σ' : System) × (run (pending io 2 system_with_posts) system_with_posts ≡ some σ')
    × (σ'.server ≡ with_posted σ'.server.posted system_with_posts.server)
    × ((σ'.ws_session 2).queue.started ≡ taken (fresh 2).queue ++ (ann ∷ hi ∷ []))
    × ((σ'.ws_session 2).queue.write_msgs ≡ [])
    × IsOrdered 2 σ'
pending-reaches_example = pending-reaches io 2 system_with_posts (posts-IsOrdered 2) (omega arith)

message-reaches_example :
    (τ σ' : System) × (step (reads io (got hi) 1) system ≡ some τ)
    × (run (pending io 2 τ) τ ≡ some σ')
    × ((σ'.ws_session 2).queue.started ≡ taken (fresh 2).queue ++ ([] ++ chat_text ann hi ∷ []))
unfolding member
message-reaches_example =
    message-reaches io 1 2 b'h' (b'i' ∷ []) system refl
      (omega arith, (omega arith, (omega arith, _))) refl refl refl refl refl (start-IsOrdered 2)
      (omega arith)

abbrev events : List Event
events =
    reads io (got hi) 1
    ∷ delivers 2
    ∷ delivers 3
    ∷ delivers 2
    ∷ delivers 3
    ∷ write_ends io false 2
    ∷ write_ends io true 3
    ∷ []

run-IsOrdered_example : IsOrdered 2 (run_or_start events system)
unfolding run_or_start run step end_read run_task run_delivery end_write on_read process_message
    perform_all perform broadcast broadcast_impl post_to_others deliver enqueue do_write on_write
run-IsOrdered_example =
    run-IsOrdered 2 events system (run_or_start events system) refl
      (_, (_, (_, (_, (_, ((λ e. refl), ((λ e. ground arith), _))))))) (start-IsOrdered 2)

abbrev start_events : List Event
start_events =
    handshake_ends io false 1 ∷ handshake_ends io false 2 ∷ reads io (got hi) 1 ∷ delivers 2 ∷ []

abbrev empty_system : System
empty_system = record { server = create history sessions_at; ws_session = fresh }

ws_run-IsValid_example : IsValid (run_or_start start_events empty_system).server
unfolding run_or_start run step end_handshake end_read run_task run_delivery end_write on_accept
    on_read process_message perform_all perform broadcast broadcast_impl post_to_others deliver
    deliver_all welcome enqueue do_write on_write create join text_eq utf8 add
ws_run-IsValid_example =
    ws_run-IsValid history sessions_at fresh start_events (run_or_start start_events empty_system)
      refl
