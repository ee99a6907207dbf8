-- ===== src/Tests/System.antt =====
-- The server with its TCP sessions at concrete inputs.
use memory_atlas_server.Prelude.{
  ℕ, List, [], ◌∷◌, ◌++◌, true, false, none, some, refl, arith, utf8, text_eq,
}
use memory_atlas_server.Chat.State.{deliver, post_to_others}
use memory_atlas_server.Chat.Broadcast.{broadcast, broadcast_impl}
use memory_atlas_server.Chat.Nicknames.{is_space}
use memory_atlas_server.History.Reading.{get_lines}
use memory_atlas_server.Sessions.Words.{read_word, skip_spaces, word_of, after_word}
use memory_atlas_server.Sessions.Tcp.{
  written, drop_return, read_lines, keep_lines, process_command, command_actions, chat_message,
  is_slash, enqueue, on_write, do_write_strand, is_written, pop_written, is_failed,
}
use memory_atlas_server.Sessions.Tcp.Writing.{taken, waiting}
use memory_atlas_server.Sessions.Tcp.Calls.{perform}
use memory_atlas_server.Sessions.Tcp.System.{
  TcpSession, System, do_read, act, act_all, process_lines, on_read, run_task, run_delivery,
  end_write, Event, reads, delivers, write_ends, step, run,
}
use memory_atlas_server.Sessions.Tcp.System.Ordering.{IsInOrder}
use memory_atlas_server.Sessions.Tcp.System.Delivery.{run-IsInOrder}
use memory_atlas_server.Tests.Data.{hi, io, server}

abbrev fresh : ℕ → TcpSession
fresh a = record {
  connection = record {
    write_msgs = [];
    writing_flag = false;
    stopped = false;
    socket_open = true;
    started = [];
  };
  reading = true;
  delivered = 0;
}

abbrev system : System
system = record { server = server; tcp_session = fresh }

unfoldable run_or_start : List Event → System → System
run_or_start events σ = elim (run events σ) [ none ↦ σ | some σ' ↦ σ' ]

started-IsInOrder : (a : ℕ) → IsInOrder a system
unfolding taken waiting
started-IsInOrder a = record {
  flowing = record { busy = refl; running = refl; connected = refl };
  in_order = refl;
  in_bounds = omega arith;
}

abbrev events : List Event
events =
    reads (λ n. io) 1 (hi ++ b'\n' ∷ [])
    ∷ delivers 2
    ∷ delivers 3
    ∷ delivers 2
    ∷ write_ends 2 written
    ∷ []

run-IsInOrder_example : IsInOrder 2 (run_or_start events system)
unfolding run_or_start run step on_read run_task run_delivery end_write process_lines act_all act
    perform do_read read_lines keep_lines drop_return get_lines process_command command_actions
    chat_message is_slash read_word skip_spaces word_of after_word is_space text_eq utf8 broadcast
    broadcast_impl post_to_others deliver enqueue do_write_strand on_write is_written pop_written
    is_failed
run-IsInOrder_example =
    run-IsInOrder 2 events system (run_or_start events system) refl
      (_, (_, (_, (_, ((λ e. refl), _))))) refl (started-IsInOrder 2)
