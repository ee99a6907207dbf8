-- ===== src/Tests/Tcp.antt =====
-- A TCP session at concrete inputs.
use memory_atlas_server.Prelude.{[], arith, false, refl, ◌++◌, ◌∷◌, ◌≡◌}
use memory_atlas_server.Sessions.Tcp.{
  drop_return, enqueue, failed, on_write, process_command, read_lines, stop_session,
}
use memory_atlas_server.Sessions.Tcp.Commands.{AreAllowed, process_command-AreAllowed}
use memory_atlas_server.Sessions.Tcp.Lines.{read_lines-fragment}
use memory_atlas_server.Sessions.Tcp.Writing.{IsFlowing, stop_session-Refuses}
use memory_atlas_server.Tests.Data.{ann, busy_connection, hi, sessions_at}

busy_connection-IsFlowing : IsFlowing busy_connection
busy_connection-IsFlowing = record { busy = refl; running = refl; connected = refl }

process_command-AreAllowed_example :
    AreAllowed ((sessions_at 1)) (process_command hi ((sessions_at 1)) busy_connection)
process_command-AreAllowed_example = process_command-AreAllowed hi (sessions_at 1) busy_connection

stop_session-Refuses_example :
    let c' = (stop_session busy_connection).0 in
    (enqueue hi c' ≡ c')
    × ((on_write failed c').0.started ≡ busy_connection.started)
    × ((on_write failed c').1 ≡ false)
    × (stop_session c' ≡ (c', false))
stop_session-Refuses_example = stop_session-Refuses hi failed busy_connection

read_lines-fragment_example :
    read_lines (((ann ++ b'\n' ∷ [])) ++ hi)
    ≡ read_lines ((ann ++ b'\n' ∷ [])) ++ drop_return hi ∷ []
unfolding drop_return
read_lines-fragment_example =
    read_lines-fragment (ann ++ b'\n' ∷ []) hi refl ((λ e. ground arith), ((λ e. ground arith), _))
      refl
