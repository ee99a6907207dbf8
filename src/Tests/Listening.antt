-- ===== src/Tests/Listening.antt =====
-- Listeners at concrete inputs.
use memory_atlas_server.Prelude.{
  ℕ, ◌<◌, ◌≡◌, refl, List, [], ◌∷◌, false, true, none, some, length, pos,
}
use memory_atlas_server.Listening.{
  Setup, fresh, listening, Accept, accepted, vanished, failed, HttpServer, HttpListener,
  create_or_throw, chat_on_accept, chat_run, ws_on_accept, ws_run, on_http_accept,
  run_http_listener, create_http_listener, run_http_server,
}
use memory_atlas_server.Listening.Answering.{Served, sockets, present, until_vanished, all}
use memory_atlas_server.Listening.Accepting.{listeners_serve, failed_listener_spins}
use memory_atlas_server.Tests.Data.{hi}

abbrev pub setup : Setup
setup = record { opens = true; sets_option = true; binds = true; listens = true }

-- Another program has the port.
abbrev pub port_taken : Setup
port_taken = record { opens = true; sets_option = true; binds = false; listens = true }

abbrev answers : List Accept
answers = accepted 5 ∷ failed ∷ vanished 6 ∷ accepted 7 ∷ []

abbrev errors : List Accept
errors = failed ∷ failed ∷ []

abbrev server : HttpServer
server = record { threads = pos 1; listener = none; io_threads = 0; ioc_stopped = false }

listeners_serve_example :
    let before = until_vanished answers in
    let h = all on_http_accept before (run_http_listener (create_http_listener setup (some hi))) in
    Served
      (present answers)
      answers
      (fresh listening)
      (all chat_on_accept answers (chat_run (fresh listening)))
    × Served
        (sockets answers)
        answers
        (fresh listening)
        (all ws_on_accept answers (ws_run (fresh listening)))
    × Served (sockets before) before (fresh listening) h.listener
    × ((socket : ℕ)
        → ((on_http_accept (vanished socket) h).listener.accepting ≡ false)
          × ((on_http_accept (vanished socket) h).listener.started ≡ h.listener.started))
unfolding create_or_throw
listeners_serve_example = listeners_serve setup (some hi) answers (fresh listening) refl

failed_listener_spins_example :
    (server' : HttpServer) × (h : HttpListener) × (run_http_server true 4 port_taken none server
      ≡ some server')
    × (server'.listener ≡ some h)
    × (0 < server'.io_threads)
    × ((all on_http_accept errors h).listener.accepting ≡ true)
    × ((all on_http_accept errors h).listener.failures ≡ length errors)
    × ((all on_http_accept errors h).places_handler ≡ none)
unfolding create_or_throw
failed_listener_spins_example = failed_listener_spins port_taken none 4 errors server refl refl
