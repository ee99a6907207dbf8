-- ===== src/Listening/Accepting.antt =====
-- The accept loops.
use memory_atlas_server.Prelude.{
  ℕ, suc, ◌+◌, ◌<◌, List, [], ◌∷◌, true, false, length, Option, none, some, Text, ◌≡◌, refl, ◌∙◌,
  ap, sym, subst, arith,
}
use memory_atlas_server.Listening.{
  Setup, listening, Listener, fresh, stage_of, is_open, create_or_throw, do_accept, Accept,
  accepted, vanished, failed, HttpListener, create_http_listener, run_http_listener, on_http_accept,
  HttpServer, run_http_server, chat_run, chat_on_accept, ws_run, ws_on_accept,
}
use memory_atlas_server.Config.{thread_count}
use memory_atlas_server.Config.Numbers.{thread_count-pos}
use memory_atlas_server.Listening.Answering.{
  all, sockets, present, failures_of, until_vanished, Served, starts_nothing, do_accept-Served,
  ws_serves, chat_serves, http_serves, http_ends, logs_one,
}

created :
    (setup : Setup) (l : Listener)
    → create_or_throw setup ≡ some l
    → (l ≡ fresh listening) × (stage_of setup ≡ listening)
unfolding create_or_throw stage_of
created setup l e = (ground arith, ground arith)

chat_run_open : (l : Listener) → is_open l.stage ≡ true → chat_run l ≡ do_accept l
unfolding chat_run
chat_run_open l e = simp e refl

-- A listener whose acceptor could be set up logs each accept that failed and waits for the next.
-- The one for WebSocket sessions starts a session for every connection that is accepted, once and
-- in order, and the one for TCP sessions for each whose peer is still there. So does the one of
-- the HTTP server until a peer is gone when its address is asked for: then it starts no session
-- and accepts no more.
pub listeners_serve :
    (setup : Setup) (api_key : Option Text) (answers : List Accept) (l : Listener)
    → create_or_throw setup ≡ some l
    → let before = until_vanished answers in
      let h = all on_http_accept before (run_http_listener (create_http_listener setup api_key)) in
      Served (present answers) answers l (all chat_on_accept answers (chat_run l))
      × Served (sockets answers) answers l (all ws_on_accept answers (ws_run l))
      × Served (sockets before) before l h.listener
      × ((socket : ℕ)
          → ((on_http_accept (vanished socket) h).listener.accepting ≡ false)
            × ((on_http_accept (vanished socket) h).listener.started ≡ h.listener.started))
unfolding ws_run run_http_listener create_http_listener
listeners_serve setup api_key answers l e =
    let (is_fresh, listens) = created setup l e in
    let is_listening : is_open l.stage ≡ true = ap (λ k. is_open k.stage) is_fresh in
    let before = until_vanished answers in
    let h = run_http_listener (create_http_listener setup api_key) in
    let same : h.listener ≡ do_accept l =
      ap (λ k. do_accept (fresh k)) listens ∙ ap do_accept (sym is_fresh) in
    (
      do_accept-Served _ answers l _ (
          subst (Served (present answers) answers (do_accept l))
            (ap (all chat_on_accept answers) (sym (chat_run_open l is_listening)))
            (chat_serves answers (do_accept l) is_listening refl)),
      do_accept-Served _ answers l _ (ws_serves answers (do_accept l) refl),
      do_accept-Served _ before l _ (
          subst (λ k. Served (sockets before) before k (all on_http_accept before h).listener) same
            (http_serves answers h refl)),
      λ socket. http_ends socket (all on_http_accept before h),
    )

no_handler :
    (setup : Setup) (api_key : Option Text)
    → create_or_throw setup ≡ none
    → (create_http_listener setup api_key).places_handler ≡ none
unfolding create_or_throw create_http_listener
no_handler setup api_key e = ground arith

all_failed : (answers : List Accept) → sockets answers ≡ [] → failures_of answers ≡ length answers
all_failed [] e = refl
all_failed (accepted socket ∷ answers) e = ground arith
all_failed (vanished socket ∷ answers) e = ground arith
all_failed (failed ∷ answers) e = ap suc (all_failed answers e)

-- As the listener goes on.
http_fails :
    (answers : List Accept) (h : HttpListener)
    → sockets answers ≡ []
    → h.listener.accepting ≡ true
    → Served [] answers h.listener (all on_http_accept answers h).listener
      × ((all on_http_accept answers h).places_handler ≡ h.places_handler)
unfolding on_http_accept
http_fails [] h e a = (starts_nothing h.listener a, refl)
http_fails (accepted socket ∷ answers) h e a = ground arith
http_fails (vanished socket ∷ answers) h e a = ground arith
http_fails (failed ∷ answers) h e a =
    let (r, same) = http_fails answers (on_http_accept failed h) e refl in
    (logs_one [] answers h.listener _ r, same)

-- Where the acceptor of the HTTP server cannot be set up, `run` reports nothing and starts its
-- threads, and as every accept fails the listener accepts again each time without end, with no
-- handler of the places API.
pub failed_listener_spins :
    (setup : Setup) (api_key : Option Text) (hardware_threads : ℕ) (answers : List Accept)
    (server : HttpServer)
    → create_or_throw setup ≡ none
    → sockets answers ≡ []
    → (server' : HttpServer) × (h : HttpListener) × (run_http_server true hardware_threads setup
          api_key server
        ≡ some server')
      × (server'.listener ≡ some h)
      × (0 < server'.io_threads)
      × ((all on_http_accept answers h).listener.accepting ≡ true)
      × ((all on_http_accept answers h).listener.failures ≡ length answers)
      × ((all on_http_accept answers h).places_handler ≡ none)
unfolding run_http_server run_http_listener
failed_listener_spins setup api_key hardware_threads answers server e n =
    let h = run_http_listener (create_http_listener setup api_key) in
    let (r, same) = http_fails answers h n refl in
    (
      record server {
        listener = some h;
        io_threads = server.io_threads + thread_count hardware_threads server.threads;
      },
      h,
      refl,
      refl,
      omega (arith, thread_count-pos hardware_threads server.threads),
      r.accepting,
      r.failures ∙ (unfold create_http_listener in omega (arith, all_failed answers n)),
      same ∙ no_handler setup api_key e,
    )
