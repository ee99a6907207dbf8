-- ===== src/Listening/Answering.antt =====
-- What each listener does with the answers of its accepts.
use memory_atlas_server.Prelude.{
  ℕ, suc, ◌+◌, List, [], ◌∷◌, ◌++◌, append_assoc, append-nil, true, false, ◌≡◌, refl, ◌∙◌, sym,
  arith,
}
use memory_atlas_server.Listening.{
  Listener, is_open, do_accept, Accept, accepted, vanished, failed, add_session, log_failure,
  HttpListener, on_http_accept, chat_do_accept, chat_on_accept, ws_on_accept,
}

-- The handler called with one answer after another.
abbrev pub all {ℓ κ} : {A : Type ℓ} {S : Type κ} → (A → S → S) → List A → S → S
all f [] s = s
all f (a ∷ rest) s = all f rest (f a s)

-- The connections that the system has accepted, and those whose peers are still there.
abbrev pub sockets : List Accept → List ℕ
sockets [] = []
sockets (accepted socket ∷ answers) = socket ∷ sockets answers
sockets (vanished socket ∷ answers) = socket ∷ sockets answers
sockets (failed ∷ answers) = sockets answers

abbrev pub present : List Accept → List ℕ
present [] = []
present (accepted socket ∷ answers) = socket ∷ present answers
present (vanished socket ∷ answers) = present answers
present (failed ∷ answers) = present answers

abbrev pub failures_of : List Accept → ℕ
failures_of [] = 0
failures_of (accepted socket ∷ answers) = failures_of answers
failures_of (vanished socket ∷ answers) = failures_of answers
failures_of (failed ∷ answers) = suc (failures_of answers)

-- The answers before the first peer that is gone.
abbrev pub until_vanished : List Accept → List Accept
until_vanished [] = []
until_vanished (accepted socket ∷ answers) = accepted socket ∷ until_vanished answers
until_vanished (vanished socket ∷ answers) = []
until_vanished (failed ∷ answers) = failed ∷ until_vanished answers

-- A listener that has answered the accepts in turn, has started these sessions, and waits for the
-- next.
pub record Served (sessions : List ℕ) (answers : List Accept) (l l' : Listener) : Type 0 where
  pub stage : l'.stage ≡ l.stage
  pub accepting : l'.accepting ≡ true
  pub started : l'.started ≡ l.started ++ sessions
  pub failures : l'.failures ≡ l.failures + failures_of answers

pub starts_nothing : (l : Listener) → l.accepting ≡ true → Served [] [] l l
starts_nothing l a = record {
  stage = refl;
  accepting = a;
  started = sym (append-nil l.started);
  failures = omega arith;
}

starts_one :
    (socket : ℕ) (sessions : List ℕ) (answers : List Accept) (l l' : Listener)
    → Served sessions answers (do_accept (add_session socket l)) l'
    → Served (socket ∷ sessions) answers l l'
starts_one socket sessions answers l l' r = record {
  stage = r.stage;
  accepting = r.accepting;
  started = r.started ∙ append_assoc l.started (socket ∷ []) sessions;
  failures = r.failures;
}

pub logs_one :
    (sessions : List ℕ) (answers : List Accept) (l l' : Listener)
    → Served sessions answers (do_accept (log_failure l)) l'
    → Served sessions (failed ∷ answers) l l'
logs_one sessions answers l l' r = record {
  stage = r.stage;
  accepting = r.accepting;
  started = r.started;
  failures = r.failures ∙ omega arith;
}

same_failures :
    (sessions : List ℕ) (answers answers' : List Accept) (l l' : Listener)
    → failures_of answers' ≡ failures_of answers
    → Served sessions answers l l'
    → Served sessions answers' l l'
same_failures sessions answers answers' l l' e r = record {
  stage = r.stage;
  accepting = r.accepting;
  started = r.started;
  failures = omega (arith, r.failures, e);
}

pub do_accept-Served :
    (sessions : List ℕ) (answers : List Accept) (l l' : Listener)
    → Served sessions answers (do_accept l) l'
    → Served sessions answers l l'
do_accept-Served sessions answers l l' r = record {
  stage = r.stage;
  accepting = r.accepting;
  started = r.started;
  failures = r.failures;
}

pub ws_serves :
    (answers : List Accept) (l : Listener)
    → l.accepting ≡ true
    → Served (sockets answers) answers l (all ws_on_accept answers l)
unfolding ws_on_accept
ws_serves [] l a = starts_nothing l a
ws_serves (accepted socket ∷ answers) l a =
    same_failures _ answers _ l _ refl
      (starts_one socket _ answers l _ (ws_serves answers (do_accept (add_session socket l)) refl))
ws_serves (vanished socket ∷ answers) l a =
    same_failures _ answers _ l _ refl
      (starts_one socket _ answers l _ (ws_serves answers (do_accept (add_session socket l)) refl))
ws_serves (failed ∷ answers) l a =
    logs_one _ answers l _ (ws_serves answers (do_accept (log_failure l)) refl)

pub chat_serves :
    (answers : List Accept) (l : Listener)
    → is_open l.stage ≡ true
    → l.accepting ≡ true
    → Served (present answers) answers l (all chat_on_accept answers l)
unfolding chat_on_accept chat_do_accept
chat_serves [] l e a = starts_nothing l a
chat_serves (accepted socket ∷ answers) l e a = same_failures _ answers _ l _ refl (
    starts_one socket _ answers l _
      (simp e (chat_serves answers (do_accept (add_session socket l)) e refl)))
chat_serves (vanished socket ∷ answers) l e a =
    same_failures _ answers _ l _ refl
      (simp e (do_accept-Served _ answers l _ (chat_serves answers (do_accept l) e refl)))
chat_serves (failed ∷ answers) l e a =
    logs_one _ answers l _ (simp e (chat_serves answers (do_accept (log_failure l)) e refl))

pub http_serves :
    (answers : List Accept) (h : HttpListener)
    → h.listener.accepting ≡ true
    → let before = until_vanished answers in
      Served (sockets before) before h.listener (all on_http_accept before h).listener
unfolding on_http_accept
http_serves [] h a = starts_nothing h.listener a
http_serves (accepted socket ∷ answers) h a =
    let before = until_vanished answers in
    same_failures _ before _ h.listener _ refl (
      starts_one socket _ before h.listener _
        (http_serves answers (on_http_accept (accepted socket) h) refl))
http_serves (vanished socket ∷ answers) h a = starts_nothing h.listener a
http_serves (failed ∷ answers) h a =
    logs_one _ (until_vanished answers) h.listener _
      (http_serves answers (on_http_accept failed h) refl)

-- The HTTP listener stops for good.
pub http_ends :
    (socket : ℕ) (h : HttpListener)
    → ((on_http_accept (vanished socket) h).listener.accepting ≡ false)
      × ((on_http_accept (vanished socket) h).listener.started ≡ h.listener.started)
unfolding on_http_accept
http_ends socket h = (refl, refl)
