-- ===== src/Sessions/Tcp/Writing.antt =====
-- The queue of a TCP session: every message is handed to the socket once, in order.
use memory_atlas_server.Prelude.{
  ℕ, zero, suc, List, [], ◌∷◌, ◌++◌, Bool, true, false, not, if◌then◌else◌, is_empty, length, Text,
  ◌≡◌, refl, sym, ap, ◌∙◌, arith, append_assoc, append-nil, subst,
}
use memory_atlas_server.Chat.State.{crlf}
use memory_atlas_server.Sessions.Tcp.{
  Connection, do_write_strand, enqueue, WriteEnd, written, aborted, failed, is_written, is_failed,
  pop_written, on_write, stop_session,
}

-- The messages that wait behind the one being written.
unfoldable pub waiting : Connection → List Text
waiting c =
    if c.writing_flag then elim c.write_msgs [ [] ↦ [] | front ∷ msgs ↦ msgs ] else c.write_msgs

-- What the session took, in order: the messages handed to the socket, then those that wait.
unfoldable pub taken : Connection → List Text
taken c = c.started ++ waiting c

-- A running session: one write is in flight exactly while there are messages.
pub record IsFlowing (c : Connection) : Type 0 where
  pub busy : c.writing_flag ≡ not (is_empty c.write_msgs)
  pub running : c.stopped ≡ false
  pub connected : c.socket_open ≡ true

connection : List Text → Bool → List Text → Connection
connection msgs writing started = record {
  write_msgs = msgs;
  writing_flag = writing;
  stopped = false;
  socket_open = true;
  started = started;
}

fields-at :
    (msgs : List Text) (writing stopped socket_open : Bool) (started : List Text)
    → writing ≡ not (is_empty msgs)
    → stopped ≡ false
    → socket_open ≡ true
    → connection msgs (not (is_empty msgs)) started ≡ (record {
      write_msgs = msgs;
      writing_flag = writing;
      stopped = stopped;
      socket_open = socket_open;
      started = started;
    })
unfolding connection
fields-at msgs writing true socket started b r k = ground arith
fields-at msgs writing false false started b r k = ground arith
fields-at msgs writing false true started b r k = ap (λ w. connection msgs w started) (sym b)

at_fields :
    (P : Connection → Type 0) (c : Connection)
    → IsFlowing c
    → P (connection c.write_msgs (not (is_empty c.write_msgs)) c.started)
    → P c
at_fields P c h p =
    subst P
      (fields-at c.write_msgs c.writing_flag c.stopped c.socket_open c.started h.busy h.running
        h.connected)
      p

enqueue-at :
    (msg : Text) (msgs started : List Text)
    → IsFlowing (enqueue msg (connection msgs (not (is_empty msgs)) started))
      × (taken (enqueue msg (connection msgs (not (is_empty msgs)) started))
          ≡ taken (connection msgs (not (is_empty msgs)) started) ++ (msg ++ crlf) ∷ [])
unfolding enqueue do_write_strand taken waiting connection
enqueue-at msg [] started = (
  record { busy = refl; running = refl; connected = refl },
  ground (arith, append-nil (started ++ (msg ++ crlf) ∷ []), append-nil started),
)
enqueue-at msg (m ∷ msgs) started = (
  record { busy = refl; running = refl; connected = refl },
  sym (append_assoc started msgs ((msg ++ crlf) ∷ [])),
)

-- A message delivered to a running TCP session, with a write in flight exactly while there are
-- messages, is taken last, with a line end, and the session stays so.
pub enqueue-taken :
    (msg : Text) (c : Connection)
    → IsFlowing c
    → IsFlowing (enqueue msg c) × (taken (enqueue msg c) ≡ taken c ++ (msg ++ crlf) ∷ [])
enqueue-taken msg c h =
    at_fields
      (λ c. IsFlowing (enqueue msg c) × (taken (enqueue msg c) ≡ taken c ++ (msg ++ crlf) ∷ [])) c h
      (enqueue-at msg c.write_msgs c.started)

written-at :
    (msgs started : List Text)
    → let c = connection msgs (not (is_empty msgs)) started in
      IsFlowing (on_write written c).0 × (taken (on_write written c).0 ≡ taken c)
unfolding on_write do_write_strand taken waiting connection is_written pop_written is_failed
written-at [] started = (record { busy = refl; running = refl; connected = refl }, refl)
written-at (m ∷ []) started = (record { busy = refl; running = refl; connected = refl }, refl)
written-at (m ∷ k ∷ msgs) started =
    (record { busy = refl; running = refl; connected = refl }, append_assoc started (k ∷ []) msgs)

-- A write that ends well changes nothing of what a running session took.
pub on_write-taken :
    (c : Connection)
    → IsFlowing c
    → IsFlowing (on_write written c).0 × (taken (on_write written c).0 ≡ taken c)
on_write-taken c h =
    at_fields (λ c. IsFlowing (on_write written c).0 × (taken (on_write written c).0 ≡ taken c)) c h
      (written-at c.write_msgs c.started)

idle-at :
    (msgs started : List Text)
    → not (is_empty msgs) ≡ false
    → let c = connection msgs (not (is_empty msgs)) started in (on_write written c).0 ≡ c
unfolding on_write connection is_written pop_written is_failed
idle-at [] started e = refl
idle-at (m ∷ msgs) started e = ground arith

-- An idle session has nothing to take out of its queue.
pub on_write-idle :
    (c : Connection) → IsFlowing c → c.writing_flag ≡ false → (on_write written c).0 ≡ c
on_write-idle c h idle =
    at_fields (λ c. (on_write written c).0 ≡ c) c h
      (idle-at c.write_msgs c.started (sym h.busy ∙ idle))

-- Writes that end well, one after another.
unfoldable pub finish_all : ℕ → Connection → Connection
finish_all zero c = c
finish_all (suc n) c = finish_all n (on_write written c).0

drain-at :
    (msgs started : List Text)
    → finish_all (length msgs) (connection msgs (not (is_empty msgs)) started)
      ≡ connection [] false (taken (connection msgs (not (is_empty msgs)) started))
unfolding finish_all on_write do_write_strand taken waiting connection is_written pop_written
    is_failed
drain-at [] started = ap (connection [] false) (sym (append-nil started))
drain-at (m ∷ []) started = ap (connection [] false) (sym (append-nil started))
drain-at (m ∷ k ∷ msgs) started =
    drain-at (k ∷ msgs) (started ++ k ∷ [])
    ∙ ap (connection [] false) (append_assoc started (k ∷ []) msgs)

-- In a running TCP session with a write in flight exactly while there are messages, when as many
-- writes end well as there are messages, everything that the session took has been handed to the
-- socket, in order, the queue is empty, and the session is idle.
pub on_write-drains :
    (c : Connection)
    → IsFlowing c
    → let c' = finish_all (length c.write_msgs) c in
      (c'.started ≡ taken c) × (c'.write_msgs ≡ []) × IsFlowing c'
unfolding connection
on_write-drains c h =
    at_fields
      (λ c.
        let c' = finish_all (length c.write_msgs) c in
        (c'.started ≡ taken c) × (c'.write_msgs ≡ []) × IsFlowing c')
      c h
      (subst
        (λ d.
          (d.started ≡ taken (connection c.write_msgs (not (is_empty c.write_msgs)) c.started))
          × (d.write_msgs ≡ [])
          × IsFlowing d)
        (sym (drain-at c.write_msgs c.started))
        (refl, refl, record { busy = refl; running = refl; connected = refl }))

Recovers : WriteEnd → Text → Connection → Type 0
Recovers ec msg c =
    let c' = (on_write ec c).0 in
    ((on_write ec c).1 ≡ is_failed ec)
    × (taken c' ≡ c.started)
    × IsFlowing c'
    × ((enqueue msg c').started ≡ c.started ++ (msg ++ crlf) ∷ [])

fails-at :
    (ec : WriteEnd) (msg : Text) (msgs : List Text) (writing : Bool) (started : List Text)
    → is_written ec ≡ false
    → Recovers ec msg (connection msgs writing started)
unfolding Recovers on_write taken waiting enqueue do_write_strand connection is_written is_failed
fails-at written msg msgs writing started e = ground arith
fails-at aborted msg msgs writing started e =
    (refl, append-nil started, record { busy = refl; running = refl; connected = refl }, refl)
fails-at failed msg msgs writing started e =
    (refl, append-nil started, record { busy = refl; running = refl; connected = refl }, refl)

-- In a running TCP session with a write in flight exactly while there are messages, a write that
-- fails empties the queue and leaves the session idle, so that the next message is handed to the
-- socket at once; the session is stopped unless the operation was aborted.
pub on_write-fails :
    (ec : WriteEnd) (msg : Text) (c : Connection)
    → is_written ec ≡ false
    → IsFlowing c
    → let c' = (on_write ec c).0 in
      ((on_write ec c).1 ≡ is_failed ec)
      × (taken c' ≡ c.started)
      × IsFlowing c'
      × ((enqueue msg c').started ≡ c.started ++ (msg ++ crlf) ∷ [])
unfolding Recovers
on_write-fails ec msg c e h =
    at_fields (Recovers ec msg) c h (fails-at ec msg c.write_msgs _ c.started e)

Refuses : Text → WriteEnd → Connection → Type 0
Refuses msg ec c =
    let c' = (stop_session c).0 in
    (enqueue msg c' ≡ c')
    × ((on_write ec c').0.started ≡ c.started)
    × ((on_write ec c').1 ≡ false)
    × (stop_session c' ≡ (c', false))

Refuses-at :
    (msg : Text) (ec : WriteEnd) (msgs : List Text) (writing stopped socket_open : Bool)
    (started : List Text)
    → Refuses msg ec (record {
      write_msgs = msgs;
      writing_flag = writing;
      stopped = stopped;
      socket_open = socket_open;
      started = started;
    })
unfolding Refuses stop_session on_write enqueue
Refuses-at msg ec msgs writing true socket started = (refl, refl, refl, refl)
Refuses-at msg ec msgs writing false socket started = (refl, refl, refl, refl)

-- A TCP session that was told to stop takes no message, hands nothing to the socket when a write
-- ends, and does not stop a second time.
pub stop_session-Refuses :
    (msg : Text) (ec : WriteEnd) (c : Connection)
    → let c' = (stop_session c).0 in
      (enqueue msg c' ≡ c')
      × ((on_write ec c').0.started ≡ c.started)
      × ((on_write ec c').1 ≡ false)
      × (stop_session c' ≡ (c', false))
unfolding Refuses
stop_session-Refuses msg ec c =
    Refuses-at msg ec c.write_msgs c.writing_flag c.stopped c.socket_open c.started
