-- ===== src/Sessions/Tcp/System/Draining.antt =====
-- Everything that waits for a TCP session gets to its socket when its tasks run and its writes end.
use memory_atlas_server.Prelude.{
  drop-next, append-nil, append_assoc, replicate, ℕ, zero, suc, ◌+◌, List, [], ◌∷◌, ◌++◌, length,
  drop, Bool, Bool-cases, true, ◌==◌, ==_iff, Option-cases, inl, inr, none, some, Text, ◌≡◌, refl,
  ap, ◌∙◌, sym, arith, length-append,
}
use memory_atlas_server.Chat.State.{Server, Post, direct, relayed, deliver, crlf}
use memory_atlas_server.Sessions.Posted.{
  posted_to, arrivals, arrivals-relayed, work, work-relayed, drop-relay, with_posted,
}
use memory_atlas_server.Sessions.Tcp.{Connection, enqueue, written, on_write, do_write_strand}
use memory_atlas_server.Sessions.Tcp.Writing.{
  IsFlowing, taken, enqueue-taken, finish_all, on_write-drains, on_write-idle,
}
use memory_atlas_server.Sessions.Tcp.System.{
  System, run_task, run_delivery, end_write, Event, delivers, write_ends, step, run,
}
use memory_atlas_server.Sessions.Tcp.System.Ordering.{
  IsInOrder, ended, delivered_next, written_here,
}

pub run-append :
    (events rest : List Event) (σ σ' : System)
    → run events σ ≡ some σ'
    → run (events ++ rest) σ ≡ run rest σ'
unfolding run
run-append [] rest σ σ' e = ap (λ o. elim o [ none ↦ none | some τ ↦ run rest τ ]) e
run-append (event ∷ events) rest σ σ' e = elim (Option-cases (step event σ)) [
  | inl fault ↦ ground arith
  | inr (τ, stepped) ↦ rw (stepped, run) (run-append events rest τ σ' (ground arith))
]

do_write_strand-write_msgs :
    (msgs started : List Text) (writing stopped socket_open : Bool)
    → (do_write_strand (record {
      write_msgs = msgs;
      writing_flag = writing;
      stopped = stopped;
      socket_open = socket_open;
      started = started;
    })).write_msgs
      ≡ msgs
unfolding do_write_strand
do_write_strand-write_msgs [] started writing stopped socket = refl
do_write_strand-write_msgs (m ∷ msgs) started writing stopped socket = ground arith

enqueue-write_msgs :
    (msg : Text) (c : Connection)
    → IsFlowing c
    → length (enqueue msg c).write_msgs ≡ length c.write_msgs + 1
unfolding enqueue
enqueue-write_msgs msg c h = ground (
  arith,
  h.running,
  do_write_strand-write_msgs (c.write_msgs ++ (msg ++ crlf) ∷ []) c.started c.writing_flag c.stopped
      c.socket_open,
  length-append c.write_msgs ((msg ++ crlf) ∷ []),
)

-- The tasks that are left, run one after another.
record Delivered (a : ℕ) (rest : List Post) (σ σ' : System) : Type 0 where
  server : σ'.server ≡ with_posted σ'.server.posted σ.server
  ordered : IsInOrder a σ'
  queued :
      taken (σ'.tcp_session a).connection
      ≡ taken (σ.tcp_session a).connection ++ ended (arrivals rest)
  queue :
      length (σ'.tcp_session a).connection.write_msgs
      ≡ length (σ.tcp_session a).connection.write_msgs + length (arrivals rest)

delivered_direct :
    (a : ℕ) (σ : System) (msg : Text) (rest : List Post)
    → drop (σ.tcp_session a).delivered (posted_to a σ.server.posted) ≡ direct msg ∷ rest
    → IsInOrder a σ
    → let σ' = run_delivery a σ in
      (σ'.server ≡ σ.server)
      × (drop (σ'.tcp_session a).delivered (posted_to a σ'.server.posted) ≡ rest)
      × (taken (σ'.tcp_session a).connection
          ≡ taken (σ.tcp_session a).connection ++ (msg ++ crlf) ∷ [])
      × (length (σ'.tcp_session a).connection.write_msgs
          ≡ length (σ.tcp_session a).connection.write_msgs + 1)
unfolding run_delivery run_task
delivered_direct a σ msg rest e k =
    let here : (a == a) ≡ true = (==_iff a a).1 refl in
    let t = σ.tcp_session a in
    let left : drop (suc t.delivered) (posted_to a σ.server.posted) ≡ rest =
      drop-next t.delivered (posted_to a σ.server.posted) (direct msg) rest e in
    (
      rw (e, run_delivery) refl,
      rw (e, run_delivery) (rw here left),
      rw (e, run_delivery) (rw here (enqueue-taken msg t.connection k.flowing).1),
      rw (e, run_delivery) (rw here (enqueue-write_msgs msg t.connection k.flowing)),
    )

delivered_relayed :
    (a : ℕ) (σ : System) (msg : Text) (rest : List Post)
    → drop (σ.tcp_session a).delivered (posted_to a σ.server.posted) ≡ relayed msg ∷ rest
    → let σ' = run_delivery a σ in
      (σ'.server ≡ with_posted σ'.server.posted σ.server)
      × (drop (σ'.tcp_session a).delivered (posted_to a σ'.server.posted) ≡ rest ++ direct msg ∷ [])
      × ((σ'.tcp_session a).connection ≡ (σ.tcp_session a).connection)
unfolding run_delivery run_task deliver
delivered_relayed a σ msg rest e =
    let here : (a == a) ≡ true = (==_iff a a).1 refl in
    let left = drop-relay a (σ.tcp_session a).delivered msg rest σ.server e in
    (
      rw (e, run_delivery) refl,
      rw (e, run_delivery) (rw here left),
      rw (e, run_delivery) (rw here refl),
    )

delivered_all :
    (a n : ℕ) (rest : List Post) (σ : System)
    → drop (σ.tcp_session a).delivered (posted_to a σ.server.posted) ≡ rest
    → work rest ≡ n
    → IsInOrder a σ
    → (σ' : System) × (run (replicate n (delivers a)) σ ≡ some σ') × Delivered a rest σ σ'
unfolding run step
delivered_all a zero [] σ e m k = (
  σ,
  refl,
  record {
    server = refl;
    ordered = k;
    queued = sym (append-nil (taken (σ.tcp_session a).connection));
    queue = omega arith;
  },
)
delivered_all a (suc n) [] σ e m k = ground arith
delivered_all a zero (task ∷ rest) σ e m k = ground (arith, m)
delivered_all a (suc n) (direct msg ∷ rest) σ e m k =
    let τ = run_delivery a σ in
    let (server, left, takes, grows) = delivered_direct a σ msg rest e k in
    let (σ', ran, h) =
      delivered_all a n rest τ left (omega (arith, m))
        (delivered_next a σ (direct msg ∷ rest) e k) in
    (
      σ',
      ran,
      record {
        server = h.server ∙ ap (with_posted σ'.server.posted) server;
        ordered = h.ordered;
        queued =
            h.queued
            ∙ ap (λ l. l ++ ended (arrivals rest)) takes
            ∙ append_assoc (taken (σ.tcp_session a).connection) ((msg ++ crlf) ∷ [])
                (ended (arrivals rest));
        queue = omega (arith, h.queue, grows);
      },
    )
delivered_all a (suc n) (relayed msg ∷ rest) σ e m k =
    let τ = run_delivery a σ in
    let (server, left, same) = delivered_relayed a σ msg rest e in
    let again = rest ++ direct msg ∷ [] in
    let (σ', ran, h) =
      delivered_all a n again τ left (omega (arith, m, work-relayed msg rest))
        (delivered_next a σ (relayed msg ∷ rest) e k) in
    (
      σ',
      ran,
      record {
        server = h.server ∙ ap (with_posted σ'.server.posted) server;
        ordered = h.ordered;
        queued =
            h.queued
            ∙ ap (λ c. taken c ++ ended (arrivals again)) same
            ∙ ap (λ l. taken (σ.tcp_session a).connection ++ ended l) (arrivals-relayed msg rest);
        queue =
            h.queue
            ∙ ap (λ c. length c.write_msgs + length (arrivals again)) same
            ∙ ap (λ l. length (σ.tcp_session a).connection.write_msgs + length l)
                (arrivals-relayed msg rest);
      },
    )

-- Writes that end well.
record Written (a n : ℕ) (σ σ' : System) : Type 0 where
  server : σ'.server ≡ σ.server
  ordered : IsInOrder a σ'
  connection : (σ'.tcp_session a).connection ≡ finish_all n (σ.tcp_session a).connection

write_one :
    (a : ℕ) (σ : System)
    → IsInOrder a σ
    → let σ' = end_write a written σ in
      (σ'.server ≡ σ.server)
      × ((σ'.tcp_session a).connection ≡ (on_write written (σ.tcp_session a).connection).0)
unfolding end_write
write_one a σ k =
    let here : (a == a) ≡ true = (==_iff a a).1 refl in
    let c = (σ.tcp_session a).connection in
    elim (Bool-cases c.writing_flag) [
      | inl writing ↦ simp writing (refl, rw here refl)
      | inr idle ↦ simp idle (refl, sym (on_write-idle c k.flowing idle))
    ]

written_all :
    (a n : ℕ) (σ : System)
    → IsInOrder a σ
    → (σ' : System) × (run (replicate n (write_ends a written)) σ ≡ some σ') × Written a n σ σ'
unfolding run step finish_all
written_all a zero σ k = (σ, refl, record { server = refl; ordered = k; connection = refl })
written_all a (suc n) σ k =
    let (server, connection) = write_one a σ k in
    let (σ', ran, h) = written_all a n (end_write a written σ) (written_here a σ k) in
    (
      σ',
      ran,
      record {
        server = h.server ∙ server;
        ordered = h.ordered;
        connection = h.connection ∙ ap (finish_all n) connection;
      },
    )

-- The tasks that wait, with those that they post, and as many writes as there are messages then.
abbrev pub pending : ℕ → System → List Event
pending a σ =
    let t = σ.tcp_session a in
    let rest = drop t.delivered (posted_to a σ.server.posted) in
    replicate (work rest) (delivers a)
    ++ replicate (length t.connection.write_msgs + length (arrivals rest)) (write_ends a written)

-- x
pub pending-drains :
    (a : ℕ) (σ : System)
    → IsInOrder a σ
    → (σ' : System) × (run (pending a σ) σ ≡ some σ')
      × (σ'.server ≡ with_posted σ'.server.posted σ.server)
      × ((σ'.tcp_session a).connection.started
          ≡ taken (σ.tcp_session a).connection
            ++ ended (arrivals (drop (σ.tcp_session a).delivered (posted_to a σ.server.posted))))
      × ((σ'.tcp_session a).connection.write_msgs ≡ [])
      × IsInOrder a σ'
pending-drains a σ k =
    let rest = drop (σ.tcp_session a).delivered (posted_to a σ.server.posted) in
    let (τ, ran, d) = delivered_all a (work rest) rest σ refl refl k in
    let m = length (σ.tcp_session a).connection.write_msgs + length (arrivals rest) in
    let (σ', wrote, w) = written_all a m τ d.ordered in
    let (started, empty, _) = on_write-drains (τ.tcp_session a).connection d.ordered.flowing in
    let c : (σ'.tcp_session a).connection
        ≡ finish_all (length (τ.tcp_session a).connection.write_msgs) (τ.tcp_session a).connection =
      w.connection ∙ ap (λ n. finish_all n (τ.tcp_session a).connection) (sym d.queue) in
    (
      σ',
      run-append (replicate (work rest) (delivers a)) _ σ τ ran ∙ wrote,
      w.server ∙ d.server ∙ ap (λ (s : Server). with_posted s.posted σ.server) (sym w.server),
      ap (λ k. k.started) c ∙ started ∙ d.queued,
      ap (λ k. k.write_msgs) c ∙ empty,
      w.ordered,
    )
