-- ===== src/Sessions/WebSocket/System/Draining.antt =====
-- Everything that waits for a WebSocket session gets to its stream when its tasks run and its writes
-- end, as long as no more than a hundred messages wait.
use memory_atlas_server.Prelude.{
  ℕ, zero, suc, ◌+◌, ◌≤◌, List, [], ◌∷◌, ◌++◌, length, drop, drop-next, replicate, append-nil,
  append_assoc, Bool, true, false, not, is_empty, leb, ◌==◌, ==_iff, Option-cases, inl, inr, none,
  some, Text, ◌≡◌, refl, ap, ◌∙◌, sym, arith, length-append,
}
use memory_atlas_server.History.Writing.{Io}
use memory_atlas_server.Chat.State.{Server, Post, direct, relayed, deliver}
use memory_atlas_server.Sessions.Posted.{
  posted_to, arrivals, arrivals-relayed, work, work-relayed, drop-relay, with_posted,
}
use memory_atlas_server.Sessions.WebSocket.{Queue, do_write, enqueue}
use memory_atlas_server.Sessions.WebSocket.Writing.{IsFlowing, taken, enqueue-bounded, taken-idle}
use memory_atlas_server.Sessions.WebSocket.System.{
  System, run_task, run_delivery, Event, delivers, write_ends, step, run,
}
use memory_atlas_server.Sessions.WebSocket.System.Ordering.{IsOrdered, delivered_next}
use memory_atlas_server.Sessions.WebSocket.System.Delivery.{end_write-Written}

pub run-append :
    (events rest : List Event) (σ σ' : System)
    → run events σ ≡ some σ'
    → run (events ++ rest) σ ≡ run rest σ'
unfolding run
run-append [] rest σ σ' e = ap (λ o. elim o [ none ↦ none | some τ ↦ run rest τ ]) e
run-append (event ∷ events) rest σ σ' e = elim (Option-cases (step event σ)) [
  | inl fault ↦ ground arith
  | inr (τ, stepped) ↦ rw (stepped, run) (run-append events rest τ σ' (ground arith))
]

do_write-write_msgs :
    (msgs started : List Text) (writing : Bool)
    → (do_write (record { write_msgs = msgs; is_writing = writing; started = started })).write_msgs
      ≡ msgs
unfolding do_write
do_write-write_msgs [] started writing = refl
do_write-write_msgs (m ∷ msgs) started writing = ground arith

-- A queue with a place takes the message.
enqueue-room :
    (msg : Text) (q : Queue)
    → IsFlowing q
    → length q.write_msgs + 1 ≤ 100
    → (taken (enqueue msg q) ≡ taken q ++ msg ∷ [])
      × (length (enqueue msg q).write_msgs ≡ length q.write_msgs + 1)
unfolding enqueue
enqueue-room msg q h room =
    let full : leb 100 (length q.write_msgs) ≡ false = ground arith in
    (
      (enqueue-bounded msg q h).1 ∙ rw full refl,
      ground (
        arith,
        full,
        do_write-write_msgs (q.write_msgs ++ msg ∷ []) q.started q.is_writing,
        length-append q.write_msgs (msg ∷ []),
      ),
    )

-- The tasks that are left, run one after another.
record Delivered (a : ℕ) (rest : List Post) (σ σ' : System) : Type 0 where
  server : σ'.server ≡ with_posted σ'.server.posted σ.server
  ordered : IsOrdered a σ'
  taken_all : taken (σ'.ws_session a).queue ≡ taken (σ.ws_session a).queue ++ arrivals rest
  queue :
      length (σ'.ws_session a).queue.write_msgs
      ≡ length (σ.ws_session a).queue.write_msgs + length (arrivals rest)

delivered_direct :
    (a : ℕ) (σ : System) (msg : Text) (rest : List Post)
    → drop (σ.ws_session a).delivered (posted_to a σ.server.posted) ≡ direct msg ∷ rest
    → IsOrdered a σ
    → length (σ.ws_session a).queue.write_msgs + 1 ≤ 100
    → let σ' = run_delivery a σ in
      (σ'.server ≡ σ.server)
      × (drop (σ'.ws_session a).delivered (posted_to a σ'.server.posted) ≡ rest)
      × (taken (σ'.ws_session a).queue ≡ taken (σ.ws_session a).queue ++ msg ∷ [])
      × (length (σ'.ws_session a).queue.write_msgs ≡ length (σ.ws_session a).queue.write_msgs + 1)
unfolding run_delivery run_task
delivered_direct a σ msg rest e k room =
    let here : (a == a) ≡ true = (==_iff a a).1 refl in
    let t = σ.ws_session a in
    let (takes, grows) = enqueue-room msg t.queue k.flowing room in
    let left : drop (suc t.delivered) (posted_to a σ.server.posted) ≡ rest =
      drop-next t.delivered (posted_to a σ.server.posted) (direct msg) rest e in
    (
      rw (e, run_delivery) refl,
      rw (e, run_delivery) (rw here left),
      rw (e, run_delivery) (rw here takes),
      rw (e, run_delivery) (rw here grows),
    )

delivered_relayed :
    (a : ℕ) (σ : System) (msg : Text) (rest : List Post)
    → drop (σ.ws_session a).delivered (posted_to a σ.server.posted) ≡ relayed msg ∷ rest
    → let σ' = run_delivery a σ in
      (σ'.server ≡ with_posted σ'.server.posted σ.server)
      × (drop (σ'.ws_session a).delivered (posted_to a σ'.server.posted) ≡ rest ++ direct msg ∷ [])
      × ((σ'.ws_session a).queue ≡ (σ.ws_session a).queue)
unfolding run_delivery run_task deliver
delivered_relayed a σ msg rest e =
    let here : (a == a) ≡ true = (==_iff a a).1 refl in
    let left = drop-relay a (σ.ws_session a).delivered msg rest σ.server e in
    (
      rw (e, run_delivery) refl,
      rw (e, run_delivery) (rw here left),
      rw (e, run_delivery) (rw here refl),
    )

delivered_all :
    (a n : ℕ) (rest : List Post) (σ : System)
    → drop (σ.ws_session a).delivered (posted_to a σ.server.posted) ≡ rest
    → work rest ≡ n
    → IsOrdered a σ
    → length (σ.ws_session a).queue.write_msgs + length (arrivals rest) ≤ 100
    → (σ' : System) × (run (replicate n (delivers a)) σ ≡ some σ') × Delivered a rest σ σ'
unfolding run step
delivered_all a zero [] σ e m k room = (
  σ,
  refl,
  record {
    server = refl;
    ordered = k;
    taken_all = sym (append-nil (taken (σ.ws_session a).queue));
    queue = omega arith;
  },
)
delivered_all a (suc n) [] σ e m k room = ground arith
delivered_all a zero (task ∷ rest) σ e m k room = ground (arith, m)
delivered_all a (suc n) (direct msg ∷ rest) σ e m k room =
    let τ = run_delivery a σ in
    let (server, left, takes, grows) = delivered_direct a σ msg rest e k (omega (arith, room)) in
    let (σ', ran, h) =
      delivered_all a n rest τ left (omega (arith, m)) (delivered_next a σ (direct msg ∷ rest) e k)
        (omega (arith, room, grows)) in
    (
      σ',
      ran,
      record {
        server = h.server ∙ ap (with_posted σ'.server.posted) server;
        ordered = h.ordered;
        taken_all =
            h.taken_all
            ∙ ap (λ l. l ++ arrivals rest) takes
            ∙ append_assoc (taken (σ.ws_session a).queue) (msg ∷ []) (arrivals rest);
        queue = omega (arith, h.queue, grows);
      },
    )
delivered_all a (suc n) (relayed msg ∷ rest) σ e m k room =
    let τ = run_delivery a σ in
    let (server, left, same) = delivered_relayed a σ msg rest e in
    let again = rest ++ direct msg ∷ [] in
    let moved = arrivals-relayed msg rest in
    let (σ', ran, h) =
      delivered_all a n again τ left (omega (arith, m, work-relayed msg rest))
        (delivered_next a σ (relayed msg ∷ rest) e k) (rw (same, moved) room) in
    (
      σ',
      ran,
      record {
        server = h.server ∙ ap (with_posted σ'.server.posted) server;
        ordered = h.ordered;
        taken_all =
            h.taken_all
            ∙ ap (λ q. taken q ++ arrivals again) same
            ∙ ap (λ l. taken (σ.ws_session a).queue ++ l) moved;
        queue =
            h.queue
            ∙ ap (λ q. length q.write_msgs + length (arrivals again)) same
            ∙ ap (λ l. length (σ.ws_session a).queue.write_msgs + length l) moved;
      },
    )

writes_on : (q : Queue) (n : ℕ) → IsFlowing q → length q.write_msgs ≡ suc n → q.is_writing ≡ true
writes_on q n h e = h.busy ∙ nonempty q.write_msgs e
  where
    nonempty : (msgs : List Text) → length msgs ≡ suc n → not (is_empty msgs) ≡ true
    nonempty [] e = ground arith
    nonempty (m ∷ msgs) e = refl

-- All the writes of the messages in the queue.
record Drained (a : ℕ) (σ σ' : System) : Type 0 where
  server : σ'.server ≡ σ.server
  ordered : IsOrdered a σ'
  taken_before : taken (σ'.ws_session a).queue ≡ taken (σ.ws_session a).queue
  empty : length (σ'.ws_session a).queue.write_msgs ≡ 0

written_all :
    (io : Io) (a n : ℕ) (σ : System)
    → IsOrdered a σ
    → length (σ.ws_session a).queue.write_msgs ≡ n
    → (σ' : System) × (run (replicate n (write_ends io false a)) σ ≡ some σ') × Drained a σ σ'
unfolding run step
written_all io a zero σ k e =
    (σ, refl, record { server = refl; ordered = k; taken_before = refl; empty = e })
written_all io a (suc n) σ k e =
    let (τ, f, w) = end_write-Written io a σ k in
    let writing = writes_on (σ.ws_session a).queue n k.flowing e in
    let (σ', ran, d) = written_all io a n τ w.ordered (ground (arith, w.shrinks, writing, e)) in
    (
      σ',
      ap (λ o. elim o [ none ↦ none | some υ ↦ run (replicate n (write_ends io false a)) υ ]) f
          ∙ ran,
      record {
        server = d.server ∙ w.server;
        ordered = d.ordered;
        taken_before = d.taken_before ∙ w.taken_before;
        empty = d.empty;
      },
    )

-- The tasks that wait, with those that they post, and as many writes as there are messages then.
abbrev pub pending : Io → ℕ → System → List Event
pending io a σ =
    let t = σ.ws_session a in
    let rest = drop t.delivered (posted_to a σ.server.posted) in
    replicate (work rest) (delivers a)
    ++ replicate (length t.queue.write_msgs + length (arrivals rest)) (write_ends io false a)

-- A WebSocket session that is in order, and has at most a hundred messages that wait in its queue
-- or for its tasks: when the tasks and those that they post are run, and as many writes end well
-- as there are messages then, the stream has been handed what the session took before, then each
-- message whose `deliver` waited, then each broadcast that waited to be delivered, both once and
-- in order; the queue is empty, the session stays in order, and the server has only posted these.
pub pending-reaches :
    (io : Io) (a : ℕ) (σ : System)
    → IsOrdered a σ
    → length (σ.ws_session a).queue.write_msgs
        + length (arrivals (drop (σ.ws_session a).delivered (posted_to a σ.server.posted)))
      ≤ 100
    → (σ' : System) × (run (pending io a σ) σ ≡ some σ')
      × (σ'.server ≡ with_posted σ'.server.posted σ.server)
      × ((σ'.ws_session a).queue.started
          ≡ taken (σ.ws_session a).queue
            ++ arrivals (drop (σ.ws_session a).delivered (posted_to a σ.server.posted)))
      × ((σ'.ws_session a).queue.write_msgs ≡ [])
      × IsOrdered a σ'
pending-reaches io a σ k room =
    let rest = drop (σ.ws_session a).delivered (posted_to a σ.server.posted) in
    let (τ, ran, d) = delivered_all a (work rest) rest σ refl refl k room in
    let (σ', wrote, w) =
      written_all io a (length (σ.ws_session a).queue.write_msgs + length (arrivals rest)) τ
        d.ordered d.queue in
    let (all, empty) = taken-idle (σ'.ws_session a).queue w.empty in
    (
      σ',
      run-append (replicate (work rest) (delivers a)) _ σ τ ran ∙ wrote,
      w.server ∙ d.server ∙ ap (λ (s : Server). with_posted s.posted σ.server) (sym w.server),
      sym all ∙ w.taken_before ∙ d.taken_all,
      empty,
      w.ordered,
    )
