-- ===== src/Sessions/WebSocket/Writing.antt =====
-- The queue of a session: every message that it takes is handed to the socket once, in order.
use memory_atlas_server.Prelude.{
  List, [], ◌∷◌, ◌++◌, Bool, true, false, not, leb, if◌then◌else◌, is_empty, if_both, ◌∙◌,
  Bool-cases, inl, inr, length, some, Text, ◌≡◌, ◌≤◌, ◌+◌, ap, refl, arith, append_assoc,
  append-nil, length-append, sym,
}
use memory_atlas_server.Sessions.WebSocket.{Queue, do_write, enqueue, on_write}

-- The messages that wait behind the one being written.
unfoldable pub waiting : Queue → List Text
waiting q =
    if q.is_writing then elim q.write_msgs [ [] ↦ [] | front ∷ msgs ↦ msgs ] else q.write_msgs

-- What the session took, in order: the messages handed to the socket, then those that wait.
unfoldable pub taken : Queue → List Text
taken q = q.started ++ waiting q

-- A message is in the queue exactly while one is being written, the first of it, and the queue is
-- within its bound.
pub record IsFlowing (q : Queue) : Type 0 where
  pub busy : q.is_writing ≡ not (is_empty q.write_msgs)
  pub bounded : length q.write_msgs ≤ 100

queue : List Text → Bool → List Text → Queue
queue msgs writing started = record { write_msgs = msgs; is_writing = writing; started = started }

enqueue-at :
    (msg : Text) (msgs : List Text) (writing : Bool) (started : List Text)
    → writing ≡ not (is_empty msgs)
    → length msgs ≤ 100
    → IsFlowing (enqueue msg (queue msgs writing started))
      × (taken (enqueue msg (queue msgs writing started)) ≡ (
          if leb 100 (length msgs)
          then taken (queue msgs writing started)
          else taken (queue msgs writing started) ++ msg ∷ []))
unfolding enqueue do_write taken waiting queue
enqueue-at msg [] false started b n = (
  record { busy = refl; bounded = omega arith },
  ground (arith, append-nil (started ++ msg ∷ []), append-nil started),
)
enqueue-at msg [] true started b n = ground arith
enqueue-at msg (m ∷ msgs) false started b n = ground arith
enqueue-at msg (m ∷ msgs) true started b n = elim (Bool-cases (leb 100 (length (m ∷ msgs)))) [
  | inl t ↦ rw t (record { busy = refl; bounded = n }, refl)
  | inr f ↦ rw f (
    record { busy = refl; bounded = ground (arith, length-append msgs (msg ∷ [])) },
    sym (append_assoc started msgs (msg ∷ [])),
  )
]

-- A message delivered to a WebSocket session, with a write in flight exactly while there are
-- messages and at most a hundred of them, is taken last, unless a hundred are there: then it is
-- dropped. The queue stays so.
pub enqueue-bounded :
    (msg : Text) (q : Queue)
    → IsFlowing q
    → IsFlowing (enqueue msg q)
      × (taken (enqueue msg q)
          ≡ (if leb 100 (length q.write_msgs) then taken q else taken q ++ msg ∷ []))
unfolding queue
enqueue-bounded msg q h = enqueue-at msg q.write_msgs q.is_writing q.started h.busy h.bounded

on_write-at :
    (msgs : List Text) (writing : Bool) (started : List Text)
    → writing ≡ not (is_empty msgs)
    → length msgs ≤ 100
    → writing ≡ true
    → (q' : Queue) × (on_write false (queue msgs writing started) ≡ some (q', false))
      × IsFlowing q'
      × (taken q' ≡ taken (queue msgs writing started))
      × (length msgs ≡ length q'.write_msgs + 1)
unfolding on_write do_write taken waiting queue
on_write-at [] writing started b n w = ground arith
on_write-at (m ∷ []) false started b n w = ground arith
on_write-at (m ∷ []) true started b n w =
    (_, refl, record { busy = refl; bounded = omega arith }, refl, refl)
on_write-at (m ∷ k ∷ msgs) false started b n w = ground arith
on_write-at (m ∷ k ∷ msgs) true started b n w = (
  _,
  refl,
  record { busy = refl; bounded = omega arith },
  append_assoc started (k ∷ []) msgs,
  omega arith,
)

-- In such a WebSocket session, a write that ends well takes its message out of the queue, hands
-- the next one to the socket, and changes nothing of what the session took.
pub on_write-taken :
    (q : Queue)
    → IsFlowing q
    → q.is_writing ≡ true
    → (q' : Queue) × (on_write false q ≡ some (q', false))
      × IsFlowing q'
      × (taken q' ≡ taken q)
      × (length q.write_msgs ≡ length q'.write_msgs + 1)
unfolding queue
on_write-taken q h b = on_write-at q.write_msgs q.is_writing q.started h.busy h.bounded b

idle-at :
    (msgs : List Text) (writing : Bool) (started : List Text)
    → length msgs ≡ 0
    → (taken (queue msgs writing started) ≡ started) × (msgs ≡ [])
unfolding taken waiting queue
idle-at [] true started e = (append-nil started, refl)
idle-at [] false started e = (append-nil started, refl)
idle-at (m ∷ msgs) writing started e = ground arith

-- An empty queue has handed over all that it took.
pub taken-idle : (q : Queue) → length q.write_msgs ≡ 0 → (taken q ≡ q.started) × (q.write_msgs ≡ [])
unfolding queue
taken-idle q e = idle-at q.write_msgs q.is_writing q.started e

-- Messages delivered one after another.
pub enqueue_all : List Text → Queue → Queue
enqueue_all [] q = q
enqueue_all (msg ∷ msgs) q = enqueue_all msgs (enqueue msg q)

enqueue-stuck :
    (msg m : Text) (msgs started : List Text)
    → (rest : List Text) × (enqueue msg (queue (m ∷ msgs) false started)
        ≡ queue (m ∷ rest) false started)
unfolding enqueue queue
enqueue-stuck msg m msgs started =
    if_both (λ q. (rest : List Text) × (q ≡ queue (m ∷ rest) false started))
      (leb 100 (length (m ∷ msgs))) _ _ (msgs, refl) (msgs ++ msg ∷ [], refl)

enqueue_all-stuck :
    (texts : List Text) (m : Text) (msgs started : List Text)
    → (enqueue_all texts (queue (m ∷ msgs) false started)).started ≡ started
unfolding enqueue_all queue
enqueue_all-stuck [] m msgs started = refl
enqueue_all-stuck (text ∷ texts) m msgs started =
    let (rest, e) = enqueue-stuck text m msgs started in
    ap (λ q. (enqueue_all texts q).started) e ∙ enqueue_all-stuck texts m rest started

failed-at :
    (texts msgs : List Text) (writing : Bool) (started : List Text)
    → writing ≡ not (is_empty msgs)
    → writing ≡ true
    → (q' : Queue) × (on_write true (queue msgs writing started) ≡ some (q', true))
      × ((enqueue_all texts q').started ≡ started)
unfolding on_write queue
failed-at texts [] writing started b w = ground arith
failed-at texts (m ∷ msgs) writing started b w =
    (queue (m ∷ msgs) false started, refl, enqueue_all-stuck texts m msgs started)

-- When a write of a WebSocket session fails that has a write in flight exactly while there are
-- messages, at most a hundred, the session leaves the server, and whatever is delivered to it
-- later, it never hands another message to the socket.
pub on_write-failed :
    (texts : List Text) (q : Queue)
    → IsFlowing q
    → q.is_writing ≡ true
    → (q' : Queue) × (on_write true q ≡ some (q', true))
      × ((enqueue_all texts q').started ≡ q.started)
unfolding queue
on_write-failed texts q h b = failed-at texts q.write_msgs q.is_writing q.started h.busy b
