-- ===== src/Sessions/Tcp/System/Delivery.antt =====
-- What the server posts to a TCP session is handed to its socket, once and in order.
use memory_atlas_server.Prelude.{
  ℕ, List, [], ◌∷◌, drop, append-nil, Bool-cases, true, false, ◌==◌, ==_iff, if_both, Option-cases,
  inl, inr, ◌⊎◌, some, some-injective, Text, All, ◌≡◌, refl, ap, ◌∙◌, sym, subst, arith,
}
use memory_atlas_server.Chat.State.{Post, direct, relayed}
use memory_atlas_server.Chat.Server.Posting.{deliver-Extends}
use memory_atlas_server.Sessions.Posted.{posted_to}
use memory_atlas_server.Sessions.Tcp.{Connection, enqueue, WriteEnd, written, on_write}
use memory_atlas_server.Sessions.Tcp.System.{
  TcpSession, System, with_tcp, run_task, run_delivery, end_write, Event, starts, reads, read_fails,
  delivers, write_ends, stops, at_server, step, run,
}
use memory_atlas_server.Sessions.Tcp.System.Continuing.{
  IsStopped, Continues, Continues-refl, stop_at-Continues, on_read-Continues,
  on_read_error-Continues, start_session-Continues, at_server-Continues,
}
use memory_atlas_server.Sessions.Tcp.System.Ordering.{
  IsInOrder, continued, delivered_next, written_here,
}

-- No write of this session fails.
abbrev pub WritesWell : ℕ → Event → Type 0
WritesWell a (write_ends b ec) = (b == a) ≡ true → ec ≡ written
WritesWell a (starts io b) = Unit
WritesWell a (reads io b text) = Unit
WritesWell a (read_fails io b) = Unit
WritesWell a (delivers b) = Unit
WritesWell a (stops io b) = Unit
WritesWell a (at_server io request) = Unit

abbrev Goes : ℕ → System → Type 0
Goes a σ = IsStopped (σ.tcp_session a) ⊎ IsInOrder a σ

Continues-Goes : (a : ℕ) (σ σ' : System) → Continues a σ σ' → Goes a σ → Goes a σ'
Continues-Goes a σ σ' h k = elim h.session [
  | inl stopped ↦ inl stopped
  | inr same ↦ elim k [
    | inl stopped ↦ inl (ap (λ c. c.stopped) same.connection ∙ stopped)
    | inr ordered ↦ inr (continued a σ σ' h.posted same ordered)
  ]
]

-- Another session is replaced.
elsewhere :
    (a b : ℕ) (t : TcpSession) (σ : System) → (b == a) ≡ false → Continues a σ (with_tcp b t σ)
elsewhere a b t σ e = record {
  posted = ([], sym (append-nil σ.server.posted));
  session = inr (rw e (record { connection = refl; delivered = refl }));
}

enqueue-stopped : (msg : Text) (c : Connection) → c.stopped ≡ true → (enqueue msg c).stopped ≡ true
unfolding enqueue
enqueue-stopped msg c e = simp e refl

on_write-stopped :
    (ec : WriteEnd) (c : Connection) → c.stopped ≡ true → (on_write ec c).0.stopped ≡ true
unfolding on_write
on_write-stopped ec c e = simp e refl

replaced-IsStopped :
    (a : ℕ) (t : TcpSession) (σ : System) → IsStopped t → IsStopped ((with_tcp a t σ).tcp_session a)
replaced-IsStopped a t σ h = let e : (a == a) ≡ true = (==_iff a a).1 refl in rw e h

task-IsStopped :
    (a : ℕ) (task : Post) (σ : System)
    → IsStopped (σ.tcp_session a)
    → IsStopped ((run_task a task σ).tcp_session a)
unfolding run_task
task-IsStopped a (direct msg) σ h =
    replaced-IsStopped a _ σ (enqueue-stopped msg (σ.tcp_session a).connection h)
task-IsStopped a (relayed msg) σ h = replaced-IsStopped a _ σ h

delivery-Goes : (a : ℕ) (σ : System) → Goes a σ → Goes a (run_delivery a σ)
unfolding run_delivery
delivery-Goes a σ (inr k) = inr (delivered_next a σ _ refl k)
delivery-Goes a σ (inl h) =
    next_message (drop (σ.tcp_session a).delivered (posted_to a σ.server.posted)) refl
  where
    next_message :
        (rest : List Post)
        → drop (σ.tcp_session a).delivered (posted_to a σ.server.posted) ≡ rest
        → Goes a (run_delivery a σ)
    next_message [] e = rw (e, run_delivery) (inl h)
    next_message (task ∷ rest) e = rw (e, run_delivery) (inl (task-IsStopped a task σ h))

write-Goes : (a : ℕ) (σ : System) → Goes a σ → Goes a (end_write a written σ)
unfolding end_write
write-Goes a σ (inr k) = inr (written_here a σ k)
write-Goes a σ (inl h) =
    if_both (Goes a) (σ.tcp_session a).connection.writing_flag _ _
      (inl (replaced-IsStopped a _ σ (on_write-stopped written (σ.tcp_session a).connection h)))
      (inl h)

task_elsewhere :
    (a b : ℕ) (task : Post) (σ : System) → (b == a) ≡ false → Continues a σ (run_task b task σ)
unfolding run_task
task_elsewhere a b (direct msg) σ e = elsewhere a b _ σ e
task_elsewhere a b (relayed msg) σ e = record {
  posted = deliver-Extends b msg σ.server.hub;
  session = inr (rw e (record { connection = refl; delivered = refl }));
}

delivery_elsewhere : (a b : ℕ) (σ : System) → (b == a) ≡ false → Continues a σ (run_delivery b σ)
unfolding run_delivery
delivery_elsewhere a b σ e =
    next_message (drop (σ.tcp_session b).delivered (posted_to b σ.server.posted)) refl
  where
    next_message :
        (rest : List Post)
        → drop (σ.tcp_session b).delivered (posted_to b σ.server.posted) ≡ rest
        → Continues a σ (run_delivery b σ)
    next_message [] f = rw (f, run_delivery) (Continues-refl a σ)
    next_message (task ∷ rest) f = rw (f, run_delivery) (task_elsewhere a b task σ e)

write_elsewhere :
    (a b : ℕ) (ec : WriteEnd) (σ : System) → (b == a) ≡ false → Continues a σ (end_write b ec σ)
unfolding end_write
write_elsewhere a b ec σ e =
    if_both (Continues a σ) (σ.tcp_session b).connection.writing_flag _ _ (elsewhere a b _ σ e)
      (Continues-refl a σ)

step-Goes :
    (a : ℕ) (event : Event) (σ σ' : System)
    → step event σ ≡ some σ'
    → WritesWell a event
    → Goes a σ
    → Goes a σ'
unfolding step
step-Goes a (starts io b) σ σ' e w k =
    subst (Goes a) (some-injective _ _ e)
      (Continues-Goes a σ _ (start_session-Continues io a b σ) k)
step-Goes a (reads io b text) σ σ' e w k = elim (Bool-cases (σ.tcp_session b).reading) [
  | inl reading ↦ Continues-Goes a σ σ' (on_read-Continues io a b text σ σ' (ground arith)) k
  | inr idle ↦ subst (Goes a) (some-injective σ σ' (ground arith)) k
]
step-Goes a (read_fails io b) σ σ' e w k = subst (Goes a) (some-injective _ _ e) (
    if_both (Goes a) (σ.tcp_session b).reading _ _
      (Continues-Goes a σ _ (on_read_error-Continues io a b σ) k) k)
step-Goes a (delivers b) σ σ' e w k =
    subst (Goes a) (some-injective _ _ e) (elim (Bool-cases (b == a)) [
      | inl here ↦
          subst (λ c. Goes a (run_delivery c σ)) (sym ((==_iff b a).0 here)) (delivery-Goes a σ k)
      | inr other ↦ Continues-Goes a σ _ (delivery_elsewhere a b σ other) k
    ])
step-Goes a (write_ends b ec) σ σ' e w k =
    subst (Goes a) (some-injective _ _ e) (elim (Bool-cases (b == a)) [
      | inl here ↦
          subst (λ c. Goes a (end_write c ec σ)) (sym ((==_iff b a).0 here))
            (subst (λ x. Goes a (end_write a x σ)) (sym (w here)) (write-Goes a σ k))
      | inr other ↦ Continues-Goes a σ _ (write_elsewhere a b ec σ other) k
    ])
step-Goes a (stops io b) σ σ' e w k =
    subst (Goes a) (some-injective _ _ e) (Continues-Goes a σ _ (stop_at-Continues io a b σ) k)
step-Goes a (at_server io request) σ σ' e w k =
    Continues-Goes a σ σ' (at_server-Continues io a request σ σ' e) k

run-Goes :
    (a : ℕ) (events : List Event) (σ σ' : System)
    → run events σ ≡ some σ'
    → All (WritesWell a) events
    → Goes a σ
    → Goes a σ'
unfolding run
run-Goes a [] σ σ' e w k = subst (Goes a) (some-injective _ _ e) k
run-Goes a (event ∷ events) σ σ' e w k = elim (Option-cases (step event σ)) [
  | inl fault ↦ ground arith
  | inr (τ, stepped) ↦
      run-Goes a events τ σ' (ground arith) w.1 (step-Goes a event σ τ stepped w.0 k)
]

-- In every sequence of events of the sockets, tasks of the sessions and calls at the server that
-- does not fault, after which a TCP session still runs, and in which none of its writes fails:
-- what it has handed to the socket, and then what waits in its queue, are the messages of its
-- calls of `deliver` so far, once and in the order of the calls, where a broadcast calls it by a
-- task of its own that is posted before; if this held at the start.
pub run-IsInOrder :
    (a : ℕ) (events : List Event) (σ σ' : System)
    → run events σ ≡ some σ'
    → All (WritesWell a) events
    → (σ'.tcp_session a).connection.stopped ≡ false
    → IsInOrder a σ
    → IsInOrder a σ'
run-IsInOrder a events σ σ' e w running k = elim (run-Goes a events σ σ' e w (inr k)) [
  | inl stopped ↦ ground arith
  | inr ordered ↦ ordered
]
