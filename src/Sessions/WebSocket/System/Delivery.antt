-- ===== src/Sessions/WebSocket/System/Delivery.antt =====
-- What the server posts to a WebSocket session is handed to its stream in order, but for messages
-- that the queue drops.
use memory_atlas_server.Prelude.{
  ℕ, ◌+◌, List, [], ◌∷◌, length, if◌then◌else◌, drop, Bool, Bool-cases, true, false, ◌==◌, ==_iff,
  if_both, Option, Option-cases, inl, inr, none, some, some-injective, All, ◌≡◌, refl, ap, ◌∙◌, sym,
  subst, arith,
}
use memory_atlas_server.History.Writing.{Io}
use memory_atlas_server.Chat.Server.Posting.{Extends, Extends-refl, deliver-Extends, leave-Extends}
use memory_atlas_server.Chat.State.{Server, Post, direct, relayed}
use memory_atlas_server.Sessions.Posted.{posted_to, relay}
use memory_atlas_server.Sessions.WebSocket.{Queue, on_write}
use memory_atlas_server.Sessions.WebSocket.Writing.{taken, on_write-taken}
use memory_atlas_server.Sessions.WebSocket.System.{
  System, with_ws, run_task, run_delivery, after_write, end_write, Event, handshake_ends, reads,
  delivers, write_ends, at_server, step, run,
}
use memory_atlas_server.Sessions.WebSocket.System.Continuing.{
  Continues, Continues-refl, elsewhere, end_handshake-Continues, end_read-Continues,
  at_server-Continues,
}
use memory_atlas_server.Sessions.WebSocket.System.Ordering.{
  IsOrdered, Selects, continued, replaced-IsOrdered, delivered_next,
}

-- A write that ends well, of a session that is in order.
pub record Written (a : ℕ) (σ σ' : System) : Type 0 where
  pub server : σ'.server ≡ σ.server
  pub ordered : IsOrdered a σ'
  pub taken_before : taken (σ'.ws_session a).queue ≡ taken (σ.ws_session a).queue
  pub shrinks :
      length (σ.ws_session a).queue.write_msgs
      ≡ length (σ'.ws_session a).queue.write_msgs
        + (if (σ.ws_session a).queue.is_writing then 1 else 0)

pub end_write-Written :
    (io : Io) (a : ℕ) (σ : System)
    → IsOrdered a σ
    → (σ' : System) × (end_write io false a σ ≡ some σ') × Written a σ σ'
unfolding end_write
end_write-Written io a σ k = elim (Bool-cases (σ.ws_session a).queue.is_writing) [
  | inr idle ↦ (
    σ,
    simp idle refl,
    record { server = refl; ordered = k; taken_before = refl; shrinks = ground (arith, idle) },
  )
  | inl writing ↦
      let t = σ.ws_session a in
      let (q, ended, flows, takes, shorter) = on_write-taken t.queue k.flowing writing in
      let here : (a == a) ≡ true = (==_iff a a).1 refl in
      let σ' : System = with_ws a (record t { queue = q }) σ.server σ in
      (
        σ',
        simp writing (ap (after_write io a σ) ended),
        record {
          server = refl;
          ordered =
              replaced-IsOrdered a (record t { queue = q }) σ flows
                (subst (Selects _) (sym takes) k.in_order) k.in_bounds;
          taken_before = rw here takes;
          shrinks = rw here (ground (arith, writing, shorter));
        },
      )
]

task_elsewhere :
    (a b : ℕ) (task : Post) (σ : System) → (b == a) ≡ false → Continues a σ (run_task b task σ)
unfolding run_task
task_elsewhere a b (direct msg) σ other =
    elsewhere a b _ σ.server σ other (Extends-refl σ.server.posted)
task_elsewhere a b (relayed msg) σ other =
    elsewhere a b _ (relay b msg σ.server) σ other (deliver-Extends b msg σ.server.hub)

delivery_elsewhere : (a b : ℕ) (σ : System) → (b == a) ≡ false → Continues a σ (run_delivery b σ)
unfolding run_delivery
delivery_elsewhere a b σ other =
    next_message (drop (σ.ws_session b).delivered (posted_to b σ.server.posted)) refl
  where
    next_message :
        (rest : List Post)
        → drop (σ.ws_session b).delivered (posted_to b σ.server.posted) ≡ rest
        → Continues a σ (run_delivery b σ)
    next_message [] f = rw (f, run_delivery) (Continues-refl a σ)
    next_message (task ∷ rest) f = rw (f, run_delivery) (task_elsewhere a b task σ other)

after_write-Continues :
    (io : Io) (a b : ℕ) (o : Option (Queue × Bool)) (σ σ' : System)
    → (b == a) ≡ false
    → after_write io b σ o ≡ some σ'
    → Continues a σ σ'
after_write-Continues io a b none σ σ' other e = ground arith
after_write-Continues io a b (some (q, leaves)) σ σ' other e =
    subst (Continues a σ) (some-injective _ _ e) (
      elsewhere a b _ _ σ other (
        if_both (λ (s : Server). Extends σ.server.posted s.posted) leaves _ _
          (leave-Extends io b σ.server) (Extends-refl σ.server.posted)))

write_elsewhere :
    (io : Io) (failed : Bool) (a b : ℕ) (σ σ' : System)
    → (b == a) ≡ false
    → end_write io failed b σ ≡ some σ'
    → Continues a σ σ'
unfolding end_write
write_elsewhere io failed a b σ σ' other e = elim (Bool-cases (σ.ws_session b).queue.is_writing) [
  | inl writing ↦
      after_write-Continues io a b (on_write failed (σ.ws_session b).queue) σ σ' other
        (ground arith)
  | inr idle ↦ subst (Continues a σ) (some-injective σ σ' (ground arith)) (Continues-refl a σ)
]

-- No write of this session fails.
abbrev pub WritesWell : ℕ → Event → Type 0
WritesWell a (write_ends io failed b) = (b == a) ≡ true → failed ≡ false
WritesWell a (handshake_ends io failed b) = Unit
WritesWell a (reads io end b) = Unit
WritesWell a (delivers b) = Unit
WritesWell a (at_server io request) = Unit

wrote :
    (io : Io) (failed : Bool) (a : ℕ) (σ σ' : System)
    → failed ≡ false
    → end_write io failed a σ ≡ some σ'
    → IsOrdered a σ
    → IsOrdered a σ'
wrote io failed a σ σ' well e k =
    let (τ, f, w) = end_write-Written io a σ k in
    subst (IsOrdered a) (some-injective _ _ (sym f ∙ ap (λ b. end_write io b a σ) (sym well) ∙ e))
      w.ordered

step-IsOrdered :
    (a : ℕ) (event : Event) (σ σ' : System)
    → step event σ ≡ some σ'
    → WritesWell a event
    → IsOrdered a σ
    → IsOrdered a σ'
unfolding step
step-IsOrdered a (handshake_ends io failed b) σ σ' e w k =
    subst (IsOrdered a) (some-injective _ _ e)
      (continued a σ _ (end_handshake-Continues io failed a b σ) k)
step-IsOrdered a (reads io end b) σ σ' e w k =
    continued a σ σ' (end_read-Continues io end a b σ σ' e) k
step-IsOrdered a (delivers b) σ σ' e w k =
    subst (IsOrdered a) (some-injective _ _ e) (elim (Bool-cases (b == a)) [
      | inl here ↦
          subst (λ c. IsOrdered a (run_delivery c σ)) (sym ((==_iff b a).0 here))
            (delivered_next a σ _ refl k)
      | inr other ↦ continued a σ _ (delivery_elsewhere a b σ other) k
    ])
step-IsOrdered a (write_ends io failed b) σ σ' e w k = elim (Bool-cases (b == a)) [
  | inl here ↦
      wrote io failed a σ σ' (w here)
        (subst (λ c. end_write io failed c σ ≡ some σ') ((==_iff b a).0 here) e) k
  | inr other ↦ continued a σ σ' (write_elsewhere io failed a b σ σ' other e) k
]
step-IsOrdered a (at_server io request) σ σ' e w k =
    continued a σ σ' (at_server-Continues io a request σ σ' e) k

-- In every sequence of events of the streams, tasks of the sessions and calls at the server that
-- does not fault, in which no write of a WebSocket session fails: what it has handed to its
-- stream, and then what waits in its queue, are messages of its calls of `deliver` so far, in the
-- order of the calls and each at most once, where some may have been dropped, and where a
-- broadcast calls it by a task of its own that is posted before; a write is in flight exactly
-- while there are messages, and at most a hundred are; if this held at the start.
pub run-IsOrdered :
    (a : ℕ) (events : List Event) (σ σ' : System)
    → run events σ ≡ some σ'
    → All (WritesWell a) events
    → IsOrdered a σ
    → IsOrdered a σ'
unfolding run
run-IsOrdered a [] σ σ' e w k = subst (IsOrdered a) (some-injective _ _ e) k
run-IsOrdered a (event ∷ events) σ σ' e w k = elim (Option-cases (step event σ)) [
  | inl fault ↦ ground arith
  | inr (τ, stepped) ↦
      run-IsOrdered a events τ σ' (ground arith) w.1 (step-IsOrdered a event σ τ stepped w.0 k)
]
