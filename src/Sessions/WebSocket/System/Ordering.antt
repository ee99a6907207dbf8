-- ===== src/Sessions/WebSocket/System/Ordering.antt =====
-- A WebSocket session that is in order: it has taken the messages of the tasks that it has run,
-- but for those that its queue has dropped.
use memory_atlas_server.Prelude.{
  ℕ, suc, append-nil, ◌≤◌, List, [], ◌∷◌, ◌++◌, length, take, drop, take-append_left, take-next,
  true, ◌==◌, ==_iff, leb, if_both, Text, ◌≡◌, refl, ap, ◌∙◌, sym, subst, arith, length-append,
}
use memory_atlas_server.Chat.State.{Post, direct, relayed}
use memory_atlas_server.Chat.Server.Posting.{deliver-Extends}
use memory_atlas_server.Sessions.Posted.{
  posted_to, posted_to-append, messages, messages-append, relay,
}
use memory_atlas_server.Sessions.WebSocket.{Queue, enqueue}
use memory_atlas_server.Sessions.WebSocket.Writing.{IsFlowing, taken, enqueue-bounded}
use memory_atlas_server.Sessions.WebSocket.System.{
  WsSession, System, with_ws, run_task, run_delivery,
}
use memory_atlas_server.Sessions.WebSocket.System.Continuing.{Continues}

-- The second list is what is left of the first when some of its members are dropped.
pub data Selects : List Text → List Text → Type 0 where
  nothing : Selects [] []
  keeps : (x : Text) {xs ys : List Text} → Selects xs ys → Selects (x ∷ xs) (x ∷ ys)
  drops : (x : Text) {xs ys : List Text} → Selects xs ys → Selects (x ∷ xs) ys

Selects-keep :
    {xs ys : List Text} (x : Text) → Selects xs ys → Selects (xs ++ x ∷ []) (ys ++ x ∷ [])
Selects-keep x nothing = keeps x nothing
Selects-keep x (keeps y s) = keeps y (Selects-keep x s)
Selects-keep x (drops y s) = drops y (Selects-keep x s)

Selects-drop : {xs ys : List Text} (x : Text) → Selects xs ys → Selects (xs ++ x ∷ []) ys
Selects-drop x nothing = drops x nothing
Selects-drop x (keeps y s) = keeps y (Selects-drop x s)
Selects-drop x (drops y s) = drops y (Selects-drop x s)

-- A session has taken some of the messages of its calls of `deliver`, of the first tasks posted to
-- it, as many as it has run, and it has dropped the others.
pub record IsOrdered (a : ℕ) (σ : System) : Type 0 where
  pub flowing : IsFlowing (σ.ws_session a).queue
  pub in_order :
      Selects
        (messages (take (σ.ws_session a).delivered (posted_to a σ.server.posted)))
        (taken (σ.ws_session a).queue)
  pub in_bounds : (σ.ws_session a).delivered ≤ length (posted_to a σ.server.posted)

pub continued : (a : ℕ) (σ σ' : System) → Continues a σ σ' → IsOrdered a σ → IsOrdered a σ'
continued a σ σ' h k =
    let (ds, e) = h.posted in
    let p : posted_to a σ'.server.posted ≡ posted_to a σ.server.posted ++ posted_to a ds =
      ap (posted_to a) e ∙ posted_to-append a σ.server.posted ds in
    let same : take (σ'.ws_session a).delivered (posted_to a σ'.server.posted)
        ≡ take (σ.ws_session a).delivered (posted_to a σ.server.posted) =
      ap (λ n. take n (posted_to a σ'.server.posted)) h.session.delivered
      ∙ ap (take (σ.ws_session a).delivered) p
      ∙ take-append_left _ _ (posted_to a ds) k.in_bounds in
    record {
      flowing = subst IsFlowing (sym h.session.queue) k.flowing;
      in_order =
          subst (λ l. Selects (messages l) (taken (σ'.ws_session a).queue)) (sym same)
            (subst
              (λ q.
                Selects (messages (take (σ.ws_session a).delivered (posted_to a σ.server.posted)))
                  (taken q))
              (sym h.session.queue) k.in_order);
      in_bounds =
          rw (h.session.delivered, p)
            (omega
              (arith, length-append (posted_to a σ.server.posted) (posted_to a ds), k.in_bounds));
    }

-- The session is replaced by another one that is in order.
pub replaced-IsOrdered :
    (a : ℕ) (t : WsSession) (σ : System)
    → IsFlowing t.queue
    → Selects (messages (take t.delivered (posted_to a σ.server.posted))) (taken t.queue)
    → t.delivered ≤ length (posted_to a σ.server.posted)
    → IsOrdered a (with_ws a t σ.server σ)
replaced-IsOrdered a t σ f o b =
    let e : (a == a) ≡ true = (==_iff a a).1 refl in
    record { flowing = rw e f; in_order = rw e o; in_bounds = rw e b }

-- The next message is taken, or dropped where a hundred wait.
enqueue-Selects :
    (msg : Text) (xs : List Text) (q : Queue)
    → IsFlowing q
    → Selects xs (taken q)
    → Selects (xs ++ msg ∷ []) (taken (enqueue msg q))
enqueue-Selects msg xs q h s = subst (Selects (xs ++ msg ∷ [])) (sym (enqueue-bounded msg q h).1) (
    if_both (Selects (xs ++ msg ∷ [])) (leb 100 (length q.write_msgs)) _ _ (Selects-drop msg s)
      (Selects-keep msg s))

direct_next :
    (a : ℕ) (σ : System) (msg : Text) (rest : List Post)
    → drop (σ.ws_session a).delivered (posted_to a σ.server.posted) ≡ direct msg ∷ rest
    → IsOrdered a σ
    → IsOrdered a (run_task a (direct msg) σ)
unfolding run_task
direct_next a σ msg rest e k =
    let t = σ.ws_session a in
    let before = take t.delivered (posted_to a σ.server.posted) in
    let (f, b) = take-next t.delivered (direct msg) (posted_to a σ.server.posted) rest e in
    replaced-IsOrdered a _ σ (enqueue-bounded msg t.queue k.flowing).0
      (subst (λ l. Selects l (taken (enqueue msg t.queue)))
        (sym (ap messages f ∙ messages-append before (direct msg ∷ [])))
        (enqueue-Selects msg _ t.queue k.flowing k.in_order))
      b

relayed_next :
    (a : ℕ) (σ : System) (msg : Text) (rest : List Post)
    → drop (σ.ws_session a).delivered (posted_to a σ.server.posted) ≡ relayed msg ∷ rest
    → IsOrdered a σ
    → IsOrdered a (run_task a (relayed msg) σ)
unfolding run_task
relayed_next a σ msg rest e k =
    let t = σ.ws_session a in
    let before = take t.delivered (posted_to a σ.server.posted) in
    let (f, b) = take-next t.delivered (relayed msg) (posted_to a σ.server.posted) rest e in
    let counted : WsSession = record t { delivered = suc t.delivered } in
    let ordered : IsOrdered a (with_ws a counted σ.server σ) =
      replaced-IsOrdered a counted σ k.flowing
        (subst (λ l. Selects l (taken t.queue))
          (sym (
            ap messages f
            ∙ messages-append before (relayed msg ∷ [])
            ∙ append-nil (messages before)))
          k.in_order)
        b in
    continued a (with_ws a counted σ.server σ) (with_ws a counted (relay a msg σ.server) σ)
      (record {
        posted = deliver-Extends a msg σ.server.hub;
        session = record { queue = refl; delivered = refl };
      })
      ordered

pub delivered_next :
    (a : ℕ) (σ : System) (rest : List Post)
    → drop (σ.ws_session a).delivered (posted_to a σ.server.posted) ≡ rest
    → IsOrdered a σ
    → IsOrdered a (run_delivery a σ)
unfolding run_delivery
delivered_next a σ [] e k = rw (e, run_delivery) k
delivered_next a σ (direct msg ∷ rest) e k = rw (e, run_delivery) (direct_next a σ msg rest e k)
delivered_next a σ (relayed msg ∷ rest) e k = rw (e, run_delivery) (relayed_next a σ msg rest e k)
