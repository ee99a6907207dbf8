-- ===== src/Sessions/Tcp/System/Ordering.antt =====
-- A TCP session that is in order: it has taken the messages of the tasks that it has run, and none
-- else.
use memory_atlas_server.Prelude.{
  append-nil, suc, take-append_left, take-next, ℕ, ◌≤◌, List, [], ◌∷◌, ◌++◌, map, length, take,
  drop, true, ◌==◌, ==_iff, if_both, Text, ◌≡◌, refl, ap, ◌∙◌, sym, subst, arith, length-append,
}
use memory_atlas_server.Chat.State.{Post, direct, relayed, crlf}
use memory_atlas_server.Chat.Server.Posting.{Extends, deliver-Extends}
use memory_atlas_server.Sessions.Posted.{
  posted_to, posted_to-append, messages, messages-append, relay,
}
use memory_atlas_server.Sessions.Tcp.{written}
use memory_atlas_server.Sessions.Tcp.Writing.{IsFlowing, taken, enqueue-taken, on_write-taken}
use memory_atlas_server.Sessions.Tcp.System.{
  TcpSession, System, with_tcp, run_task, run_delivery, end_write,
}
use memory_atlas_server.Sessions.Tcp.System.Continuing.{IsSame}

-- Messages with the line end that a TCP session adds.
abbrev pub ended : List Text → List Text
ended = map (λ msg. msg ++ crlf)

-- A running session has taken the messages of its calls of `deliver`, of the first tasks posted to it,
-- as many as it has run.
pub record IsInOrder (a : ℕ) (σ : System) : Type 0 where
  pub flowing : IsFlowing (σ.tcp_session a).connection
  pub in_order :
      taken (σ.tcp_session a).connection
      ≡ ended (messages (take (σ.tcp_session a).delivered (posted_to a σ.server.posted)))
  pub in_bounds : (σ.tcp_session a).delivered ≤ length (posted_to a σ.server.posted)

pub ended-append : (xs ys : List Text) → ended (xs ++ ys) ≡ ended xs ++ ended ys
ended-append [] ys = refl
ended-append (x ∷ xs) ys = ap (◌∷◌ (x ++ crlf)) (ended-append xs ys)

pub continued :
    (a : ℕ) (σ σ' : System)
    → Extends σ.server.posted σ'.server.posted
    → IsSame (σ.tcp_session a) (σ'.tcp_session a)
    → IsInOrder a σ
    → IsInOrder a σ'
continued a σ σ' (ds, e) h k =
    let p : posted_to a σ'.server.posted ≡ posted_to a σ.server.posted ++ posted_to a ds =
      ap (posted_to a) e ∙ posted_to-append a σ.server.posted ds in
    record {
      flowing = subst IsFlowing (sym h.connection) k.flowing;
      in_order =
          ap taken h.connection
          ∙ k.in_order
          ∙ ap (λ l. ended (messages l))
              (sym (take-append_left _ _ (posted_to a ds) k.in_bounds)
                ∙ ap (take (σ.tcp_session a).delivered) (sym p)
                ∙ ap (λ n. take n (posted_to a σ'.server.posted)) (sym h.delivered));
      in_bounds =
          rw (h.delivered, p)
            (omega
              (arith, length-append (posted_to a σ.server.posted) (posted_to a ds), k.in_bounds));
    }

-- The session is replaced by another one that is in order.
pub replaced-IsInOrder :
    (a : ℕ) (t : TcpSession) (σ : System)
    → IsFlowing t.connection
    → taken t.connection ≡ ended (messages (take t.delivered (posted_to a σ.server.posted)))
    → t.delivered ≤ length (posted_to a σ.server.posted)
    → IsInOrder a (with_tcp a t σ)
replaced-IsInOrder a t σ f o b =
    let e : (a == a) ≡ true = (==_iff a a).1 refl in
    record { flowing = rw e f; in_order = rw e o; in_bounds = rw e b }

direct_next :
    (a : ℕ) (σ : System) (msg : Text) (rest : List Post)
    → drop (σ.tcp_session a).delivered (posted_to a σ.server.posted) ≡ direct msg ∷ rest
    → IsInOrder a σ
    → IsInOrder a (run_task a (direct msg) σ)
unfolding run_task
direct_next a σ msg rest e k =
    let t = σ.tcp_session a in
    let before = take t.delivered (posted_to a σ.server.posted) in
    let (f, b) = take-next t.delivered (direct msg) (posted_to a σ.server.posted) rest e in
    let (flows, takes) = enqueue-taken msg t.connection k.flowing in
    replaced-IsInOrder a _ σ flows
      (takes
        ∙ ap (λ l. l ++ (msg ++ crlf) ∷ []) k.in_order
        ∙ sym (ended-append (messages before) (msg ∷ []))
        ∙ ap ended (sym (ap messages f ∙ messages-append before (direct msg ∷ []))))
      b

relayed_next :
    (a : ℕ) (σ : System) (msg : Text) (rest : List Post)
    → drop (σ.tcp_session a).delivered (posted_to a σ.server.posted) ≡ relayed msg ∷ rest
    → IsInOrder a σ
    → IsInOrder a (run_task a (relayed msg) σ)
unfolding run_task
relayed_next a σ msg rest e k =
    let t = σ.tcp_session a in
    let before = take t.delivered (posted_to a σ.server.posted) in
    let (f, b) = take-next t.delivered (relayed msg) (posted_to a σ.server.posted) rest e in
    let τ = with_tcp a (record t { delivered = suc t.delivered }) σ in
    let counted : IsInOrder a τ =
      replaced-IsInOrder a _ σ k.flowing
        (k.in_order
          ∙ ap ended (
              sym (
                ap messages f
                ∙ messages-append before (relayed msg ∷ [])
                ∙ append-nil (messages before))))
        b in
    continued a τ (record τ { server = relay a msg σ.server }) (deliver-Extends a msg σ.server.hub)
      (record { connection = refl; delivered = refl }) counted

pub delivered_next :
    (a : ℕ) (σ : System) (rest : List Post)
    → drop (σ.tcp_session a).delivered (posted_to a σ.server.posted) ≡ rest
    → IsInOrder a σ
    → IsInOrder a (run_delivery a σ)
unfolding run_delivery
delivered_next a σ [] e k = rw (e, run_delivery) k
delivered_next a σ (direct msg ∷ rest) e k = rw (e, run_delivery) (direct_next a σ msg rest e k)
delivered_next a σ (relayed msg ∷ rest) e k = rw (e, run_delivery) (relayed_next a σ msg rest e k)

pub written_here : (a : ℕ) (σ : System) → IsInOrder a σ → IsInOrder a (end_write a written σ)
unfolding end_write
written_here a σ k =
    let (flows, takes) = on_write-taken (σ.tcp_session a).connection k.flowing in
    if_both (IsInOrder a) (σ.tcp_session a).connection.writing_flag _ _
      (replaced-IsInOrder a _ σ flows (takes ∙ k.in_order) k.in_bounds) k
