-- ===== src/Sessions/WebSocket/System/Continuing.antt =====
-- What anything but its own writes and deliveries does to a WebSocket session: nothing but whether
-- it reads.
use memory_atlas_server.Prelude.{
  ℕ, Bool, Bool-cases, false, ◌==◌, ==_iff, if_both, Option, inl, inr, none, some, ◌≡◌, refl, subst,
  arith, some-injective,
}
use memory_atlas_server.History.Writing.{Io}
use memory_atlas_server.Chat.State.{Server}
use memory_atlas_server.Chat.Server.Posting.{Extends, Extends-refl}
use memory_atlas_server.Chat.Server.Posting.Steps.{step-Extends}
use memory_atlas_server.Chat.Server.Requests.{Request}
use memory_atlas_server.Chat.Server.Requests
use memory_atlas_server.Sessions.WebSocket.Calls.{ReadEnd, on_accept, on_read}
use memory_atlas_server.Sessions.WebSocket.System.{
  WsSession, System, with_ws, end_handshake, after_read, end_read, with_result,
}
use memory_atlas_server.Sessions.WebSocket.System.Postings.{on_accept-Extends, on_read-Extends}

-- The messages that a session has taken are the same, and so is its count of them.
pub record IsSame (t t' : WsSession) : Type 0 where
  pub queue : t'.queue ≡ t.queue
  pub delivered : t'.delivered ≡ t.delivered

pub record Continues (a : ℕ) (σ σ' : System) : Type 0 where
  pub posted : Extends σ.server.posted σ'.server.posted
  pub session : IsSame (σ.ws_session a) (σ'.ws_session a)

pub Continues-refl : (a : ℕ) (σ : System) → Continues a σ σ
Continues-refl a σ = record {
  posted = Extends-refl σ.server.posted;
  session = record { queue = refl; delivered = refl };
}

-- Another session, or what a session does not take, is replaced, and the server posts more.
pub elsewhere :
    (a b : ℕ) (t : WsSession) (s : Server) (σ : System)
    → (b == a) ≡ false
    → Extends σ.server.posted s.posted
    → Continues a σ (with_ws b t s σ)
elsewhere a b t s σ other x = record {
  posted = x;
  session = rw other (record { queue = refl; delivered = refl });
}

replaced :
    (a b : ℕ) (t : WsSession) (s : Server) (σ : System)
    → IsSame (σ.ws_session b) t
    → Extends σ.server.posted s.posted
    → Continues a σ (with_ws b t s σ)
replaced a b t s σ same x = elim (Bool-cases (b == a)) [
  | inl here ↦ record {
    posted = x;
    session = rw here (subst (λ c. IsSame (σ.ws_session c) t) ((==_iff b a).0 here) same);
  }
  | inr other ↦ elsewhere a b t s σ other x
]

pub end_handshake-Continues :
    (io : Io) (failed : Bool) (a b : ℕ) (σ : System) → Continues a σ (end_handshake io failed b σ)
unfolding end_handshake
end_handshake-Continues io failed a b σ =
    if_both (Continues a σ) (σ.ws_session b).accepting _ _
      (replaced a b _ (on_accept io failed b σ.server).0 σ
        (record { queue = refl; delivered = refl }) (on_accept-Extends io failed b σ.server))
      (Continues-refl a σ)

after_read-Continues :
    (a b : ℕ) (o : Option (Server × Bool)) (σ σ' : System)
    → after_read b σ o ≡ some σ'
    → ((r : Server × Bool) → o ≡ some r → Extends σ.server.posted r.0.posted)
    → Continues a σ σ'
after_read-Continues a b none σ σ' e x = ground arith
after_read-Continues a b (some r) σ σ' e x =
    subst (Continues a σ) (some-injective _ _ e)
      (replaced a b _ r.0 σ (record { queue = refl; delivered = refl }) (x r refl))

pub end_read-Continues :
    (io : Io) (end : ReadEnd) (a b : ℕ) (σ σ' : System)
    → end_read io end b σ ≡ some σ'
    → Continues a σ σ'
unfolding end_read
end_read-Continues io end a b σ σ' e = elim (Bool-cases (σ.ws_session b).reading) [
  | inl reading ↦
      after_read-Continues a b (on_read io end b σ.server) σ σ' (ground arith)
        (on_read-Extends io end b σ.server)
  | inr idle ↦ subst (Continues a σ) (some-injective σ σ' (ground arith)) (Continues-refl a σ)
]

with_result-Continues :
    (a : ℕ) (o : Option Server) (σ σ' : System)
    → with_result σ o ≡ some σ'
    → ((s : Server) → o ≡ some s → Extends σ.server.posted s.posted)
    → Continues a σ σ'
with_result-Continues a none σ σ' e x = ground arith
with_result-Continues a (some s) σ σ' e x =
    subst (Continues a σ) (some-injective _ _ e)
      (record { posted = x s refl; session = record { queue = refl; delivered = refl } })

pub at_server-Continues :
    (io : Io) (a : ℕ) (request : Request) (σ σ' : System)
    → with_result σ (Requests.step io request σ.server) ≡ some σ'
    → Continues a σ σ'
at_server-Continues io a request σ σ' e =
    with_result-Continues a _ σ σ' e (step-Extends io request σ.server)
