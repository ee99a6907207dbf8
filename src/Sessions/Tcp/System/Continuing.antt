-- ===== src/Sessions/Tcp/System/Continuing.antt =====
-- What anything but its own writes and deliveries does to a TCP session: it goes on, or is stopped.
use memory_atlas_server.Prelude.{
  ℕ, suc, List, [], ◌∷◌, Bool-cases, true, false, ◌==◌, ==_iff, if_both, Option, Option-cases, inl,
  inr, ◌⊎◌, none, some, Text, ◌≡◌, refl, ap, ◌∙◌, subst, arith, some-injective,
}
use memory_atlas_server.History.Writing.{Io}
use memory_atlas_server.Chat.State.{Server}
use memory_atlas_server.Chat.Server.{leave}
use memory_atlas_server.Chat.Server.Posting.{Extends, Extends-refl, Extends-trans, leave-Extends}
use memory_atlas_server.Chat.Server.Posting.Steps.{step-Extends}
use memory_atlas_server.Chat.Server.Requests.{Request}
use memory_atlas_server.Chat.Server.Requests
use memory_atlas_server.Sessions.Tcp.{
  Connection, stop_session, close_socket, process_command, read_lines, Action, registers, enters,
  leaves_room, lists_users, quits, says, says_in_room, replies,
}
use memory_atlas_server.Sessions.Tcp.Calls.{perform}
use memory_atlas_server.Sessions.Tcp.System.{
  TcpSession, System, update_tcp, with_tcp, do_read, is_active, stop_at, with_result, act, act_all,
  process_lines, read_on, on_read, on_read_error, start_session,
}
use memory_atlas_server.Sessions.Tcp.System.Postings.{perform-Extends, start-Extends}

-- The messages that a session has taken are the same, and so is its count of them.
pub record IsSame (t t' : TcpSession) : Type 0 where
  pub connection : t'.connection ≡ t.connection
  pub delivered : t'.delivered ≡ t.delivered

abbrev pub IsStopped : TcpSession → Type 0
IsStopped t = t.connection.stopped ≡ true

pub record Continues (a : ℕ) (σ σ' : System) : Type 0 where
  pub posted : Extends σ.server.posted σ'.server.posted
  pub session : IsStopped (σ'.tcp_session a) ⊎ IsSame (σ.tcp_session a) (σ'.tcp_session a)

is_same : (t : TcpSession) → IsSame t t
is_same t = record { connection = refl; delivered = refl }

pub Continues-refl : (a : ℕ) (σ : System) → Continues a σ σ
Continues-refl a σ = record { posted = Extends-refl _; session = inr (is_same _) }

session_trans :
    (t t' t'' : TcpSession)
    → IsStopped t' ⊎ IsSame t t'
    → IsStopped t'' ⊎ IsSame t' t''
    → IsStopped t'' ⊎ IsSame t t''
session_trans t t' t'' h (inl k) = inl k
session_trans t t' t'' (inl h) (inr k) = inl (ap (λ c. c.stopped) k.connection ∙ h)
session_trans t t' t'' (inr h) (inr k) =
    inr (record { connection = k.connection ∙ h.connection; delivered = k.delivered ∙ h.delivered })

pub Continues-trans :
    (a : ℕ) (σ σ' σ'' : System) → Continues a σ σ' → Continues a σ' σ'' → Continues a σ σ''
Continues-trans a σ σ' σ'' h k = record {
  posted = Extends-trans σ.server.posted _ _ h.posted k.posted;
  session = session_trans _ _ (σ''.tcp_session a) h.session k.session;
}

-- A session is replaced by one that goes on or is stopped, and the server by one that has posted
-- more.
replaced :
    (a b : ℕ) (t : TcpSession) (s : Server) (σ : System)
    → Extends σ.server.posted s.posted
    → IsStopped t ⊎ IsSame (σ.tcp_session b) t
    → Continues a σ (record { server = s; tcp_session = update_tcp b t σ.tcp_session })
replaced a b t s σ x h = record { posted = x; session = at_session (Bool-cases (b == a)) }
  where
    at_session :
        ((b == a) ≡ true) ⊎ ((b == a) ≡ false)
        → IsStopped (update_tcp b t σ.tcp_session a)
          ⊎ IsSame (σ.tcp_session a) (update_tcp b t σ.tcp_session a)
    at_session (inl e) =
        rw e (subst (λ c. IsStopped t ⊎ IsSame (σ.tcp_session c) t) ((==_iff b a).0 e) h)
    at_session (inr e) = rw e (inr (is_same (σ.tcp_session a)))

with_server-Continues :
    (a : ℕ) (s : Server) (σ : System)
    → Extends σ.server.posted s.posted
    → Continues a σ (record σ { server = s })
with_server-Continues a s σ x = record { posted = x; session = inr (is_same (σ.tcp_session a)) }

do_read-IsSame : (t : TcpSession) → IsSame t (do_read t)
unfolding do_read
do_read-IsSame t =
    if_both (IsSame t) (is_active t.connection) _ _ (record { connection = refl; delivered = refl })
      (is_same t)

stop-stopped : (c : Connection) → (stop_session c).0.stopped ≡ true
unfolding stop_session
stop-stopped c = ground arith

pub stop_at-Continues : (io : Io) (a b : ℕ) (σ : System) → Continues a σ (stop_at io b σ)
unfolding stop_at close_socket
stop_at-Continues io a b σ =
    if_both (Continues a σ) (stop_session (σ.tcp_session b).connection).1 _ _
      (replaced a b _ (leave io (some b) σ.server) σ (leave-Extends io b σ.server)
        (inl (stop-stopped (σ.tcp_session b).connection)))
      (Continues-refl a σ)

with_result-Continues :
    (a : ℕ) (o : Option Server) (σ σ' : System)
    → with_result σ o ≡ some σ'
    → ((s : Server) → o ≡ some s → Extends σ.server.posted s.posted)
    → Continues a σ σ'
with_result-Continues a none σ σ' e x = ground arith
with_result-Continues a (some s) σ σ' e x =
    subst (Continues a σ) (some-injective _ _ e) (with_server-Continues a s σ (x s refl))

performed-Continues :
    (io : Io) (a b : ℕ) (action : Action) (σ σ' : System)
    → with_result σ (perform io (σ.tcp_session b).connection.stopped b action σ.server) ≡ some σ'
    → Continues a σ σ'
performed-Continues io a b action σ σ' e =
    with_result-Continues a _ σ σ' e
      (perform-Extends io (σ.tcp_session b).connection.stopped b action σ.server)

act-Continues :
    (io : Io) (a b : ℕ) (action : Action) (σ σ' : System)
    → act io b action σ ≡ some σ'
    → Continues a σ σ'
unfolding act
act-Continues io a b quits σ σ' e =
    subst (Continues a σ) (some-injective _ _ e) (stop_at-Continues io a b σ)
act-Continues io a b (registers nick) σ σ' e = performed-Continues io a b (registers nick) σ σ' e
act-Continues io a b (enters room) σ σ' e = performed-Continues io a b (enters room) σ σ' e
act-Continues io a b (leaves_room room) σ σ' e =
    performed-Continues io a b (leaves_room room) σ σ' e
act-Continues io a b lists_users σ σ' e = performed-Continues io a b lists_users σ σ' e
act-Continues io a b (says message) σ σ' e = performed-Continues io a b (says message) σ σ' e
act-Continues io a b (says_in_room room message) σ σ' e =
    performed-Continues io a b (says_in_room room message) σ σ' e
act-Continues io a b (replies msg) σ σ' e = performed-Continues io a b (replies msg) σ σ' e

act_all-Continues :
    (io : Io) (a b : ℕ) (actions : List Action) (σ σ' : System)
    → act_all io b actions σ ≡ some σ'
    → Continues a σ σ'
unfolding act_all
act_all-Continues io a b [] σ σ' e =
    subst (Continues a σ) (some-injective _ _ e) (Continues-refl a σ)
act_all-Continues io a b (action ∷ actions) σ σ' e = elim (Option-cases (act io b action σ)) [
  | inl fault ↦ ground arith
  | inr (τ, acted) ↦
      Continues-trans a σ τ σ' (act-Continues io a b action σ τ acted)
        (act_all-Continues io a b actions τ σ' (ground arith))
]

process_lines-Continues :
    (io : ℕ → Io) (n a b : ℕ) (lines : List Text) (σ σ' : System)
    → process_lines io n b lines σ ≡ some σ'
    → Continues a σ σ'
unfolding process_lines
process_lines-Continues io n a b [] σ σ' e =
    subst (Continues a σ) (some-injective _ _ e) (Continues-refl a σ)
process_lines-Continues io n a b (line ∷ lines) σ σ' e =
    let actions = process_command line (σ.server.session_at b) (σ.tcp_session b).connection in
    elim (Option-cases (act_all (io n) b actions σ)) [
      | inl fault ↦ ground arith
      | inr (τ, acted) ↦
          Continues-trans a σ τ σ' (act_all-Continues (io n) a b actions σ τ acted)
            (process_lines-Continues io (suc n) a b lines τ σ' (ground arith))
    ]

-- Only `reading` changes.
with_tcp-Continues :
    (a b : ℕ) (t : TcpSession) (σ : System)
    → IsSame (σ.tcp_session b) t
    → Continues a σ (with_tcp b t σ)
with_tcp-Continues a b t σ h = replaced a b t σ.server σ (Extends-refl σ.server.posted) (inr h)

read_on-Continues :
    (a b : ℕ) (o : Option System) (σ σ' : System)
    → read_on b o ≡ some σ'
    → ((τ : System) → o ≡ some τ → Continues a σ τ)
    → Continues a σ σ'
read_on-Continues a b none σ σ' e h = ground arith
read_on-Continues a b (some τ) σ σ' e h = subst (Continues a σ) (some-injective _ _ e) (
    Continues-trans a σ τ _ (h τ refl)
      (with_tcp-Continues a b _ τ (do_read-IsSame (τ.tcp_session b))))

pub on_read-Continues :
    (io : ℕ → Io) (a b : ℕ) (text : Text) (σ σ' : System)
    → on_read io b text σ ≡ some σ'
    → Continues a σ σ'
unfolding on_read
on_read-Continues io a b text σ σ' e =
    let t = σ.tcp_session b in
    let τ = with_tcp b (record t { reading = false }) σ in
    let kept : Continues a σ τ =
      with_tcp-Continues a b _ σ (record { connection = refl; delivered = refl }) in
    elim (Bool-cases (is_active t.connection)) [
      | inl active ↦
          read_on-Continues a b (process_lines io 0 b (read_lines text) τ) σ σ' (ground arith)
            λ υ f.
              Continues-trans a σ τ υ kept
                (process_lines-Continues io 0 a b (read_lines text) τ υ f)
      | inr closed ↦ subst (Continues a σ) (some-injective _ _ (ground arith)) kept
    ]

pub on_read_error-Continues :
    (io : Io) (a b : ℕ) (σ : System) → Continues a σ (on_read_error io b σ)
unfolding on_read_error
on_read_error-Continues io a b σ =
    let t = σ.tcp_session b in
    let τ = with_tcp b (record t { reading = false }) σ in
    let kept : Continues a σ τ =
      with_tcp-Continues a b _ σ (record { connection = refl; delivered = refl }) in
    if_both (Continues a σ) (is_active t.connection) _ _
      (Continues-trans a σ τ _ kept (stop_at-Continues io a b τ)) kept

pub start_session-Continues :
    (io : Io) (a b : ℕ) (σ : System) → Continues a σ (start_session io b σ)
unfolding start_session
start_session-Continues io a b σ =
    if_both (Continues a σ) (σ.tcp_session b).connection.stopped _ _ (Continues-refl a σ) (
      replaced a b _ _ σ (start-Extends io false b σ.server)
        (inr (do_read-IsSame (σ.tcp_session b))))

pub at_server-Continues :
    (io : Io) (a : ℕ) (request : Request) (σ σ' : System)
    → with_result σ (Requests.step io request σ.server) ≡ some σ'
    → Continues a σ σ'
at_server-Continues io a request σ σ' e =
    with_result-Continues a _ σ σ' e (step-Extends io request σ.server)
