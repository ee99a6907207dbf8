-- ===== src/Sessions/Posted.antt =====
-- The tasks posted to one session, and the messages that they queue.
use memory_atlas_server.Prelude.{
  ℕ, suc, ◌≤◌, ◌≡◌, refl, ap, ◌∙◌, some, List, [], ◌∷◌, ◌++◌, true, false, ◌==◌, ==_iff,
  if◌then◌else◌, Option, Text, Above, member, arith, sym, append-nil, append_assoc, length,
  length-append, drop, drop-next, drop-append_left, take-next, ◌+◌,
}
use memory_atlas_server.History.Writing.{Io}
use memory_atlas_server.Chat.State.{Server, Post, direct, relayed, deliver, is_sender}
use memory_atlas_server.Chat.Broadcast.{broadcast}
use memory_atlas_server.Chat.Broadcast.Deliveries.{broadcast-Posts}
use memory_atlas_server.Chat.Room.Effects.{others}

-- The tasks posted to one session, oldest first.
abbrev pub posted_to : ℕ → List (ℕ × Post) → List Post
posted_to a [] = []
posted_to a ((b, task) ∷ posted) =
    let rest = posted_to a posted in if b == a then task ∷ rest else rest

-- The messages of the tasks of `deliver`.
abbrev pub messages : List Post → List Text
messages [] = []
messages (direct msg ∷ tasks) = msg ∷ messages tasks
messages (relayed msg ∷ tasks) = messages tasks

-- The messages of the tasks that have yet to call `deliver`.
abbrev pub relays : List Post → List Text
relays [] = []
relays (direct msg ∷ tasks) = relays tasks
relays (relayed msg ∷ tasks) = msg ∷ relays tasks

-- What these tasks queue when nothing more is posted: each relayed message is posted again, behind
-- all of them.
abbrev pub arrivals : List Post → List Text
arrivals tasks = messages tasks ++ relays tasks

-- How many tasks run until they have.
abbrev pub work : List Post → ℕ
work tasks = length tasks + length (relays tasks)

pub messages-append : (xs ys : List Post) → messages (xs ++ ys) ≡ messages xs ++ messages ys
messages-append [] ys = refl
messages-append (direct msg ∷ xs) ys = ap (◌∷◌ msg) (messages-append xs ys)
messages-append (relayed msg ∷ xs) ys = messages-append xs ys

pub relays-append : (xs ys : List Post) → relays (xs ++ ys) ≡ relays xs ++ relays ys
relays-append [] ys = refl
relays-append (direct msg ∷ xs) ys = relays-append xs ys
relays-append (relayed msg ∷ xs) ys = ap (◌∷◌ msg) (relays-append xs ys)

-- The relayed message is posted again behind the others.
pub arrivals-relayed :
    (msg : Text) (tasks : List Post)
    → arrivals (tasks ++ direct msg ∷ []) ≡ arrivals (relayed msg ∷ tasks)
arrivals-relayed msg tasks =
    rw (messages-append tasks (direct msg ∷ []), relays-append tasks (direct msg ∷ []))
      (rw (append-nil (relays tasks)) (append_assoc (messages tasks) (msg ∷ []) (relays tasks)))

pub arrivals-last :
    (msg : Text) (tasks : List Post)
    → arrivals (tasks ++ relayed msg ∷ []) ≡ arrivals tasks ++ msg ∷ []
arrivals-last msg tasks =
    rw (messages-append tasks (relayed msg ∷ []), relays-append tasks (relayed msg ∷ []))
      (rw (append-nil (messages tasks))
        (sym (append_assoc (messages tasks) (relays tasks) (msg ∷ []))))

-- The task of `broadcast_impl`, when it runs.
abbrev pub relay : ℕ → Text → Server → Server
relay a msg s = record s { hub = deliver a msg s.hub }

pub posted_to-append :
    (a : ℕ) (ds es : List (ℕ × Post)) → posted_to a (ds ++ es) ≡ posted_to a ds ++ posted_to a es
posted_to-append a [] es = refl
posted_to-append a ((b, task) ∷ ds) es = ground (arith, posted_to-append a ds es)

-- What a broadcast posts to one session.
posted_to_below :
    (sender : Option ℕ) (task : Post) (b n : ℕ) (ps : List ℕ)
    → Above n ps
    → suc b ≤ n
    → (posted_to b (others sender task ps) ≡ []) × (member b ps ≡ false)
unfolding member
posted_to_below sender task b n [] h k = (refl, refl)
posted_to_below sender task b n (p ∷ ps) h k =
    ground (arith, posted_to_below sender task b (suc p) ps h.1)

pub posted_to-others :
    (sender : Option ℕ) (task : Post) (b n : ℕ) (ps : List ℕ)
    → Above n ps
    → member b ps ≡ true
    → is_sender sender b ≡ false
    → posted_to b (others sender task ps) ≡ task ∷ []
unfolding member
posted_to-others sender task b n [] h m s = ground arith
posted_to-others sender task b n (p ∷ ps) h m s = ground (
  arith,
  posted_to-others sender task b (suc p) ps h.1,
  posted_to_below sender task b (suc p) ps h.1,
)

-- What one member posts to another by a broadcast.
pub posted_to-broadcast :
    (io : Io) (a b : ℕ) (msg : Text) (s : Server)
    → s.stopped ≡ false
    → Above 0 s.sessions
    → member b s.sessions ≡ true
    → (a == b) ≡ false
    → posted_to b (broadcast io msg (some a) s).posted ≡ posted_to b s.posted ++ relayed msg ∷ []
posted_to-broadcast io a b msg s running distinct m other =
    ap (λ (t : Server). posted_to b t.posted) (broadcast-Posts io msg (some a) s running distinct).0
    ∙ posted_to-append b s.posted (others (some a) (relayed msg) s.sessions)
    ∙ ap (λ l. posted_to b s.posted ++ l)
        (posted_to-others (some a) (relayed msg) b 0 s.sessions distinct m other)

pub posted_to-relay :
    (a : ℕ) (msg : Text) (s : Server)
    → posted_to a (relay a msg s).posted ≡ posted_to a s.posted ++ direct msg ∷ []
unfolding deliver
posted_to-relay a msg s =
    let here : (a == a) ≡ true = (==_iff a a).1 refl in
    posted_to-append a s.posted ((a, direct msg) ∷ []) ∙ rw here refl

pub work-relayed :
    (msg : Text) (tasks : List Post)
    → suc (work (tasks ++ direct msg ∷ [])) ≡ work (relayed msg ∷ tasks)
work-relayed msg tasks =
    rw (relays-append tasks (direct msg ∷ []), append-nil (relays tasks))
      (omega (arith, length-append tasks (direct msg ∷ [])))

-- The tasks that are left when a relayed message has been posted again.
pub drop-relay :
    (a n : ℕ) (msg : Text) (tasks : List Post) (s : Server)
    → drop n (posted_to a s.posted) ≡ relayed msg ∷ tasks
    → drop (suc n) (posted_to a (relay a msg s).posted) ≡ tasks ++ direct msg ∷ []
drop-relay a n msg tasks s e =
    let (_, b) = take-next n (relayed msg) (posted_to a s.posted) tasks e in
    ap (drop (suc n)) (posted_to-relay a msg s)
    ∙ drop-append_left (suc n) (posted_to a s.posted) (direct msg ∷ []) b
    ∙ ap (λ l. l ++ direct msg ∷ []) (drop-next n (posted_to a s.posted) (relayed msg) tasks e)

-- A server that has only posted more.
abbrev pub with_posted : List (ℕ × Post) → Server → Server
with_posted posted s = record s { hub = record s.hub { posted = posted } }
