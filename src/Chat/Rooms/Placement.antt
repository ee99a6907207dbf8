-- ===== src/Chat/Rooms/Placement.antt =====
-- A participant's session names the room it is in, so that it is in one room at most.
use memory_atlas_server.Prelude.{
  ℕ, ◌≡◌, ◌≢◌, sym, subst, [], true, false, ◌==◌, ==_iff, Bool-cases, Option-cases, inl, inr, ◌⊎◌,
  Option, none, some, Text, text_eq, text_eq_iff, lookup, member, member-add, member-remove, arith,
}
use memory_atlas_server.Chat.State.{Server, Room, deliver, nickname, current_room}
use memory_atlas_server.Chat.Room
use memory_atlas_server.Chat.Room.Effects.{current_room-set_current_room}
use memory_atlas_server.Chat.Rooms.{
  remove_from_room, leave_old_room, find_or_create, enter_room, announce_join, join_room,
  leave_room,
}
use memory_atlas_server.Chat.Rooms.Cases.{
  Stays, left, leave_old_room_cases, join_room_cases, leave_room_cases,
}
use memory_atlas_server.Chat.Rooms.Effects.{
  without, with_participant, lookup-remove_from_room, current_room-remove_from_room,
  lookup-enter_room, current_room-enter_room, announce_join-rooms, announce_join-session_at,
}

-- The session stands in the room of that name.
abbrev pub IsIn : ℕ → Text → Server → Type 0
IsIn p k s = (r : Room) × (lookup k s.rooms ≡ some r) × (member p r.participants ≡ true)

pub record IsPlaced (s : Server) : Type 0 where
  pub placed : (p : ℕ) (k : Text) → IsIn p k s → current_room s.hub p ≡ k
  pub unnamed : lookup [] s.rooms ≡ none

-- Who is in which room after a removal, and after an entry.
module _ (name : Text) (r : Room) (a : ℕ) (s : Server) (found : lookup name s.rooms ≡ some r) where
  IsIn_of_without :
      (p : ℕ) (q : Room)
      → without a r ≡ some q
      → member p q.participants ≡ true
      → ((a == p) ≡ false) × (member p r.participants ≡ true)
  IsIn_of_without p q e m = ground (arith, member-remove a p r.participants)

  pub IsIn-remove_from_room :
      (p : ℕ) (k : Text)
      → IsIn p k (remove_from_room name r a s)
      → IsIn p k s × (((a == p) ≡ false) ⊎ (name ≢ k))
  IsIn-remove_from_room p k (q, e, m) = elim (Bool-cases (text_eq name k)) [
    | inl same ↦
        let (ne, was) =
          IsIn_of_without p q (ground (arith, lookup-remove_from_room name r a s k)) m in
        ((r, ground (arith, text_eq_iff name k), was), inl ne)
    | inr other ↦ (
      (q, ground (arith, lookup-remove_from_room name r a s k), m),
      inr (λ e'. ground (arith, text_eq_iff name k)),
    )
  ]

  pub remove_from_room-IsPlaced : IsPlaced s → IsPlaced (remove_from_room name r a s)
  remove_from_room-IsPlaced v = record {
    placed = λ p k i.
        let (was, gone) = IsIn-remove_from_room p k i in
        ground (
          arith,
          current_room-remove_from_room name r a s p,
          v.placed p k was,
          λ (m : member p r.participants ≡ true). v.placed p name (r, found, m),
        );
    unnamed = ground (arith, lookup-remove_from_room name r a s [], text_eq_iff name [], v.unnamed);
  }

-- The session is in no other room than this one.
abbrev pub IsNotElsewhere : ℕ → Text → Server → Type 0
IsNotElsewhere a name s = (k : Text) → IsIn a k s → k ≡ name

leave_old_room-IsPlaced :
    (name : Text) (a : ℕ) (s : Server) → IsPlaced s → IsPlaced (leave_old_room name a s)
leave_old_room-IsPlaced name a s v =
    leave_old_room_cases IsPlaced name a s (λ _. v)
      λ r found _. remove_from_room-IsPlaced (current_room s.hub a) r a s found v

no_room : {A : Type 0} (r : Room) (o : Option Room) → o ≡ none → o ≡ some r → A
no_room r o e f = absurd (ground (arith, e, f))

Stays-IsNotElsewhere :
    (name : Text) (a : ℕ) (s : Server) → IsPlaced s → Stays name a s → IsNotElsewhere a name s
Stays-IsNotElsewhere name a s v (inl nowhere) k (r, e, m) =
    no_room r (lookup k s.rooms) (ground (arith, v.placed a k (r, e, m), v.unnamed)) e
Stays-IsNotElsewhere name a s v (inr (inl here)) k i = ground (arith, v.placed a k i)
Stays-IsNotElsewhere name a s v (inr (inr missing)) k (r, e, m) =
    no_room r (lookup k s.rooms) (ground (arith, v.placed a k (r, e, m))) e

leave_old_room-IsNotElsewhere :
    (name : Text) (a : ℕ) (s : Server)
    → IsPlaced s
    → IsNotElsewhere a name (leave_old_room name a s)
leave_old_room-IsNotElsewhere name a s v =
    leave_old_room_cases (IsNotElsewhere a name) name a s
      (λ why. Stays-IsNotElsewhere name a s v why)
      λ r found _ k i.
        let (was, gone) = IsIn-remove_from_room (current_room s.hub a) r a s found a k i in
        absurd (ground (arith, v.placed a k was))

member-with_participant :
    (a p : ℕ) (r : Room)
    → member p (with_participant a r).participants ≡ true
    → (a ≡ p) ⊎ (member p r.participants ≡ true)
member-with_participant a p r m = ground (arith, member-add a p r.participants)

module _ (name : Text) (a : ℕ) (s : Server) where
  entered_or_was :
      (p : ℕ)
      → member p (with_participant a (find_or_create name s.rooms)).participants ≡ true
      → IsIn p name s ⊎ (a ≡ p)
  unfolding Room.create member
  entered_or_was p m = elim (Option-cases (lookup name s.rooms)) [
    | inl missing ↦
        inr (ground (arith, missing, member-with_participant a p (find_or_create name s.rooms) m))
    | inr (r, found) ↦
        let was : (a ≡ p) ⊎ (member p r.participants ≡ true) =
          member-with_participant a p r (rw (found, find_or_create) at m) in
        elim was [ inl e ↦ inr e | inr w ↦ inl (r, found, w) ]
  ]

  IsIn-enter_room :
      (p : ℕ) (k : Text) → IsIn p k (enter_room name a s) → IsIn p k s ⊎ ((a ≡ p) × (name ≡ k))
  IsIn-enter_room p k (q, e, m) = elim (Bool-cases (text_eq name k)) [
    | inl same ↦
        let eq = (text_eq_iff name k).0 same in
        let got : with_participant a (find_or_create name s.rooms) ≡ q =
          ground (arith, lookup-enter_room name a s k) in
        elim (entered_or_was p (rw got m)) [
          | inl was ↦ inl (subst (λ x. IsIn p x s) eq was)
          | inr is_a ↦ inr (is_a, eq)
        ]
    | inr other ↦ inl (q, ground (arith, lookup-enter_room name a s k), m)
  ]

  enter_room-IsPlaced :
      name ≢ [] → IsNotElsewhere a name s → IsPlaced s → IsPlaced (enter_room name a s)
  enter_room-IsPlaced proper here v = record {
    placed = λ p k i. elim (IsIn-enter_room p k i) [
      | inr (is_a, is_name) ↦ ground (arith, current_room-enter_room name a s p)
      | inl was ↦ elim (Bool-cases (a == p)) [
        | inl e ↦
            let at_k = here k (subst (λ x. IsIn x k s) (sym ((==_iff a p).0 e)) was) in
            ground (arith, current_room-enter_room name a s p)
        | inr e ↦ ground (arith, current_room-enter_room name a s p, v.placed p k was)
      ]
    ];
    unnamed = ground (arith, lookup-enter_room name a s [], text_eq_iff name [], v.unnamed);
  }

announce_join-IsPlaced :
    (nick name : Text) (a : ℕ) (s : Server) → IsPlaced s → IsPlaced (announce_join nick name a s)
announce_join-IsPlaced nick name a s v = record {
  placed = λ p k (r, e, m). ground (
    arith,
    announce_join-session_at name a s nick,
    v.placed p k (r, ground (arith, announce_join-rooms name a s nick), m),
  );
  unnamed = ground (arith, announce_join-rooms name a s nick, v.unnamed);
}

-- Where every participant stands in the room that its session names, and no room has the empty
-- name, this holds after a session has joined a room by a proper name, on every branch.
pub join_room-IsPlaced :
    (name : Text) (a : Option ℕ) (s : Server)
    → name ≢ []
    → IsPlaced s
    → IsPlaced (join_room name a s).0
join_room-IsPlaced name a s proper v =
    join_room_cases (λ r. IsPlaced r.0) name a s v
      λ b _ _. announce_join-IsPlaced (nickname s.hub b) name b _ (
        enter_room-IsPlaced name b (leave_old_room name b s) proper
          (leave_old_room-IsNotElsewhere name b s v) (leave_old_room-IsPlaced name b s v))

left-IsPlaced :
    (name : Text) (r : Room) (a : ℕ) (s : Server)
    → lookup name s.rooms ≡ some r
    → current_room s.hub a ≡ name
    → IsPlaced s
    → IsPlaced (left name r a s)
unfolding deliver
left-IsPlaced name r a s found here v =
    let after = remove_from_room-IsPlaced name r a s found v in
    record {
      placed = λ p k i.
          let (was, gone) = IsIn-remove_from_room name r a s found p k i in
          ground (
            arith,
            current_room-set_current_room a p [] (remove_from_room name r a s).hub,
            after.placed p k i,
            v.placed p k was,
          );
      unnamed = after.unnamed;
    }

-- Where every participant stands in the room that its session names, and no room has the empty
-- name, this holds after a session has left the room that it names, on every branch.
pub leave_room-IsPlaced :
    (name : Text) (a : ℕ) (s : Server)
    → current_room s.hub a ≡ name
    → IsPlaced s
    → IsPlaced (leave_room name (some a) s).0
leave_room-IsPlaced name a s here v =
    leave_room_cases (λ r. IsPlaced r.0) name (some a) s v
      λ b r e _ found. left-IsPlaced name r b s found (ground (arith, e)) v
