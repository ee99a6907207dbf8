-- ===== src/Chat/Nicknames/Registry.antt =====
-- The registry holds valid nicknames only, in order, whatever the sessions ask for; the list of
-- users is what it holds of live sessions.
use memory_atlas_server.Prelude.{
  ℕ, ◌≡◌, refl, subst, List, [], ◌∷◌, Bool, true, false, not, ◌||◌, if◌then◌else◌, if_both,
  Bool-cases, Option-cases, inl, inr, Option, none, some, is_some, Text, text_eq, text_eq_iff, Map,
  lookup, insert, erase, All, All-insert, All-erase, IsAscending, IsAbove, lookup_below,
  insert-IsAscending, erase-IsAscending, arith,
}
use memory_atlas_server.Chat.State.{Server, Session, nickname}
use memory_atlas_server.Chat.Nicknames.{
  is_invalid_nickname, can_register, drop_old_nickname, try_register_nickname_impl,
  try_register_nickname, unregister_nickname, scan_users, get_user_list,
}

abbrev IsValidEntry : Text × ℕ → Type 0
IsValidEntry e = is_invalid_nickname e.0 ≡ false

pub record IsRegistry (names : Map ℕ) : Type 0 where
  pub valid : All IsValidEntry names
  pub ascending : IsAscending names

erase-IsRegistry : (k : Text) (m : Map ℕ) → IsRegistry m → IsRegistry (erase k m)
erase-IsRegistry k m h = record {
  valid = All-erase IsValidEntry k m h.valid;
  ascending = erase-IsAscending k m h.ascending;
}

insert-IsRegistry :
    (k : Text) (a : ℕ) (m : Map ℕ)
    → is_invalid_nickname k ≡ false
    → IsRegistry m
    → IsRegistry (insert k a m)
insert-IsRegistry k a m p h = record {
  valid = All-insert IsValidEntry k a m p h.valid;
  ascending = insert-IsAscending k a m h.ascending;
}

can_register-IsRegistry :
    (nick : Text) (a : ℕ) (s : Server)
    → IsRegistry s.nicknames
    → IsRegistry (can_register nick a s).1
unfolding can_register
can_register-IsRegistry nick a s h = ground (arith, erase-IsRegistry nick s.nicknames h)

drop_old_nickname-IsRegistry :
    (nick : Text) (a : ℕ) (s : Server) (names kept : Map ℕ)
    → IsRegistry names
    → drop_old_nickname nick a s names ≡ some kept
    → IsRegistry kept
unfolding drop_old_nickname
drop_old_nickname-IsRegistry nick a s names kept h e =
    ground (arith, erase-IsRegistry (nickname s.hub a) names h)

-- The registry of the state after a call, if there is one.
abbrev pub Keeps : Option (Server × Bool) → Type 0
Keeps none = Unit
Keeps (some r) = IsRegistry r.0.nicknames

insert-Keeps :
    (nick : Text) (a : ℕ) (s : Server)
    → is_invalid_nickname nick ≡ false
    → IsRegistry s.nicknames
    → Keeps (elim (drop_old_nickname nick a s (can_register nick a s).1) [
      | none ↦ none
      | some kept ↦ some (record s { nicknames = insert nick a kept }, true)
    ])
insert-Keeps nick a s valid h =
    elim (Option-cases (drop_old_nickname nick a s (can_register nick a s).1)) [
      | inl e ↦ rw e tt
      | inr (kept, e) ↦ rw e (
          insert-IsRegistry nick a kept valid
            (drop_old_nickname-IsRegistry nick a s _ kept (can_register-IsRegistry nick a s h) e))
    ]

pub impl-Keeps :
    (nick : Text) (a : ℕ) (s : Server)
    → is_invalid_nickname nick ≡ false
    → IsRegistry s.nicknames
    → Keeps (try_register_nickname_impl nick a s)
unfolding try_register_nickname_impl
impl-Keeps nick a s valid h = elim (Bool-cases (s.session_at a).alive) [
  | inr dead ↦ rw (dead, try_register_nickname_impl) h
  | inl alive ↦ elim (Bool-cases (can_register nick a s).0) [
    | inr refused ↦
        rw (alive, try_register_nickname_impl) (rw refused (can_register-IsRegistry nick a s h))
    | inl free ↦ rw (alive, try_register_nickname_impl) (rw free (insert-Keeps nick a s valid h))
  ]
]

try_register_nickname-Keeps :
    (nick : Text) (a : ℕ) (s : Server)
    → IsRegistry s.nicknames
    → Keeps (try_register_nickname nick a s)
unfolding try_register_nickname
try_register_nickname-Keeps nick a s h = elim (Bool-cases s.stopped) [
  | inl stopped ↦ simp stopped h
  | inr running ↦ elim (Bool-cases (is_invalid_nickname nick)) [
    | inl bad ↦ simp (running, bad) h
    | inr valid ↦ simp (running, valid) (impl-Keeps nick a s valid h)
  ]
]

-- A registration that does not fault leaves valid nicknames in ascending order.
pub try_register_nickname-IsRegistry :
    (nick : Text) (a : ℕ) (s s' : Server) (answer : Bool)
    → IsRegistry s.nicknames
    → try_register_nickname nick a s ≡ some (s', answer)
    → IsRegistry s'.nicknames
try_register_nickname-IsRegistry nick a s s' answer h e =
    subst Keeps e (try_register_nickname-Keeps nick a s h)

-- A registration touches the registry alone.
abbrev pub KeepsRest : Server → Option (Server × Bool) → Type 0
KeepsRest s none = Unit
KeepsRest s (some r) =
    (r.0.rooms ≡ s.rooms)
    × (r.0.sessions ≡ s.sessions)
    × (r.0.stopped ≡ s.stopped)
    × (r.0.hub ≡ s.hub)

pub impl-KeepsRest :
    (nick : Text) (a : ℕ) (s : Server) → KeepsRest s (try_register_nickname_impl nick a s)
unfolding try_register_nickname_impl
impl-KeepsRest nick a s =
    if_both (KeepsRest s) (not (s.session_at a).alive) _ _ (refl, refl, refl, refl)
      (if_both (KeepsRest s) (not (can_register nick a s).0) _ _ (refl, refl, refl, refl)
        (inserted (drop_old_nickname nick a s (can_register nick a s).1)))
  where
    inserted :
        (o : Option (Map ℕ))
        → KeepsRest s (elim o [
          | none ↦ none
          | some kept ↦ some (record s { nicknames = insert nick a kept }, true)
        ])
    inserted none = tt
    inserted (some kept) = (refl, refl, refl, refl)

try_register_nickname-KeepsRest :
    (nick : Text) (a : ℕ) (s : Server) → KeepsRest s (try_register_nickname nick a s)
unfolding try_register_nickname
try_register_nickname-KeepsRest nick a s =
    if_both (KeepsRest s) (s.stopped || is_invalid_nickname nick) _ _ (refl, refl, refl, refl)
      (impl-KeepsRest nick a s)

pub try_register_nickname-IsSameBut :
    (nick : Text) (a : ℕ) (s s' : Server) (answer : Bool)
    → try_register_nickname nick a s ≡ some (s', answer)
    → (s'.rooms ≡ s.rooms)
      × (s'.sessions ≡ s.sessions)
      × (s'.stopped ≡ s.stopped)
      × (s'.hub ≡ s.hub)
try_register_nickname-IsSameBut nick a s s' answer e =
    subst (KeepsRest s) e (try_register_nickname-KeepsRest nick a s)

pub unregister_nickname-IsRegistry :
    (nick : Text) (s : Server)
    → IsRegistry s.nicknames
    → IsRegistry (unregister_nickname nick s).nicknames
unfolding unregister_nickname
unregister_nickname-IsRegistry nick s h = ground (arith, erase-IsRegistry nick s.nicknames h)

scan_users-IsAbove :
    (k : Text) (at : ℕ → Session) (names : Map ℕ)
    → IsAbove k names
    → IsAbove k (scan_users at names).1
unfolding scan_users
scan_users-IsAbove k at [] h = tt
scan_users-IsAbove k at ((j, a) ∷ names) h = ground (arith, scan_users-IsAbove k at names h.1)

scan_users-IsAscending :
    (at : ℕ → Session) (names : Map ℕ) → IsAscending names → IsAscending (scan_users at names).1
unfolding scan_users
scan_users-IsAscending at [] h = tt
scan_users-IsAscending at ((j, a) ∷ names) h =
    ground (arith, scan_users-IsAscending at names h.1, scan_users-IsAbove j at names h.0)

scan_users-valid :
    (at : ℕ → Session) (names : Map ℕ)
    → All IsValidEntry names
    → All IsValidEntry (scan_users at names).1
unfolding scan_users
scan_users-valid at [] h = tt
scan_users-valid at ((j, a) ∷ names) h = ground (arith, scan_users-valid at names h.1)

pub scan_users-IsRegistry :
    (at : ℕ → Session) (names : Map ℕ) → IsRegistry names → IsRegistry (scan_users at names).1
scan_users-IsRegistry at names h = record {
  valid = scan_users-valid at names h.valid;
  ascending = scan_users-IsAscending at names h.ascending;
}

pub get_user_list-IsRegistry :
    (s : Server) → IsRegistry s.nicknames → IsRegistry (get_user_list s).0.nicknames
unfolding get_user_list
get_user_list-IsRegistry s h = elim (Bool-cases s.stopped) [
  | inl stopped ↦ simp stopped h
  | inr running ↦ simp running (scan_users-IsRegistry s.session_at s.nicknames h)
]

-- The owner of a nickname, as far as it is alive.
abbrev pub live_owner : Text → (ℕ → Session) → Map ℕ → Option ℕ
live_owner nick at names = elim (lookup nick names) [
  | none ↦ none
  | some a ↦ if (at a).alive then some a else none
]

abbrev pub listed : Text → List Text → Bool
listed nick [] = false
listed nick (u ∷ us) = text_eq u nick || listed nick us

scan_users-lookup :
    (nick : Text) (at : ℕ → Session) (names : Map ℕ)
    → IsAscending names
    → (listed nick (scan_users at names).0 ≡ is_some (live_owner nick at names))
      × (lookup nick (scan_users at names).1 ≡ live_owner nick at names)
unfolding scan_users lookup
scan_users-lookup nick at [] h = (refl, refl)
scan_users-lookup nick at ((j, a) ∷ names) h =
    ground
      (arith, scan_users-lookup nick at names h.1, text_eq_iff j nick, lookup_below j names h.0)

-- On a running server with a valid registry, the list of users holds a nickname exactly when it
-- belongs to a session that is alive, and the scan takes exactly the other entries out of the
-- registry.
pub get_user_list-live :
    (nick : Text) (s : Server)
    → s.stopped ≡ false
    → IsRegistry s.nicknames
    → let (s', users) = get_user_list s in
      (listed nick users ≡ is_some (live_owner nick s.session_at s.nicknames))
      × (lookup nick s'.nicknames ≡ live_owner nick s.session_at s.nicknames)
unfolding get_user_list
get_user_list-live nick s running h =
    simp running (scan_users-lookup nick s.session_at s.nicknames h.ascending)
