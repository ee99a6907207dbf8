-- ===== src/Chat/Server/Strand/Quiet.antt =====
-- What a request does at a server that is stopped.
use memory_atlas_server.Prelude.{
  ℕ, ◌≡◌, refl, ap, ◌∙◌, sym, subst, List, [], Bool, true, false, not, if_both, Option,
  Option-cases, inl, inr, ◌⊎◌, none, some, Text, arith,
}
use memory_atlas_server.History.Writing.{Io, Disk}
use memory_atlas_server.History.Store.{History, set_enabled}
use memory_atlas_server.Chat.State.{Server, set_nickname}
use memory_atlas_server.Chat.Broadcast.{broadcast, broadcast_to_room, send_private_message}
use memory_atlas_server.Chat.Nicknames.{
  try_register_nickname, try_register_nickname_impl, can_register, drop_old_nickname, get_user_list,
}
use memory_atlas_server.Chat.Rooms.{join_room_async, leave_room, leave_room_async}
use memory_atlas_server.Chat.Server.{
  join, leave, stop, reset_history, close_sessions, set_history_enabled,
}
use memory_atlas_server.Chat.Server.Requests.{
  Request, joins, leaves, asks_nickname, stores_nickname, lists_users, enters, leaves_room,
  leaves_directly, says, says_in_room, whispers, expires, stops, resets_history, closes_sessions,
  enables_history,
}
use memory_atlas_server.Chat.Server.Requests
use memory_atlas_server.Chat.Server.Strand.Invariant.{Holds}

abbrev pub disk_of : Option History → Option Disk
disk_of none = none
disk_of (some h) = some h.disk

-- Nothing is posted to a session or written to the disk; no session joins and no room changes,
-- except that the closing of the sessions empties both and the history may be destroyed.
pub record IsQuiet (s s' : Server) : Type 0 where
  pub stopped : s'.stopped ≡ true
  pub posted : s'.posted ≡ s.posted
  pub sessions : (s'.sessions ≡ s.sessions) ⊎ (s'.sessions ≡ [])
  pub rooms : (s'.rooms ≡ s.rooms) ⊎ (s'.rooms ≡ [])
  pub disk : (disk_of s'.history ≡ disk_of s.history) ⊎ (s'.history ≡ none)

pub quiet :
    (s s' : Server)
    → s.stopped ≡ true
    → s'.stopped ≡ s.stopped
    → s'.posted ≡ s.posted
    → s'.sessions ≡ s.sessions
    → s'.rooms ≡ s.rooms
    → disk_of s'.history ≡ disk_of s.history
    → IsQuiet s s'
quiet s s' h e p m r d = record {
  stopped = e ∙ h;
  posted = p;
  sessions = inl m;
  rooms = inl r;
  disk = inl d;
}

pub unchanged : (s s' : Server) → s.stopped ≡ true → s' ≡ s → IsQuiet s s'
unchanged s s' h e = subst (IsQuiet s) (sym e) (quiet s s h refl refl refl refl refl)

pub IsQuiet-trans : (s s' s'' : Server) → IsQuiet s s' → IsQuiet s' s'' → IsQuiet s s''
IsQuiet-trans s s' s'' h k = record {
  stopped = k.stopped;
  posted = k.posted ∙ h.posted;
  sessions = kept h.sessions k.sessions;
  rooms = kept h.rooms k.rooms;
  disk = elim k.disk [
    | inr gone ↦ inr gone
    | inl same ↦ elim h.disk [
      | inl before ↦ inl (same ∙ before)
      | inr gone ↦ inr (no_disk s''.history (same ∙ ap disk_of gone))
    ]
  ];
}
  where
    kept :
        {A : Type 0} {xs ys zs : List A}
        → (ys ≡ xs) ⊎ (ys ≡ [])
        → (zs ≡ ys) ⊎ (zs ≡ [])
        → (zs ≡ xs) ⊎ (zs ≡ [])
    kept h (inr empty) = inr empty
    kept (inl same) (inl same') = inl (same' ∙ same)
    kept (inr empty) (inl same') = inr (same' ∙ empty)

    no_disk : (o : Option History) → disk_of o ≡ none → o ≡ none
    no_disk none e = refl
    no_disk (some h) e = ground arith

pub registered-IsQuiet :
    (nick : Text) (a : ℕ) (s : Server)
    → s.stopped ≡ true
    → Holds (λ (r : Server × Bool). IsQuiet s r.0) (try_register_nickname_impl nick a s)
unfolding try_register_nickname_impl
registered-IsQuiet nick a s h =
    let names = (can_register nick a s).1 in
    let P : Option (Server × Bool) → Type 0 = Holds (λ (r : Server × Bool). IsQuiet s r.0) in
    if_both P (not (s.session_at a).alive) _ _ (unchanged s s h refl) (
      if_both P (not (can_register nick a s).0) _ _ (quiet s _ h refl refl refl refl refl)
        (elim (Option-cases (drop_old_nickname nick a s names)) [
          | inl fault ↦ rw fault tt
          | inr (kept, dropped) ↦ rw dropped (quiet s _ h refl refl refl refl refl)
        ]))

pub closed-IsQuiet : (s : Server) → s.stopped ≡ true → IsQuiet s (close_sessions s).0
unfolding close_sessions
closed-IsQuiet s h = record {
  stopped = h;
  posted = refl;
  sessions = inr refl;
  rooms = inr refl;
  disk = inl refl;
}

history_enabled-disk :
    (enable : Bool) (s : Server)
    → disk_of (set_history_enabled enable s).history ≡ disk_of s.history
unfolding set_history_enabled set_enabled
history_enabled-disk enable s = elim (Option-cases s.history) [
  | inl missing ↦ rw missing refl
  | inr (h, held) ↦ rw held refl
]

register_stopped :
    (nick : Text) (a : ℕ) (s : Server)
    → s.stopped ≡ true
    → try_register_nickname nick a s ≡ some (s, false)
unfolding try_register_nickname
register_stopped nick a s h = simp h refl

pub requested-IsQuiet :
    (io : Io) (request : Request) (s : Server)
    → s.stopped ≡ true
    → Holds (IsQuiet s) (Requests.step io request s)
unfolding Requests.step join leave broadcast broadcast_to_room send_private_message get_user_list
    join_room_async leave_room leave_room_async stop reset_history set_history_enabled set_nickname
    Requests.expire
requested-IsQuiet io (joins a) s h = unchanged s _ h (simp h refl)
requested-IsQuiet io (leaves a) s h = unchanged s _ h (simp h refl)
requested-IsQuiet io (asks_nickname nick a) s h =
    subst (Holds (IsQuiet s))
      (sym (ap (λ o. elim o [ none ↦ none | some r ↦ some r.0 ]) (register_stopped nick a s h)))
      (unchanged s s h refl)
requested-IsQuiet io (stores_nickname nick a) s h = quiet s _ h refl refl refl refl refl
requested-IsQuiet io lists_users s h = unchanged s _ h (simp h refl)
requested-IsQuiet io (enters name a) s h = unchanged s _ h (simp h refl)
requested-IsQuiet io (leaves_room name a) s h = unchanged s _ h (simp h refl)
requested-IsQuiet io (leaves_directly name a) s h = unchanged s _ h (simp h refl)
requested-IsQuiet io (says message sender) s h = unchanged s _ h (simp h refl)
requested-IsQuiet io (says_in_room name message sender) s h = unchanged s _ h (simp h refl)
requested-IsQuiet io (whispers message a nick) s h = unchanged s _ h (simp h refl)
requested-IsQuiet io (expires a) s h = quiet s _ h refl refl refl refl refl
requested-IsQuiet io stops s h = unchanged s _ h (simp h refl)
requested-IsQuiet io resets_history s h = record {
  stopped = h;
  posted = refl;
  sessions = inl refl;
  rooms = inl refl;
  disk = inr refl;
}
requested-IsQuiet io closes_sessions s h = closed-IsQuiet s h
requested-IsQuiet io (enables_history enable) s h =
    quiet s _ h refl refl refl refl (history_enabled-disk enable s)
