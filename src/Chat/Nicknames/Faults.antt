-- ===== src/Chat/Nicknames/Faults.antt =====
-- The registration that reads behind the end of the map, and how a client gets there.
use memory_atlas_server.Prelude.{
  ℕ, ◌≡◌, ◌≢◌, true, false, Bool-cases, inl, inr, none, some, Text, text_eq, text_eq_iff, lookup,
  arith, Map,
}
use memory_atlas_server.Chat.State.{Server, nickname}
use memory_atlas_server.Chat.Nicknames.{is_invalid_nickname, try_register_nickname}
use memory_atlas_server.Chat.Nicknames.Releasing.{IsTaken, IsRenaming}
use memory_atlas_server.Chat.Nicknames.Registration.{IsRegistered, try_register_nickname-Outcome}

module _ (nick : Text) (a : ℕ) (s : Server) (running : s.stopped ≡ false)
    (valid : is_invalid_nickname nick ≡ false) (alive : (s.session_at a).alive ≡ true) where
  -- A session whose own nickname is in the map never faults.
  pub register_no_fault :
      lookup (nickname s.hub a) s.nicknames ≢ none → try_register_nickname nick a s ≢ none
  register_no_fault there = λ e. elim (try_register_nickname-Outcome nick a s running valid alive) [
    | inl (_, r) ↦ ground arith
    | inr (inl (_, _, missing, _)) ↦ there missing
    | inr (inr (names, _, _, r)) ↦ ground arith
  ]

  -- One whose own nickname is not there faults for each nickname that is free.
  pub register_fault :
      ¬ IsTaken nick a s
      → IsRenaming nick a s
      → lookup (nickname s.hub a) s.nicknames ≡ none
      → try_register_nickname nick a s ≡ none
  register_fault free renaming missing =
      elim (try_register_nickname-Outcome nick a s running valid alive) [
        | inl (t, _) ↦ absurd (free t)
        | inr (inl (_, _, _, r)) ↦ r
        | inr (inr (names, _, h, _)) ↦ absurd ((h.dropped renaming).0 missing)
      ]

  register_free :
      ¬ IsTaken nick a s
      → lookup (nickname s.hub a) s.nicknames ≢ none
      → (names : Map ℕ) × IsRegistered nick a s names
        × (try_register_nickname nick a s ≡ some (record s { nicknames = names }, true))
  register_free free there = elim (try_register_nickname-Outcome nick a s running valid alive) [
    | inl (t, _) ↦ absurd (free t)
    | inr (inl (_, _, missing, _)) ↦ absurd (there missing)
    | inr (inr (names, _, h, r)) ↦ (names, h, r)
  ]

-- On a running server, a live session that is registered under a nickname of its own, and asks for
-- two valid free ones before the first is stored in the session, succeeds with the first and
-- faults with the second.
pub register_twice_faults :
    (first second : Text) (a : ℕ) (s : Server)
    → s.stopped ≡ false
    → is_invalid_nickname first ≡ false
    → is_invalid_nickname second ≡ false
    → (s.session_at a).alive ≡ true
    → IsRenaming first a s
    → IsRenaming second a s
    → lookup (nickname s.hub a) s.nicknames ≡ some a
    → ¬ IsTaken first a s
    → ¬ IsTaken second a s
    → (s' : Server) × (try_register_nickname first a s ≡ some (s', true))
      × (try_register_nickname second a s' ≡ none)
register_twice_faults first second a s running valid valid' alive renaming renaming' own free
      free' =
    let (names, h, r) = register_free first a s running valid alive free (λ e. ground arith) in
    let s' : Server = record s { nicknames = names } in
    (
      s',
      r,
      register_fault second a s' running valid' alive
          (λ (b, found, live, other). elim (Bool-cases (text_eq second first)) [
            | inl same ↦ ground (arith, text_eq_iff second first, h.owned)
            | inr differs ↦ free' (
              b,
              ground (arith, text_eq_iff second first, h.others second, renaming'),
              live,
              other,
            )
          ])
          renaming' ((h.dropped renaming).1 own),
    )
