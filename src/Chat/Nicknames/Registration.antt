-- ===== src/Chat/Nicknames/Registration.antt =====
-- When a nickname is registered, refused, and when the registration faults.
use memory_atlas_server.Prelude.{
  ℕ, ◌≡◌, ◌≢◌, refl, sym, ◌∙◌, Bool, true, false, ◌==◌, Bool-cases, Option-cases, inl, inr, ◌⊎◌,
  Option, none, some, Text, text_eq, text_eq_iff, text_eq_refl, Map, lookup, insert, lookup-insert,
  lookup-insert_ne, arith,
}
use memory_atlas_server.Chat.State.{Server, nickname, has_proper_nickname}
use memory_atlas_server.Chat.Nicknames.{
  is_invalid_nickname, can_register, drop_old_nickname, try_register_nickname_impl,
  try_register_nickname,
}
use memory_atlas_server.Chat.Nicknames.Releasing.{
  IsTaken, IsRenaming, released_map, can_register_taken, can_register_free, lookup-can_register,
  drop_old_nickname_same, drop_old_nickname_renaming, lookup-released_map, lookup-released_map_self,
  lookup-released_map_ne, lookup-released_map_other,
}

module _ (nick : Text) (a : ℕ) (s : Server) where
  IsTaken-cases : IsTaken nick a s ⊎ (¬ IsTaken nick a s)
  IsTaken-cases = elim (Option-cases (lookup nick s.nicknames)) [
    | inl m ↦ inr (λ (b, found, live, other). ground arith)
    | inr (b, m) ↦ elim (Bool-cases (s.session_at b).alive) [
      | inr gone ↦ inr (λ (c, found, live, other). ground arith)
      | inl live ↦ elim (Bool-cases (b == a)) [
        | inl same ↦ inr (λ (c, found, _, other). other (ground arith))
        | inr other ↦ inl (b, m, live, λ e. ground arith)
      ]
    ]
  ]

  IsRenaming-cases :
      IsRenaming nick a s
      ⊎ ((has_proper_nickname (s.session_at a) ≡ false) ⊎ (nickname s.hub a ≡ nick))
  IsRenaming-cases = elim (Bool-cases (has_proper_nickname (s.session_at a))) [
    | inr e ↦ inr (inl e)
    | inl proper ↦ elim (Bool-cases (text_eq (nickname s.hub a) nick)) [
      | inl same ↦ inr (inr ((text_eq_iff _ _).0 same))
      | inr other ↦ inl (proper, λ e. ground (arith, text_eq_iff (nickname s.hub a) nick))
    ]
  ]

  -- The map after a registration: the nickname belongs to the session; its old one was there, is
  -- gone if it was the session's, and is not the session's now; every other entry is as before; and
  -- each entry of another live session is kept, be it of the old nickname.
  pub record IsRegistered (names : Map ℕ) : Type 0 where
    pub owned : lookup nick names ≡ some a
    pub released : IsRenaming nick a s → lookup (nickname s.hub a) names ≢ some a
    pub dropped :
        IsRenaming nick a s
        → (lookup (nickname s.hub a) s.nicknames ≢ none)
          × (lookup (nickname s.hub a) s.nicknames ≡ some a
              → lookup (nickname s.hub a) names ≡ none)
    pub others :
        (j : Text) → j ≢ nick → j ≢ nickname s.hub a → lookup j names ≡ lookup j s.nicknames
    pub spared :
        (j : Text) (b : ℕ)
        → j ≢ nick
        → lookup j s.nicknames ≡ some b
        → b ≢ a
        → (s.session_at b).alive ≡ true
        → lookup j names ≡ some b

  -- How a registration ends.
  abbrev pub Outcome : Option (Server × Bool) → Type 0
  Outcome r =
      (IsTaken nick a s × (r ≡ some (s, false)))
      ⊎ ((¬ IsTaken nick a s)
          × IsRenaming nick a s
          × (lookup (nickname s.hub a) s.nicknames ≡ none)
          × (r ≡ none))
      ⊎ ((names : Map ℕ) × (¬ IsTaken nick a s)
          × IsRegistered names
          × (r ≡ some (record s { nicknames = names }, true)))

  module _ (running : s.stopped ≡ false) (valid : is_invalid_nickname nick ≡ false)
      (alive : (s.session_at a).alive ≡ true) where
    register_taken : IsTaken nick a s → try_register_nickname nick a s ≡ some (s, false)
    unfolding try_register_nickname try_register_nickname_impl
    register_taken t = ground (arith, can_register_taken nick a s t)

    register_free :
        ¬ IsTaken nick a s
        → try_register_nickname nick a s
          ≡ elim (drop_old_nickname nick a s (can_register nick a s).1) [
            | none ↦ none
            | some kept ↦ some (record s { nicknames = insert nick a kept }, true)
          ]
    unfolding try_register_nickname try_register_nickname_impl
    register_free free = ground (arith, can_register_free nick a s free)

    accepted :
        (kept : Map ℕ)
        → ¬ IsTaken nick a s
        → drop_old_nickname nick a s (can_register nick a s).1 ≡ some kept
        → IsRegistered (insert nick a kept)
        → Outcome (try_register_nickname nick a s)
    accepted kept free dropped h =
        inr (inr (insert nick a kept, free, h, register_free free ∙ rw dropped refl))

    register_keeping :
        ¬ IsTaken nick a s
        → (has_proper_nickname (s.session_at a) ≡ false) ⊎ (nickname s.hub a ≡ nick)
        → Outcome (try_register_nickname nick a s)
    register_keeping free stays =
        let names = (can_register nick a s).1 in
        accepted names free (drop_old_nickname_same nick a s names stays) (record {
          owned = ground (arith, lookup-insert nick nick a names, text_eq_refl nick);
          released = λ (proper, other). ground arith;
          dropped = λ (proper, other). absurd (ground arith);
          others = λ j h _. ground (
            arith,
            lookup-insert nick j a names,
            text_eq_iff nick j,
            lookup-can_register nick a s j h,
          );
          spared = λ j b h found other live.
              lookup-insert_ne nick j a names h ∙ lookup-can_register nick a s j h ∙ found;
        })

    register_renaming :
        ¬ IsTaken nick a s → IsRenaming nick a s → Outcome (try_register_nickname nick a s)
    register_renaming free renaming =
        let names = (can_register nick a s).1 in
        let old = nickname s.hub a in
        let same : lookup old names ≡ lookup old s.nicknames =
          lookup-can_register nick a s old renaming.1 in
        elim (Option-cases (lookup old s.nicknames)) [
          | inl missing ↦ inr (
              inl (
                free,
                renaming,
                missing,
                register_free free
                    ∙ rw (drop_old_nickname_renaming nick a s names renaming)
                        (rw (same ∙ missing) refl),
              ))
          | inr (b, found) ↦
              let kept = released_map nick a s b names in
              accepted kept free
                (drop_old_nickname_renaming nick a s names renaming ∙ rw (same ∙ found) refl)
                (record {
                  owned = ground (arith, lookup-insert nick nick a kept, text_eq_refl nick);
                  released = λ _ e.
                      lookup-released_map nick a s b names (same ∙ found)
                        (sym (lookup-insert_ne nick old a kept renaming.1) ∙ e);
                  dropped = λ _. (
                    λ e. ground arith,
                    λ mine.
                        lookup-insert_ne nick old a kept renaming.1
                        ∙ lookup-released_map_self nick a s b names (ground arith) alive,
                  );
                  others = λ j h k.
                      lookup-insert_ne nick j a kept h
                      ∙ (lookup-released_map_ne nick a s b names j k
                          ∙ lookup-can_register nick a s j h);
                  spared = λ j c h owned other live.
                      lookup-insert_ne nick j a kept h
                      ∙ lookup-released_map_other nick a s b c names j (same ∙ found)
                          (lookup-can_register nick a s j h ∙ owned) other live;
                })
        ]

    -- On a running server, for a valid nickname and a live session: the nickname of another live
    -- session is refused and nothing changes; otherwise the session becomes its owner and gives up
    -- its own old one, no entry of another live session changes, be it under the old nickname, and
    -- no entry under any other nickname. The exception is a session whose old nickname is not in
    -- the map: there the registration faults.
    pub try_register_nickname-Outcome : Outcome (try_register_nickname nick a s)
    try_register_nickname-Outcome = elim IsTaken-cases [
      | inl t ↦ inl (t, register_taken t)
      | inr free ↦ elim IsRenaming-cases [
        | inl renaming ↦ register_renaming free renaming
        | inr stays ↦ register_keeping free stays
      ]
    ]
