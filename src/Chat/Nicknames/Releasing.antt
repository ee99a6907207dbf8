-- ===== src/Chat/Nicknames/Releasing.antt =====
-- The steps of a registration: the test of the new nickname, and the removal of the old one.
use memory_atlas_server.Prelude.{
  ℕ, ◌≡◌, ◌≢◌, refl, sym, ap, some-injective, ◌∙◌, true, false, not, ◌&&◌, ◌==◌, if◌then◌else◌,
  Bool-cases, Option-cases, inl, inr, ◌⊎◌, none, some, Text, text_eq, text_eq_iff, text_eq_refl,
  Map, lookup, erase, lookup-erase, arith,
}
use memory_atlas_server.Chat.State.{Server, nickname, has_proper_nickname}
use memory_atlas_server.Chat.Nicknames.{can_register, drop_old_nickname}

-- The nickname belongs to another session that is alive.
abbrev pub IsTaken : Text → ℕ → Server → Type 0
IsTaken nick a s =
    (b : ℕ) × (lookup nick s.nicknames ≡ some b) × ((s.session_at b).alive ≡ true) × (b ≢ a)

-- The session has a nickname of its own, other than the new one.
abbrev pub IsRenaming : Text → ℕ → Server → Type 0
IsRenaming nick a s = (has_proper_nickname (s.session_at a) ≡ true) × (nickname s.hub a ≢ nick)

module _ (nick : Text) (a : ℕ) (s : Server) where
  -- The map without the old nickname, unless another live session owns it.
  abbrev pub released_map : ℕ → Map ℕ → Map ℕ
  released_map owner names =
      if owner == a && (s.session_at owner).alive
      then erase (nickname s.hub a) names
      else if not (s.session_at owner).alive
      then erase (nickname s.hub a) names
      else names

  pub can_register_taken : IsTaken nick a s → can_register nick a s ≡ (false, s.nicknames)
  unfolding can_register
  can_register_taken (b, found, live, other) = rw (found, can_register) (ground (arith, live))

  pub can_register_free : ¬ IsTaken nick a s → (can_register nick a s).0 ≡ true
  unfolding can_register
  can_register_free free = elim (Option-cases (lookup nick s.nicknames)) [
    | inl m ↦ rw (m, can_register) refl
    | inr (b, m) ↦ elim (Bool-cases (s.session_at b).alive) [
      | inr gone ↦ rw (m, can_register) (ground arith)
      | inl live ↦ elim (Bool-cases (b == a)) [
        | inl same ↦ rw (m, can_register) (ground arith)
        | inr other ↦ absurd (free (b, m, live, λ e. ground arith))
      ]
    ]
  ]

  pub lookup-can_register :
      (j : Text) → j ≢ nick → lookup j (can_register nick a s).1 ≡ lookup j s.nicknames
  unfolding can_register
  lookup-can_register j other = elim (Option-cases (lookup nick s.nicknames)) [
    | inl m ↦ rw (m, can_register) refl
    | inr (b, m) ↦
        rw (m, can_register) (ground (arith, lookup-erase nick j s.nicknames, text_eq_iff nick j))
  ]

  pub drop_old_nickname_same :
      (names : Map ℕ)
      → (has_proper_nickname (s.session_at a) ≡ false) ⊎ (nickname s.hub a ≡ nick)
      → drop_old_nickname nick a s names ≡ some names
  unfolding drop_old_nickname
  drop_old_nickname_same names h = ground (arith, text_eq_iff (nickname s.hub a) nick)

  pub drop_old_nickname_renaming :
      (names : Map ℕ)
      → IsRenaming nick a s
      → drop_old_nickname nick a s names ≡ elim (lookup (nickname s.hub a) names) [
        | none ↦ none
        | some owner ↦ some (released_map owner names)
      ]
  unfolding drop_old_nickname
  drop_old_nickname_renaming names (proper, other) =
      ground (arith, text_eq_iff (nickname s.hub a) nick, proper)

  pub lookup-released_map :
      (owner : ℕ) (names : Map ℕ)
      → lookup (nickname s.hub a) names ≡ some owner
      → lookup (nickname s.hub a) (released_map owner names) ≢ some a
  lookup-released_map owner names found = λ e. ground (
    arith,
    lookup-erase (nickname s.hub a) (nickname s.hub a) names,
    text_eq_refl (nickname s.hub a),
    found,
    e,
  )

  pub lookup-released_map_self :
      (owner : ℕ) (names : Map ℕ)
      → owner ≡ a
      → (s.session_at a).alive ≡ true
      → lookup (nickname s.hub a) (released_map owner names) ≡ none
  lookup-released_map_self owner names own alive = ground (
    arith,
    lookup-erase (nickname s.hub a) (nickname s.hub a) names,
    text_eq_refl (nickname s.hub a),
  )

  pub lookup-released_map_ne :
      (owner : ℕ) (names : Map ℕ) (j : Text)
      → j ≢ nickname s.hub a
      → lookup j (released_map owner names) ≡ lookup j names
  lookup-released_map_ne owner names j other =
      ground (arith, lookup-erase (nickname s.hub a) j names, text_eq_iff (nickname s.hub a) j)

  pub lookup-released_map_other :
      (owner b : ℕ) (names : Map ℕ) (j : Text)
      → lookup (nickname s.hub a) names ≡ some owner
      → lookup j names ≡ some b
      → b ≢ a
      → (s.session_at b).alive ≡ true
      → lookup j (released_map owner names) ≡ some b
  lookup-released_map_other owner b names j held found other live =
      elim (Bool-cases (text_eq (nickname s.hub a) j)) [
        | inr apart ↦
            lookup-released_map_ne owner names j
              (λ e. ground (arith, text_eq_iff (nickname s.hub a) j, e))
            ∙ found
        | inl same ↦
            let same_owner : owner ≡ b =
              some-injective _ _
                (sym held ∙ ap (λ k. lookup k names) ((text_eq_iff _ _).0 same) ∙ found) in
            rw same_owner (ground (arith, found, live, other))
      ]
