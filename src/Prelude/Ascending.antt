-- ===== src/Prelude/Ascending.antt =====
-- The order of the keys, which `std::map` keeps.
use mathlib.Core.Path.{◌≡◌, refl}
use mathlib.Core.Bool.{true, false}
use mathlib.Core.Option.{none}
use mathlib.Core.List.{[], ◌∷◌}
use native.Mathlib.Omega.{arith}
use package.memory_atlas_server.Prelude.Lists.{All}
use package.memory_atlas_server.Prelude.Bytes.{Text, text_eq_iff, text_lt, text_lt_total}
use package.memory_atlas_server.Prelude.Maps.{Map, lookup, insert, erase}

text_lt_trans : (a b c : Text) → text_lt a b ≡ true → text_lt b c ≡ true → text_lt a c ≡ true
unfolding text_lt
text_lt_trans [] [] [] h k = h
text_lt_trans [] (y ∷ b) [] h k = k
text_lt_trans [] b (z ∷ c) h k = refl
text_lt_trans (x ∷ a) [] c h k = ground arith
text_lt_trans (x ∷ a) (y ∷ b) [] h k = ground arith
text_lt_trans (x ∷ a) (y ∷ b) (z ∷ c) h k = ground (arith, text_lt_trans a b c)

text_lt_irrefl : (a : Text) → text_lt a a ≡ false
unfolding text_lt
text_lt_irrefl [] = refl
text_lt_irrefl (x ∷ a) = ground (arith, text_lt_irrefl a)

module _ {ℓ} {V : Type ℓ} where
  abbrev pub IsAbove : Text → Map V → Type 0
  IsAbove k m = All (λ (e : Text × V). text_lt k e.0 ≡ true) m

  abbrev pub IsAscending : Map V → Type 0
  IsAscending [] = Unit
  IsAscending ((k, v) ∷ m) = IsAbove k m × IsAscending m

  pub lookup_below : (k : Text) (m : Map V) → IsAbove k m → lookup k m ≡ none
  unfolding lookup
  lookup_below k [] h = refl
  lookup_below k ((j, v) ∷ m) h =
      ground (arith, text_eq_iff j k, text_lt_irrefl k, lookup_below k m h.1)

  IsAbove-trans : (j k : Text) (m : Map V) → text_lt j k ≡ true → IsAbove k m → IsAbove j m
  IsAbove-trans j k [] h a = tt
  IsAbove-trans j k ((i, v) ∷ m) h a = (text_lt_trans j k i h a.0, IsAbove-trans j k m h a.1)

  IsAbove-insert :
      (j k : Text) (v : V) (m : Map V) → text_lt j k ≡ true → IsAbove j m → IsAbove j (insert k v m)
  unfolding insert
  IsAbove-insert j k v [] h a = (h, tt)
  IsAbove-insert j k v ((i, w) ∷ m) h a = ground (arith, IsAbove-insert j k v m h a.1)

  pub insert-IsAscending :
      (k : Text) (v : V) (m : Map V) → IsAscending m → IsAscending (insert k v m)
  unfolding insert
  insert-IsAscending k v [] h = (tt, tt)
  insert-IsAscending k v ((j, w) ∷ m) h = ground (
    arith,
    text_eq_iff j k,
    insert-IsAscending k v m h.1,
    IsAbove-insert j k v m,
    IsAbove-trans k j m,
    text_lt_total k j,
  )

  IsAbove-erase : (j k : Text) (m : Map V) → IsAbove j m → IsAbove j (erase k m)
  unfolding erase
  IsAbove-erase j k [] a = tt
  IsAbove-erase j k ((i, w) ∷ m) a = ground (arith, IsAbove-erase j k m a.1)

  pub erase-IsAscending : (k : Text) (m : Map V) → IsAscending m → IsAscending (erase k m)
  unfolding erase
  erase-IsAscending k [] h = tt
  erase-IsAscending k ((j, w) ∷ m) h =
      ground (arith, erase-IsAscending k m h.1, IsAbove-erase j k m h.0)
