-- ===== src/Prelude/Sets.antt =====
-- `std::set<SessionPtr>`: sessions are numbered in the order of their addresses, and a set holds
-- its members in ascending order.
use Prim.Native.Nat.{ℕ, suc, ◌≤◌}
use mathlib.Core.Path.{◌≡◌, refl}
use mathlib.Core.Bool.{Bool, false, ◌||◌, not, ◌&&◌}
use mathlib.Core.List.{List, [], ◌∷◌}
use native.Mathlib.Omega.{arith}
use package.memory_atlas_server.Prelude.Tests.{ltb, ◌==◌, if◌then◌else◌}
use package.memory_atlas_server.Prelude.Lists.{length}

unfoldable pub member : ℕ → List ℕ → Bool
member a [] = false
member a (x ∷ xs) = x == a || member a xs

unfoldable pub add : ℕ → List ℕ → List ℕ
add a [] = a ∷ []
add a (x ∷ xs) = if x == a then x ∷ xs else if ltb a x then a ∷ x ∷ xs else x ∷ add a xs

unfoldable pub remove : ℕ → List ℕ → List ℕ
remove a [] = []
remove a (x ∷ xs) = let rest = remove a xs in if x == a then rest else x ∷ rest

-- Ascending, and above the bound.
abbrev pub Above : ℕ → List ℕ → Type 0
Above n [] = Unit {0}
Above n (x ∷ xs) = (n ≤ x) × Above (suc x) xs

pub member-add : (a b : ℕ) (xs : List ℕ) → member b (add a xs) ≡ (a == b || member b xs)
unfolding member add
member-add a b [] = ground arith
member-add a b (x ∷ xs) = ground (arith, member-add a b xs)

pub member-remove : (a b : ℕ) (xs : List ℕ) → member b (remove a xs) ≡ (not (a == b) && member b xs)
unfolding member remove
member-remove a b [] = ground arith
member-remove a b (x ∷ xs) = ground (arith, member-remove a b xs)

pub Above-mono : (m n : ℕ) (xs : List ℕ) → m ≤ n → Above n xs → Above m xs
Above-mono m n [] h k = tt
Above-mono m n (x ∷ xs) h k = (omega arith, k.1)

pub Above-add : (n a : ℕ) (xs : List ℕ) → n ≤ a → Above n xs → Above n (add a xs)
unfolding add
Above-add n a [] h k = (h, tt)
Above-add n a (x ∷ xs) h k = ground (arith, Above-add (suc x) a xs, Above-mono (suc a) x xs)

pub Above-remove : (n a : ℕ) (xs : List ℕ) → Above n xs → Above n (remove a xs)
unfolding remove
Above-remove n a [] k = tt
Above-remove n a (x ∷ xs) k =
    ground (arith, Above-remove (suc x) a xs k.1, Above-mono n (suc x) (remove a xs))

pub length-add-le : (a : ℕ) (xs : List ℕ) → length (add a xs) ≤ suc (length xs)
unfolding add
length-add-le a [] = omega arith
length-add-le a (x ∷ xs) = ground (arith, length-add-le a xs)

pub length-remove-le : (a : ℕ) (xs : List ℕ) → length (remove a xs) ≤ length xs
unfolding remove
length-remove-le a [] = omega arith
length-remove-le a (x ∷ xs) = ground (arith, length-remove-le a xs)

pub remove_of_not_member : (a : ℕ) (xs : List ℕ) → member a xs ≡ false → remove a xs ≡ xs
unfolding member remove
remove_of_not_member a [] h = refl
remove_of_not_member a (x ∷ xs) h = ground (arith, remove_of_not_member a xs)
