-- ===== src/Prelude/Search.antt =====
-- Searching byte strings: the first position of a pattern behind a text without its first byte.
use Prim.Native.Nat.{ℕ, zero, suc, ◌+◌, ◌≤◌}
use mathlib.Core.Path.{◌≡◌, refl, ap}
use mathlib.Core.Logic.{◌≢◌}
use mathlib.Core.Bool.{true}
use mathlib.Core.Option.{none, some}
use mathlib.Core.List.{List, [], ◌∷◌, ◌++◌}
use native.Mathlib.Omega.{arith}
use package.memory_atlas_server.Prelude.Lists.{length, take, drop, All}
use package.memory_atlas_server.Prelude.Bytes.{Text, starts_with, find_text}

pub starts_with-append : (p b : Text) → starts_with p (p ++ b) ≡ true
unfolding starts_with
starts_with-append [] b = refl
starts_with-append (x ∷ p) b = ground (arith, starts_with-append p b)

pub find_text-append :
    (c : ℕ) (p a b : Text)
    → All (λ x. x ≢ c) a
    → find_text (c ∷ p) (a ++ (c ∷ p ++ b)) ≡ some (length a)
unfolding find_text starts_with
find_text-append c p [] b h = ground (arith, starts_with-append p b)
find_text-append c p (x ∷ a) b h = ground (arith, find_text-append c p a b h.1)

pub find_text-absent : (c : ℕ) (p a : Text) → All (λ x. x ≢ c) a → find_text (c ∷ p) a ≡ none
unfolding find_text starts_with
find_text-absent c p [] h = refl
find_text-absent c p (x ∷ a) h = ground (arith, find_text-absent c p a h.1)

module _ {ℓ} {A : Type ℓ} where
  pub drop-append : (xs ys : List A) (n : ℕ) → drop (length xs + n) (xs ++ ys) ≡ drop n ys
  drop-append [] ys n = let e : 0 + n ≡ n = omega arith in rw e refl
  drop-append (x ∷ xs) ys n =
      let e : suc (length xs) + n ≡ suc (length xs + n) = omega arith in rw e (drop-append xs ys n)

  pub take-append : (xs ys : List A) → take (length xs) (xs ++ ys) ≡ xs
  take-append [] ys = refl
  take-append (x ∷ xs) ys = ap (◌∷◌ x) (take-append xs ys)

  pub take-all : (n : ℕ) (xs : List A) → length xs ≤ n → take n xs ≡ xs
  take-all zero [] h = refl
  take-all zero (x ∷ xs) h = elim h [ ]
  take-all (suc n) [] h = refl
  take-all (suc n) (x ∷ xs) h = ap (◌∷◌ x) (take-all n xs (omega arith))
