-- ===== src/Prelude/Lists.antt =====
-- Lists measured by the native numbers, and a predicate on all members.
use Prim.Native.Nat.{ℕ, zero, suc, ◌+◌, ◌-◌, ◌≤◌}
use mathlib.Core.Path.{◌≡◌, refl, ap}
use mathlib.Core.List.{List, [], ◌∷◌, ◌++◌}
use native.Mathlib.Omega.{arith}

module _ {ℓ} {A : Type ℓ} where
  abbrev pub length : List A → ℕ
  length [] = 0
  length (x ∷ xs) = suc (length xs)

  -- Take and drop stop at the end of the list.
  abbrev pub take : ℕ → List A → List A
  take zero xs = []
  take (suc n) [] = []
  take (suc n) (x ∷ xs) = x ∷ take n xs

  abbrev pub drop : ℕ → List A → List A
  drop zero xs = xs
  drop (suc n) [] = []
  drop (suc n) (x ∷ xs) = drop n xs

  abbrev pub replicate : ℕ → A → List A
  replicate zero x = []
  replicate (suc n) x = x ∷ replicate n x

  pub length-append : (xs ys : List A) → length (xs ++ ys) ≡ length xs + length ys
  length-append [] ys = omega arith
  length-append (x ∷ xs) ys = omega (arith, length-append xs ys)

  pub take-drop : (n : ℕ) (xs : List A) → take n xs ++ drop n xs ≡ xs
  take-drop zero xs = refl
  take-drop (suc n) [] = refl
  take-drop (suc n) (x ∷ xs) = ap (◌∷◌ x) (take-drop n xs)

  pub length-drop : (n : ℕ) (xs : List A) → length (drop n xs) ≡ length xs - n
  length-drop zero xs = omega arith
  length-drop (suc n) [] = omega arith
  length-drop (suc n) (x ∷ xs) = omega (arith, length-drop n xs)

  pub length-take : (n : ℕ) (xs : List A) → n ≤ length xs → length (take n xs) ≡ n
  length-take zero xs h = refl
  length-take (suc n) [] h = elim h [ ]
  length-take (suc n) (x ∷ xs) h = omega (arith, length-take n xs)

  pub drop-append_left :
      (n : ℕ) (xs ys : List A) → n ≤ length xs → drop n (xs ++ ys) ≡ drop n xs ++ ys
  drop-append_left zero xs ys h = refl
  drop-append_left (suc n) [] ys h = elim h [ ]
  drop-append_left (suc n) (x ∷ xs) ys h = drop-append_left n xs ys (omega arith)

  pub drop-length : (xs : List A) → drop (length xs) xs ≡ []
  drop-length [] = refl
  drop-length (x ∷ xs) = drop-length xs

  pub take-append_left : (n : ℕ) (xs ys : List A) → n ≤ length xs → take n (xs ++ ys) ≡ take n xs
  take-append_left zero xs ys h = refl
  take-append_left (suc n) [] ys h = elim h [ ]
  take-append_left (suc n) (x ∷ xs) ys h = ap (◌∷◌ x) (take-append_left n xs ys (omega arith))

  pub take-next :
      (n : ℕ) (x : A) (xs ys : List A)
      → drop n xs ≡ x ∷ ys
      → (take (suc n) xs ≡ take n xs ++ x ∷ []) × (suc n ≤ length xs)
  take-next zero x [] ys e = ground arith
  take-next zero x (y ∷ xs) ys e = (ground arith, omega arith)
  take-next (suc n) x [] ys e = ground arith
  take-next (suc n) x (y ∷ xs) ys e =
      let (f, h) = take-next n x xs ys e in (ap (◌∷◌ y) f, omega arith)

  pub drop-next :
      (n : ℕ) (xs : List A) (x : A) (ys : List A) → drop n xs ≡ x ∷ ys → drop (suc n) xs ≡ ys
  drop-next zero [] x ys e = ground arith
  drop-next zero (z ∷ xs) x ys e = ground arith
  drop-next (suc n) [] x ys e = ground arith
  drop-next (suc n) (z ∷ xs) x ys e = drop-next n xs x ys e

  pub drop_none : (n : ℕ) (xs : List A) → drop n xs ≡ [] → n ≤ length xs → n ≡ length xs
  drop_none zero [] e h = refl
  drop_none zero (z ∷ xs) e h = ground arith
  drop_none (suc n) [] e h = omega arith
  drop_none (suc n) (z ∷ xs) e h = omega (arith, drop_none n xs e (omega arith))

  pub take_all : (n : ℕ) (xs : List A) → n ≡ length xs → take n xs ≡ xs
  take_all zero [] e = refl
  take_all zero (x ∷ xs) e = ground arith
  take_all (suc n) [] e = ground arith
  take_all (suc n) (x ∷ xs) e = ap (◌∷◌ x) (take_all n xs (omega (arith, e)))

module _ {ℓ κ} {A : Type ℓ} (P : A → Type κ) where
  abbrev pub All : List A → Type κ
  All [] = Unit
  All (x ∷ xs) = P x × All xs

  pub All-append : (xs ys : List A) → All xs → All ys → All (xs ++ ys)
  All-append [] ys h k = k
  All-append (x ∷ xs) ys (p, h) k = (p, All-append xs ys h k)
