-- ===== src/Prelude/Results.antt =====
-- Exceptions as values: a result, or the text of `what()`.
use mathlib.Core.Path.{◌≡◌, refl}
use mathlib.Core.Logic.{◌⊎◌, inl, inr}
use package.memory_atlas_server.Prelude.Bytes.{Text}

pub data Result {ℓ} (A : Type ℓ) : Type ℓ where
  ok : A → Result A
  throw : Text → Result A

infixl 5 ◌>>=◌
abbrev pub ◌>>=◌ {ℓ κ} : {A : Type ℓ} {B : Type κ} → Result A → (A → Result B) → Result B
ok a >>= f = f a
throw what >>= f = throw what

-- `try { … } catch (const std::exception& e) { … }`
abbrev pub catch {ℓ} : {A : Type ℓ} → Result A → (Text → A) → A
catch (ok a) handler = a
catch (throw what) handler = handler what

pub Result-cases {ℓ} :
    {A : Type ℓ} (r : Result A) → ((what : Text) × (r ≡ throw what)) ⊎ ((a : A) × (r ≡ ok a))
Result-cases (ok a) = inr (a, refl)
Result-cases (throw what) = inl (what, refl)

pub throw_ne_ok {ℓ} : {A : Type ℓ} {what : Text} {a : A} → throw what ≡ ok a → ⊥
throw_ne_ok e = cc

pub ok_injective {ℓ} : {A : Type ℓ} {a b : A} → ok a ≡ ok b → a ≡ b
ok_injective e = cc
