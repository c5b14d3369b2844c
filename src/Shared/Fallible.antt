-- ===== src/Shared/Fallible.antt =====
-- What a Go function with a second result of type `error` returns: a value, or an error of type `E`.
use mathlib.Core.Path.{◌≡◌, refl}

pub data Fallible {ℓ} (E A : Type ℓ) : Type ℓ where
  ok : A → Fallible E A
  err : E → Fallible E A

infixl 5 ◌>>=◌
-- An error ends the chain.
abbrev pub ◌>>=◌ {ℓ} : {E A B : Type ℓ} → Fallible E A → (A → Fallible E B) → Fallible E B
err reason >>= next = err reason
ok value >>= next = next value

module _ {ℓ} {E A B : Type ℓ} where
  -- A chain that ends well began well.
  pub >>=-ok_inv :
      (first : Fallible E A) (next : A → Fallible E B) {result : B}
      → (first >>= next) ≡ ok result
      → (value : A) × (first ≡ ok value) × (next value ≡ ok result)
  >>=-ok_inv (err reason) next h = cc
  >>=-ok_inv (ok value) next h = (value, refl, h)

pub ok-injective {ℓ} : {E A : Type ℓ} {a b : A} → ◌≡◌ {A = Fallible E A} (ok a) (ok b) → a ≡ b
ok-injective h = cc
