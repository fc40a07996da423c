-- ===== src/Base/Result.antt =====
-- Fallible code: Rust's `Result<T, E>`, with the bind of the `?` operator.
use mathlib.Core.Path.{◌≡◌, refl}

pub data Result {ℓ} (E : Type 0) (A : Type ℓ) : Type ℓ where
  ok : A → Result E A
  err : E → Result E A

infixl 5 ◌>>=◌
abbrev pub ◌>>=◌ {ℓ κ} :
    {E : Type 0} {A : Type ℓ} {B : Type κ} → Result E A → (A → Result E B) → Result E B
ok a >>= f = f a
err e >>= f = err e

-- The laws of the bind, and that only its continuation at a value matters.
module _ {ℓ κ μ} {E : Type 0} {A : Type ℓ} {B : Type κ} {C : Type μ} where
  pub bind_assoc :
      (r : Result E A) (f : A → Result E B) (g : B → Result E C)
      → (r >>= f) >>= g ≡ r >>= (λ a. f a >>= g)
  bind_assoc (ok a) f g = refl
  bind_assoc (err e) f g = refl

module _ {ℓ κ} {E : Type 0} {A : Type ℓ} {B : Type κ} where
  pub bind-ext : (r : Result E A) (f g : A → Result E B) → ((a : A) → f a ≡ g a) → r >>= f ≡ r >>= g
  bind-ext (ok a) f g h = h a
  bind-ext (err e) f g h = refl

-- A bind that succeeds has a first part that does.
module _ {E : Type 0} {A B : Type 0} where
  pub bind_done :
      (r : Result E A) (f : A → Result E B) (b : B)
      → r >>= f ≡ ok b
      → (a : A) × (r ≡ ok a) × (f a ≡ ok b)
  bind_done (ok a) f b e = (a, refl, e)
  bind_done (err x) f b e = cc

module _ {ℓ} {E : Type 0} {A : Type ℓ} where
  pub bind-ok : (r : Result E A) → r >>= (λ a. ok a) ≡ r
  bind-ok (ok a) = refl
  bind-ok (err e) = refl
