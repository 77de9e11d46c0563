-- ===== src/Base/Fallible.antt =====
-- A value or an error, and the chain that stops at the first error.
use mathlib.Core.Path.{◌≡◌, refl}
use native.Mathlib.Omega.{arith}

pub data Fallible (E A : Type 0) : Type 0 where
  value : A → Fallible E A
  failure : E → Fallible E A

module _ {E A B : Type 0} where
  infixl 5 ◌>>=◌
  abbrev pub ◌>>=◌ : Fallible E A → (A → Fallible E B) → Fallible E B
  ◌>>=◌ (value a) f = f a
  ◌>>=◌ (failure e) f = failure e

  -- A chain that succeeds succeeds at each step.
  pub bind-value :
      (m : Fallible E A) (f : A → Fallible E B) (b : B)
      → (m >>= f) ≡ value b
      → (a : A) × (m ≡ value a) × (f a ≡ value b)
  bind-value (value a) f b h = (a, refl, h)
  bind-value (failure e) f b h = ground arith

pub value-injective : {E A : Type 0} {a b : A} → ◌≡◌ {A = Fallible E A} (value a) (value b) → a ≡ b
value-injective h = ground (arith, h)
