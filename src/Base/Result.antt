-- ===== src/Base/Result.antt =====
-- Rust's `Result`: a value or an error.
use mathlib.Core.Path.{◌≡◌, refl}
use mathlib.Core.Logic.{◌⊎◌, inl, inr}
use native.Mathlib.Omega.{arith}

pub data Fallible (E A : Type 0) : Type 0 where
  ok : A → Fallible E A
  err : E → Fallible E A

-- `?`.
infixl 5 ◌>>=◌ ◌>>◌
abbrev pub ◌>>=◌ : {E A B : Type 0} → Fallible E A → (A → Fallible E B) → Fallible E B
ok a >>= f = f a
err e >>= f = err e

abbrev pub ◌>>◌ : {E A B : Type 0} → Fallible E A → Fallible E B → Fallible E B
ok a >> r = r
err e >> r = err e

-- What ends in `ok` went through every step.
pub bind-ok :
    {E A B : Type 0} (r : Fallible E A) (f : A → Fallible E B) (b : B)
    → (r >>= f) ≡ ok b
    → (a : A) × (r ≡ ok a) × (f a ≡ ok b)
bind-ok (ok a) f b h = (a, refl, h)
bind-ok (err e) f b h = absurd (ground (arith, h))

pub next-ok :
    {E A B : Type 0} (r : Fallible E A) (r' : Fallible E B) (b : B)
    → (r >> r') ≡ ok b
    → ((a : A) × (r ≡ ok a)) × (r' ≡ ok b)
next-ok (ok a) r' b h = ((a, refl), h)
next-ok (err e) r' b h = absurd (ground (arith, h))

pub Fallible-cases :
    {E A : Type 0} (x : Fallible E A) → ((e : E) × (x ≡ err e)) ⊎ ((a : A) × (x ≡ ok a))
Fallible-cases (err e) = inl (e, refl)
Fallible-cases (ok a) = inr (a, refl)

pub ok_injective : {E A : Type 0} (a b : A) → Path (Fallible E A) (ok a) (ok b) → a ≡ b
ok_injective a b h = ground (arith, h)
