-- ===== src/Base/Totals.antt =====
-- Sums of an integer function over a list of distinct numbers.
use Prim.Native.Nat.{ℕ}
use mathlib.Core.Path.{◌≡◌, refl, ap}
use mathlib.Core.Bool.{true, false}
use mathlib.Core.Logic.{inl, inr}
use mathlib.Core.List.{List, [], ◌∷◌}
use native.Mathlib.Omega.{arith}
use pifp_stellar.Base.Tests.{◌==◌, if◌then◌else◌, elem, Bool-cases, ==→eq}
use pifp_stellar.Base.Int.{ℤ, pos, pos_part, neg_part, ◌+ℤ◌, int_laws}

abbrev pub Distinct : List ℕ → Type 0
Distinct [] = Unit {0}
Distinct (x ∷ xs) = (elem x xs ≡ false) × Distinct xs

abbrev pub total : (ℕ → ℤ) → List ℕ → ℤ
total f [] = pos 0
total f (x ∷ xs) = f x +ℤ total f xs

pub total-same : (f g : ℕ → ℤ) (xs : List ℕ) → ((j : ℕ) → g j ≡ f j) → total g xs ≡ total f xs
total-same f g [] h = refl
total-same f g (x ∷ xs) h = ground (arith, h x, total-same f g xs h)

pub total-zero : (f : ℕ → ℤ) (xs : List ℕ) → ((j : ℕ) → f j ≡ pos 0) → total f xs ≡ pos 0
total-zero f [] h = refl
total-zero f (x ∷ xs) h = rw (h x, total-zero f xs h) (omega int_laws)

-- A change at a number that is not in the list, and at one that is.
module _ (f g : ℕ → ℤ) (k : ℕ) (v : ℤ) (set : (j : ℕ) → g j ≡ (if j == k then v else f j)) where
  pub total-out : (xs : List ℕ) → elem k xs ≡ false → total g xs ≡ total f xs
  total-out [] h = refl
  total-out (x ∷ xs) h = ground (arith, set x, total-out xs)

  pub total-in :
      (xs : List ℕ) → Distinct xs → elem k xs ≡ true → total g xs +ℤ f k ≡ total f xs +ℤ v
  total-in [] d h = absurd (ground arith)
  total-in (x ∷ xs) d h = elim (Bool-cases (k == x)) [
    | inl e ↦
        let kx : k ≡ x = ==→eq k x e in
        let out : elem k xs ≡ false = rw kx d.0 in
        let gx : g x ≡ v = ground (arith, set x) in
        rw (gx, total-out xs out, ap f kx) (omega int_laws)
    | inr e ↦
        let ih : total g xs +ℤ f k ≡ total f xs +ℤ v = total-in xs d.1 (ground arith) in
        let gx : g x ≡ f x = ground (arith, set x) in
        rw gx (omega (int_laws, ap pos_part ih, ap neg_part ih))
  ]
