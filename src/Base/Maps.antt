-- ===== src/Base/Maps.antt =====
-- Maps as functions, with point updates at one, two and three keys.
use Prim.Native.Nat.{ℕ}
use mathlib.Core.Path.{◌≡◌}
use mathlib.Core.Logic.{◌≢◌}
use native.Mathlib.Omega.{arith}
use pifp_stellar.Base.Tests.{◌==◌, if◌then◌else◌}

module _ {ℓ} {V : Type ℓ} where
  abbrev pub update : (ℕ → V) → ℕ → V → ℕ → V
  update f k v j = if j == k then v else f j

  abbrev pub update₂ : (ℕ → ℕ → V) → ℕ → ℕ → V → ℕ → ℕ → V
  update₂ f k l v i j = if i == k then (if j == l then v else f i j) else f i j

  abbrev pub update₃ : (ℕ → ℕ → ℕ → V) → ℕ → ℕ → ℕ → V → ℕ → ℕ → ℕ → V
  update₃ f k l m v i j n =
      if i == k then (if j == l then (if n == m then v else f i j n) else f i j n) else f i j n

  pub update_self : (f : ℕ → V) (k : ℕ) (v : V) → update f k v k ≡ v
  update_self f k v = ground arith

  pub update_ne : (f : ℕ → V) (k j : ℕ) (v : V) → j ≢ k → update f k v j ≡ f j
  update_ne f k j v h = ground arith
