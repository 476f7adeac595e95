-- ===== src/Base/Pages.antt =====
-- Pages of a list, as `LIMIT` and `OFFSET` of SQLite cut them.
use Prim.Native.Nat.{ℕ, zero, suc, ◌+◌, ◌*◌, ◌≤◌}
use mathlib.Core.Path.{◌≡◌, refl, ap, sym, ◌∙◌}
use mathlib.Core.List.{List, [], ◌∷◌, ◌++◌}
use native.Mathlib.Nat.{suc-mul}
use native.Mathlib.Omega.{arith}
use pifp_stellar.Base.Tests.{length}
use pifp_stellar.Base.Int.{ℤ, pos, negsuc}

-- `LIMIT` and `OFFSET`: a negative limit is none, and a negative offset is 0.
module _ {A : Type 0} where
  abbrev pub take : ℕ → List A → List A
  take zero xs = []
  take (suc n) [] = []
  take (suc n) (x ∷ xs) = x ∷ take n xs

  abbrev pub drop : ℕ → List A → List A
  drop zero xs = xs
  drop (suc n) [] = []
  drop (suc n) (x ∷ xs) = drop n xs

  abbrev limit : ℤ → List A → List A
  limit (pos n) xs = take n xs
  limit (negsuc n) xs = xs

  abbrev offset : ℤ → List A → List A
  offset (pos n) xs = drop n xs
  offset (negsuc n) xs = xs

  abbrev pub limit_offset : ℤ → ℤ → List A → List A
  limit_offset l o xs = limit l (offset o xs)

  -- The pages of a size, from a number of rows on.
  abbrev pub pages_from : (ℕ → ℕ → List A) → ℕ → ℕ → ℕ → List A
  pages_from page size at zero = []
  pages_from page size at (suc count) = page size at ++ pages_from page size (at + size) count

  take_nil : (n : ℕ) → take n [] ≡ []
  take_nil zero = refl
  take_nil (suc n) = refl

  drop_nil : (n : ℕ) → drop n [] ≡ []
  drop_nil zero = refl
  drop_nil (suc n) = refl

  pub take_all : (n : ℕ) (xs : List A) → length xs ≤ n → take n xs ≡ xs
  take_all zero [] h = refl
  take_all zero (x ∷ xs) h = absurd (omega (arith, h))
  take_all (suc n) [] h = refl
  take_all (suc n) (x ∷ xs) h = ap (x ∷◌) (take_all n xs (omega (arith, h)))

  drop-drop : (m n : ℕ) (xs : List A) → drop n (drop m xs) ≡ drop (m + n) xs
  drop-drop zero n xs = let e : n ≡ 0 + n = omega arith in ap (λ k. drop k xs) e
  drop-drop (suc m) n [] = drop_nil n ∙ sym (drop_nil (suc m + n))
  drop-drop (suc m) n (x ∷ xs) =
      let e : suc (m + n) ≡ suc m + n = omega arith in
      drop-drop m n xs ∙ ap (λ k. drop k (x ∷ xs)) e

  take_add : (m n : ℕ) (xs : List A) → take m xs ++ take n (drop m xs) ≡ take (m + n) xs
  take_add zero n xs = let e : n ≡ 0 + n = omega arith in ap (λ k. take k xs) e
  take_add (suc m) n [] = take_nil n ∙ sym (take_nil (suc m + n))
  take_add (suc m) n (x ∷ xs) =
      let e : suc (m + n) ≡ suc m + n = omega arith in
      ap (x ∷◌) (take_add m n xs) ∙ ap (λ k. take k (x ∷ xs)) e

  -- Consecutive pages make up what stands in them together.
  pub pages_from-take :
      (xs : List A) (size at count : ℕ)
      → pages_from (λ n o. limit_offset (pos n) (pos o) xs) size at count
        ≡ take (count * size) (drop at xs)
  pages_from-take xs size at zero =
      let e : 0 ≡ 0 * size = omega arith in ap (λ k. take k (drop at xs)) e
  pages_from-take xs size at (suc count) =
      let e : size + count * size ≡ suc count * size = omega (arith, suc-mul count size) in
      ap (take size (drop at xs) ++◌) (
        pages_from-take xs size (at + size) count
        ∙ ap (take (count * size)) (sym (drop-drop at size xs)))
      ∙ take_add size (count * size) (drop at xs)
      ∙ ap (λ k. take k (drop at xs)) e
