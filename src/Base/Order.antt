-- ===== src/Base/Order.antt =====
-- Lists put in an order by a Boolean test.
use Prim.Native.Nat.{suc}
use mathlib.Core.Path.{◌≡◌, refl, ap, sym, ◌∙◌}
use mathlib.Core.Logic.{inl, inr}
use mathlib.Core.Bool.{Bool, true, false, not}
use mathlib.Core.List.{List, [], ◌∷◌, ◌++◌, reverse, reverse-cons}
use native.Mathlib.Omega.{arith}
use pifp_stellar.Base.Tests.{length, if◌then◌else◌, Bool-cases}

module _ {A : Type 0} where
  abbrev pub insert_by : (A → A → Bool) → A → List A → List A
  insert_by before x [] = x ∷ []
  insert_by before x (y ∷ ys) =
      let rest = insert_by before x ys in if before x y then x ∷ y ∷ ys else y ∷ rest

  -- `ORDER BY`: an element before which `before` has another comes after it.
  abbrev pub sort_by : (A → A → Bool) → List A → List A
  sort_by before [] = []
  sort_by before (x ∷ xs) = insert_by before x (sort_by before xs)

  abbrev pub converse : (A → A → Bool) → A → A → Bool
  converse before x y = before y x

  -- Of two elements exactly one comes before the other.
  abbrev pub Apart : (A → A → Bool) → A → List A → Type 0
  Apart before x [] = Unit
  Apart before x (y ∷ ys) = (before x y ≡ not (before y x)) × Apart before x ys

  abbrev pub AllApart : (A → A → Bool) → List A → Type 0
  AllApart before [] = Unit
  AllApart before (x ∷ xs) = Apart before x xs × AllApart before xs

  abbrev AllBefore : (A → A → Bool) → A → List A → Type 0
  AllBefore before x [] = Unit
  AllBefore before x (y ∷ ys) = (before x y ≡ true) × AllBefore before x ys

  abbrev Ordered : (A → A → Bool) → List A → Type 0
  Ordered before [] = Unit
  Ordered before (x ∷ xs) = AllBefore before x xs × Ordered before xs

  length-insert_by :
      (before : A → A → Bool) (x : A) (ys : List A)
      → length (insert_by before x ys) ≡ suc (length ys)
  length-insert_by before x [] = refl
  length-insert_by before x (y ∷ ys) = elim (Bool-cases (before x y)) [
    | inl e ↦ rw e refl
    | inr e ↦ rw e (ap suc (length-insert_by before x ys))
  ]

  pub length-sort_by :
      (before : A → A → Bool) (xs : List A) → length (sort_by before xs) ≡ length xs
  length-sort_by before [] = refl
  length-sort_by before (x ∷ xs) =
      length-insert_by before x (sort_by before xs) ∙ ap suc (length-sort_by before xs)

  module _ (before : A → A → Bool)
      (transitive : (x y z : A) → before x y ≡ true → before y z ≡ true → before x z ≡ true) where
    further :
        (x y : A) (zs : List A) → before x y ≡ true → AllBefore before y zs → AllBefore before x zs
    further x y [] h hs = tt
    further x y (z ∷ zs) h (hz, hs) = (transitive x y z h hz, further x y zs h hs)

    insert_by-AllBefore :
        (w x : A) (ys : List A)
        → before w x ≡ true
        → AllBefore before w ys
        → AllBefore before w (insert_by before x ys)
    insert_by-AllBefore w x [] h hs = (h, tt)
    insert_by-AllBefore w x (y ∷ ys) h (hy, hs) = elim (Bool-cases (before x y)) [
      | inl e ↦ rw e (h, (hy, hs))
      | inr e ↦ rw e (hy, insert_by-AllBefore w x ys h hs)
    ]

    insert_by-Apart :
        (w x : A) (ys : List A)
        → before w x ≡ not (before x w)
        → Apart before w ys
        → Apart before w (insert_by before x ys)
    insert_by-Apart w x [] h hs = (h, tt)
    insert_by-Apart w x (y ∷ ys) h (hy, hs) = elim (Bool-cases (before x y)) [
      | inl e ↦ rw e (h, (hy, hs))
      | inr e ↦ rw e (hy, insert_by-Apart w x ys h hs)
    ]

    sort_by-Apart : (w : A) (xs : List A) → Apart before w xs → Apart before w (sort_by before xs)
    sort_by-Apart w [] h = tt
    sort_by-Apart w (x ∷ xs) (h, hs) =
        insert_by-Apart w x (sort_by before xs) h (sort_by-Apart w xs hs)

    insert_by-Ordered :
        (x : A) (ys : List A)
        → Apart before x ys
        → Ordered before ys
        → Ordered before (insert_by before x ys)
    insert_by-Ordered x [] a o = (tt, tt)
    insert_by-Ordered x (y ∷ ys) (a, others) (o, os) = elim (Bool-cases (before x y)) [
      | inl e ↦ rw e ((e, further x y ys e o), (o, os))
      | inr e ↦
          rw e
            (insert_by-AllBefore y x ys (ground (arith, a, e)) o, insert_by-Ordered x ys others os)
    ]

    sort_by-Ordered : (xs : List A) → AllApart before xs → Ordered before (sort_by before xs)
    sort_by-Ordered [] a = tt
    sort_by-Ordered (x ∷ xs) (a, others) =
        insert_by-Ordered x (sort_by before xs) (sort_by-Apart x xs a) (sort_by-Ordered xs others)

    -- An element that comes before the last one is put in before it.
    insert_by-snoc :
        (x y : A) (zs : List A)
        → before y x ≡ true
        → insert_by (converse before) x (zs ++ (y ∷ []))
          ≡ insert_by (converse before) x zs ++ (y ∷ [])
    insert_by-snoc x y [] h = rw h refl
    insert_by-snoc x y (z ∷ zs) h = elim (Bool-cases (before z x)) [
      | inl e ↦ rw e refl
      | inr e ↦ rw e (ap (z ∷◌) (insert_by-snoc x y zs h))
    ]

    -- An element that comes before none is put at the end.
    abbrev NoneAfter : A → List A → Type 0
    NoneAfter x [] = Unit
    NoneAfter x (z ∷ zs) = (before z x ≡ false) × NoneAfter x zs

    insert_by_last :
        (x : A) (zs : List A) → NoneAfter x zs → insert_by (converse before) x zs ≡ zs ++ (x ∷ [])
    insert_by_last x [] h = refl
    insert_by_last x (z ∷ zs) (h, hs) = rw h (ap (z ∷◌) (insert_by_last x zs hs))

    append-NoneAfter :
        (x y : A) (zs : List A) → NoneAfter x zs → before y x ≡ false → NoneAfter x (zs ++ (y ∷ []))
    append-NoneAfter x y [] h e = (e, tt)
    append-NoneAfter x y (z ∷ zs) (h, hs) e = (h, append-NoneAfter x y zs hs e)

    reverse-NoneAfter :
        (x : A) (ys : List A) → AllBefore before x ys → Apart before x ys → NoneAfter x (reverse ys)
    reverse-NoneAfter x [] h a = tt
    reverse-NoneAfter x (y ∷ ys) (h, hs) (a, others) = rw (reverse-cons y ys) (
        append-NoneAfter x y (reverse ys) (reverse-NoneAfter x ys hs others) (ground (arith, h, a)))

    reverse-insert_by :
        (x : A) (ys : List A)
        → Apart before x ys
        → Ordered before ys
        → reverse (insert_by before x ys) ≡ insert_by (converse before) x (reverse ys)
    reverse-insert_by x [] a o = refl
    reverse-insert_by x (y ∷ ys) (a, others) (o, os) = elim (Bool-cases (before x y)) [
      | inl e ↦ rw e (
          reverse-cons x (y ∷ ys)
          ∙ sym (
              insert_by_last x (reverse (y ∷ ys))
                (reverse-NoneAfter x (y ∷ ys) (e, further x y ys e o) (a, others))))
      | inr e ↦ rw e (
          reverse-cons y (insert_by before x ys)
          ∙ ap (λ l. l ++ (y ∷ [])) (reverse-insert_by x ys others os)
          ∙ sym (insert_by-snoc x y (reverse ys) (ground (arith, a, e)))
          ∙ ap (insert_by (converse before) x) (sym (reverse-cons y ys)))
    ]

    -- The converse order puts the elements the other way round.
    pub reverse-sort_by :
        (xs : List A)
        → AllApart before xs
        → reverse (sort_by before xs) ≡ sort_by (converse before) xs
    reverse-sort_by [] a = refl
    reverse-sort_by (x ∷ xs) (a, others) =
        reverse-insert_by x (sort_by before xs) (sort_by-Apart x xs a) (sort_by-Ordered xs others)
        ∙ ap (insert_by (converse before) x) (reverse-sort_by xs others)
