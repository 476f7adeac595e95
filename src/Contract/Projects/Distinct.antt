-- ===== src/Contract/Projects/Distinct.antt =====
-- The duplicate check of `register_project`.
use mathlib.Core.List.{append_assoc}
use pifp_stellar.Base.{
  ℕ, suc, ◌+◌, ◌≤◌, ◌<◌, ◌≡◌, arith, List, [], ◌∷◌, ◌++◌, some, none, true, false, elem, inl, inr,
  ◌↔◌, length, not, ap, sym, ◌∙◌, refl, Bool-cases,
}
use pifp_stellar.Base.Totals.{Distinct}
use pifp_stellar.Contract.Types.{Address}
use pifp_stellar.Contract.Projects.{last_index_from, has_duplicate, is_index}

-- The last index is none exactly when the address does not occur.
last_index_out :
    (i : ℕ) (xs : List Address) (a : Address) → elem a xs ≡ false → last_index_from i xs a ≡ none
unfolding last_index_from
last_index_out i [] a h = refl
last_index_out i (x ∷ xs) a h = ground (arith, last_index_out (suc i) xs a)

last_index_in :
    (i : ℕ) (xs : List Address) (a : Address)
    → elem a xs ≡ true
    → (j : ℕ) × (last_index_from i xs a ≡ some j) × (i ≤ j)
unfolding last_index_from
last_index_in i [] a h = absurd (ground arith)
last_index_in i (x ∷ xs) a h = elim (Bool-cases (elem a xs)) [
  | inl later ↦ let (j, at, le) = last_index_in (suc i) xs a later in (j, rw at, omega (arith, le))
  | inr out ↦ (i, rw (last_index_out (suc i) xs a out) (ground arith), omega arith)
]

last_index-append :
    (i : ℕ) (xs ys : List Address) (a : Address)
    → elem a ys ≡ false
    → last_index_from i (xs ++ a ∷ ys) a ≡ some (i + length xs)
unfolding last_index_from
last_index-append i [] ys a h = rw (last_index_out (suc i) ys a h) (ground arith)
last_index-append i (x ∷ xs) ys a h = rw (last_index-append (suc i) xs ys a h) (ground arith)

-- An address that occurs again has its last index further on.
last_index_beyond :
    (i : ℕ) (xs ys : List Address) (a : Address)
    → elem a ys ≡ true
    → (j : ℕ) × (last_index_from i (xs ++ a ∷ ys) a ≡ some j) × (i + length xs < j)
unfolding last_index_from
last_index_beyond i [] ys a h =
    let (j, at, le) = last_index_in (suc i) ys a h in (j, rw at, omega (arith, le))
last_index_beyond i (x ∷ xs) ys a h =
    let (j, at, lt) = last_index_beyond (suc i) xs ys a h in (j, rw at, omega (arith, lt))

length-snoc : (xs : List Address) (a : Address) → length (xs ++ a ∷ []) ≡ suc (length xs)
length-snoc [] a = refl
length-snoc (x ∷ xs) a = ap suc (length-snoc xs a)

-- One entry: it is at its last index exactly when it does not occur again.
at_last :
    (tokens before rest : List Address) (k : ℕ) (t : Address)
    → tokens ≡ before ++ t ∷ rest
    → k ≡ length before
    → is_index (last_index_from 0 tokens t) k ≡ not (elem t rest)
at_last tokens before rest k t e l = elim (Bool-cases (elem t rest)) [
  | inl again ↦
      let (j, at, lt) = last_index_beyond 0 before rest t again in
      rw (e, at, again) (ground (arith, l, lt))
  | inr once ↦ rw (e, last_index-append 0 before rest t once, once) (ground (arith, l))
]

has_duplicate-rest :
    (tokens before rest : List Address) (k : ℕ)
    → tokens ≡ before ++ rest
    → k ≡ length before
    → (has_duplicate tokens k rest ≡ false) ↔ Distinct rest
unfolding has_duplicate
has_duplicate-rest tokens before [] k e l = (λ _. tt, λ _. refl)
has_duplicate-rest tokens before (t ∷ rest) k e l =
    let here = at_last tokens before rest k t e l in
    let (forth, back) =
      has_duplicate-rest tokens (before ++ t ∷ []) rest (suc k)
        (e ∙ sym (append_assoc before (t ∷ []) rest)) (rw (l, length-snoc before t)) in
    (λ h. ground (arith, here, forth), λ d. ground (arith, here, back))

-- The check passes exactly the lists in which no token occurs twice.
pub has_duplicate-Distinct :
    (tokens : List Address) → (has_duplicate tokens 0 tokens ≡ false) ↔ Distinct tokens
has_duplicate-Distinct tokens = has_duplicate-rest tokens [] tokens 0 refl refl
