-- ===== src/Base/Parts.antt =====
-- Rust's `split` and `splitn` of a `str` at one character, and the decimal text of a number.
use Prim.Native.Nat.{ℕ}
use Prim.Native.Char.{Char, code}
use Prim.Native.String
use Prim.Native.String.{String}
use text.Mathlib.TextLemmas.{nil-append, cons-append}
use mathlib.Core.Path.{◌≡◌, refl}
use mathlib.Core.Bool.{Bool, true, false, not, ◌&&◌, ◌||◌}
use mathlib.Core.Option.{Option, none, some}
use mathlib.Core.List.{List, [], ◌∷◌}
use native.Mathlib.Omega.{arith}
use pifp_stellar.Base.Text.{trim, trim_start, trim_end, is_whitespace}
use pifp_stellar.Base.Tests.{◌==◌, if◌then◌else◌}

abbrev with_first : Char → List String → List String
with_first c [] = String.◌∷◌ c String.[] ∷ []
with_first c (p ∷ ps) = String.◌∷◌ c p ∷ ps

-- `str::split` at a code point.
unfoldable pub split : ℕ → String → List String
split sep String.[] = String.[] ∷ []
split sep (String.◌∷◌ c s) =
    let rest = split sep s in if code c == sep then String.[] ∷ rest else with_first c rest

abbrev cut_first : Char → String × Option String → String × Option String
cut_first c (before, after) = (String.◌∷◌ c before, after)

-- The two parts of `splitn` with 2, the second if there is one.
unfoldable pub split_once : ℕ → String → String × Option String
split_once sep String.[] = (String.[], none)
split_once sep (String.◌∷◌ c s) =
    let rest = split_once sep s in if code c == sep then (String.[], some s) else cut_first c rest

abbrev pub has_code : ℕ → String → Bool
has_code n String.[] = false
has_code n (String.◌∷◌ c s) = (code c == n) || has_code n s

-- The parts with a character between them.
abbrev pub join_parts : Char → List String → String
join_parts d [] = String.[]
join_parts d (p ∷ []) = p
join_parts d (p ∷ q ∷ ps) = String.◌++◌ p (String.◌∷◌ d (join_parts d (q ∷ ps)))

abbrev pub Lack : ℕ → List String → Type 0
Lack n [] = Unit
Lack n (p ∷ ps) = (has_code n p ≡ false) × Lack n ps

split_part : (n : ℕ) (p : String) → has_code n p ≡ false → split n p ≡ p ∷ []
unfolding split
split_part n String.[] h = refl
split_part n (String.◌∷◌ c p) h = ground (arith, split_part n p)

split-append :
    (d : Char) (p rest : String)
    → has_code (code d) p ≡ false
    → split (code d) (String.◌++◌ p (String.◌∷◌ d rest)) ≡ p ∷ split (code d) rest
unfolding split
split-append d String.[] rest h = ground (arith, nil-append (String.◌∷◌ d rest))
split-append d (String.◌∷◌ c p) rest h =
    ground (arith, cons-append c p (String.◌∷◌ d rest), split-append d p rest)

pub split-join_parts :
    (d : Char) (p : String) (ps : List String)
    → Lack (code d) (p ∷ ps)
    → split (code d) (join_parts d (p ∷ ps)) ≡ p ∷ ps
split-join_parts d p [] (h, _) = split_part (code d) p h
split-join_parts d p (q ∷ qs) (h, rest) =
    rw (split-append d p (join_parts d (q ∷ qs)) h, split-join_parts d q qs rest) refl

pub split_once-append :
    (d : Char) (p rest : String)
    → has_code (code d) p ≡ false
    → split_once (code d) (String.◌++◌ p (String.◌∷◌ d rest)) ≡ (p, some rest)
unfolding split_once
split_once-append d String.[] rest h = ground (arith, nil-append (String.◌∷◌ d rest))
split_once-append d (String.◌∷◌ c p) rest h =
    ground (arith, cons-append c p (String.◌∷◌ d rest), split_once-append d p rest)

pub has_code-append :
    (n : ℕ) (d : Char) (p rest : String)
    → has_code n (String.◌++◌ p (String.◌∷◌ d rest))
      ≡ (has_code n p || ((code d == n) || has_code n rest))
has_code-append n d String.[] rest = ground (arith, nil-append (String.◌∷◌ d rest))
has_code-append n d (String.◌∷◌ c p) rest =
    ground (arith, cons-append c p (String.◌∷◌ d rest), has_code-append n d p rest)

-- No character is white space.
abbrev pub is_solid : String → Bool
is_solid String.[] = true
is_solid (String.◌∷◌ c s) = not (is_whitespace (code c)) && is_solid s

pub is_solid-append :
    (d : Char) (p rest : String)
    → is_solid (String.◌++◌ p (String.◌∷◌ d rest))
      ≡ (is_solid p && (not (is_whitespace (code d)) && is_solid rest))
is_solid-append d String.[] rest = ground (arith, nil-append (String.◌∷◌ d rest))
is_solid-append d (String.◌∷◌ c p) rest =
    ground (arith, cons-append c p (String.◌∷◌ d rest), is_solid-append d p rest)

trim_end_solid : (s : String) → is_solid s ≡ true → trim_end s ≡ s
unfolding trim_end
trim_end_solid String.[] h = refl
trim_end_solid (String.◌∷◌ c s) h = ground (arith, trim_end_solid s)

trim_start_solid : (s : String) → is_solid s ≡ true → trim_start s ≡ s
unfolding trim_start
trim_start_solid String.[] h = refl
trim_start_solid (String.◌∷◌ c s) h = ground arith

pub trim_solid : (s : String) → is_solid s ≡ true → trim s ≡ s
unfolding trim
trim_solid s h = rw (trim_end_solid s h, trim_start_solid s h) refl
