-- ===== src/Base/Text.antt =====
-- Native strings: equality tests, lists of them, and what the source uses of Rust's `str`.
use Prim.Native.Nat.{ℕ, ◌+◌, ◌-◌, ◌*◌}
use Prim.Native.Char.{code}
use Prim.Native.String.{String}
use mathlib.Core.Path.{◌≡◌, refl}
use mathlib.Core.Bool.{Bool, true, false, ◌&&◌, ◌||◌}
use mathlib.Core.Option.{Option, none, some}
use mathlib.Core.List.{List, [], ◌∷◌}
use native.Mathlib.Omega.{arith}
use text.Mathlib.Text.{◌==◌}
use text.Mathlib.TextEquality.{eq_iff}
use pifp_stellar.Base.Tests.{leb, if◌then◌else◌}
use pifp_stellar.Base.Int.{ℤ, pos, negsuc, neg_ℤ, in_i128, ◌-ℤ◌}

pub eq_of_text : (s t : String) → (s == t) ≡ true → s ≡ t
eq_of_text s t h = ground (arith, eq_iff s t)

pub text_refl : (s : String) → (s == s) ≡ true
text_refl s = ground (arith, eq_iff s s)

abbrev pub member : String → List String → Bool
member s [] = false
member s (t ∷ ts) = if s == t then true else member s ts

abbrev pub same_option : Option String → String → Bool
same_option none t = false
same_option (some s) t = s == t

-- `str::starts_with`.
unfoldable pub starts_with : String → String → Bool
starts_with s String.[] = true
starts_with String.[] (String.◌∷◌ d t) = false
starts_with (String.◌∷◌ c s) (String.◌∷◌ d t) =
    let rest = starts_with s t in
    if leb (code c) (code d) && leb (code d) (code c) then rest else false

-- The code points.
abbrev pub codes : String → List ℕ
codes String.[] = []
codes (String.◌∷◌ c s) = code c ∷ codes s

-- `char::is_whitespace`: the property White_Space of Unicode.
unfoldable pub is_whitespace : ℕ → Bool
is_whitespace c =
    (leb 9 c && leb c 13)
    || (leb 32 c && leb c 32)
    || (leb 133 c && leb c 133)
    || (leb 160 c && leb c 160)
    || (leb 5760 c && leb c 5760)
    || (leb 8192 c && leb c 8202)
    || (leb 8232 c && leb c 8233)
    || (leb 8239 c && leb c 8239)
    || (leb 8287 c && leb c 8287)
    || (leb 12288 c && leb c 12288)

unfoldable pub trim_start : String → String
trim_start String.[] = String.[]
trim_start (String.◌∷◌ c s) =
    let rest = trim_start s in if is_whitespace (code c) then rest else String.◌∷◌ c s

unfoldable pub trim_end : String → String
trim_end String.[] = String.[]
trim_end (String.◌∷◌ c s) =
    let rest = trim_end s in
    if (rest == "") && is_whitespace (code c) then String.[] else String.◌∷◌ c rest

-- `str::trim`.
unfoldable pub trim : String → String
unfolding trim_start trim_end is_whitespace
trim s = trim_start (trim_end s)

-- The decimal digits `ds` after the number `n`.
unfoldable pub digits_from : ℕ → List ℕ → Option ℕ
digits_from n [] = some n
digits_from n (d ∷ ds) =
    let rest = digits_from (n * 10 + (d - b'0')) ds in
    if leb b'0' d && leb d b'9' then rest else none

unfoldable pub digits : List ℕ → Option ℕ
digits [] = none
digits (d ∷ ds) = digits_from 0 (d ∷ ds)

signed : List ℕ → Option ℤ
signed [] = none
signed (c ∷ cs) =
    if leb c b'-' && leb b'-' c
    then (elim (digits cs) [ none ↦ none | some n ↦ some (neg_ℤ (pos n)) ])
    else (elim (if leb c b'+' && leb b'+' c then digits cs else digits (c ∷ cs)) [
      | none ↦ none
      | some n ↦ some (pos n)
    ])

abbrev pub below : ℕ → Option ℕ → Option ℕ
below bound none = none
below bound (some n) = if leb bound n then none else some n

-- `str::parse` to an unsigned integer below a bound, `2 ^ 64` for u64.
unfoldable pub parse_uint : ℕ → String → Option ℕ
unfolding digits digits_from
parse_uint bound s = below bound (elim (codes s) [
  | [] ↦ none
  | c ∷ cs ↦ if leb c b'+' && leb b'+' c then digits cs else digits (c ∷ cs)
])

in_range : Option ℤ → Option ℤ
in_range none = none
in_range (some x) = if in_i128 x then some x else none

-- `str::parse::<i128>`.
unfoldable pub parse_i128 : String → Option ℤ
unfolding in_range signed digits digits_from in_i128 ◌-ℤ◌
parse_i128 s = in_range (signed (codes s))

parse_negative : parse_i128 "-120" ≡ some (negsuc 119)
unfolding parse_i128
parse_negative = refl

parse_empty : (parse_i128 "" ≡ none) × (parse_i128 "+" ≡ none) × (parse_i128 "1x" ≡ none)
unfolding parse_i128
parse_empty = (refl, refl, refl)

trim_both : trim "  a b\n" ≡ "a b"
unfolding trim
trim_both = refl

starts_with_scheme :
    (starts_with "https://a.io" "https://" ≡ true) × (starts_with "ftp://a.io" "http" ≡ false)
unfolding starts_with
starts_with_scheme = (refl, refl)
