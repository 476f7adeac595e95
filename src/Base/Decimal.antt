-- ===== src/Base/Decimal.antt =====
-- The decimal text of a u64, and that it is read back.
use Prim.Native.Nat.{ℕ, zero, suc, ◌+◌, ◌*◌, ◌/◌, ◌%◌, ◌^◌, ◌<◌}
use Prim.Native.Char.{Char, code}
use Prim.Native.String.{String}
use native.Mathlib.Nat.{pow-succ'}
use mathlib.Core.Path.{◌≡◌, refl, ap, ◌∙◌}
use mathlib.Core.Logic.{inl, inr}
use mathlib.Core.Bool.{Bool, true, false, ◌&&◌}
use mathlib.Core.Option.{some}
use native.Mathlib.Omega.{arith}
use pifp_stellar.Base.Tests.{◌==◌, ltb, leb, if◌then◌else◌, Bool-cases, ltb→lt}
use pifp_stellar.Base.Text.{codes, digits, digits_from, parse_uint, below}

abbrev pub digit_char : ℕ → Char
digit_char d =
    if d == 0
    then "0"
    else if d == 1
    then "1"
    else if d == 2
    then "2"
    else if d == 3
    then "3"
    else if d == 4
    then "4"
    else if d == 5
    then "5"
    else if d == 6
    then "6"
    else if d == 7
    then "7"
    else if d == 8
    then "8"
    else "9"

-- With `f` digits at most, before `rest`.
unfoldable pub decimal_from : ℕ → ℕ → String → String
decimal_from zero n rest = rest
decimal_from (suc f) n rest =
    let more = decimal_from f (n / 10) (String.◌∷◌ (digit_char (n % 10)) rest) in
    if ltb n 10 then String.◌∷◌ (digit_char n) rest else more

-- `to_string` of a u64, which has at most 20 digits.
unfoldable pub decimal : ℕ → String
decimal n = decimal_from 20 n String.[]

digit-code : (d : ℕ) → d < 10 → code (digit_char d) ≡ b'0' + d
digit-code zero h = refl
digit-code (suc zero) h = refl
digit-code (suc (suc zero)) h = refl
digit-code (suc (suc (suc zero))) h = refl
digit-code (suc (suc (suc (suc zero)))) h = refl
digit-code (suc (suc (suc (suc (suc zero))))) h = refl
digit-code (suc (suc (suc (suc (suc (suc zero)))))) h = refl
digit-code (suc (suc (suc (suc (suc (suc (suc zero))))))) h = refl
digit-code (suc (suc (suc (suc (suc (suc (suc (suc zero)))))))) h = refl
digit-code (suc (suc (suc (suc (suc (suc (suc (suc (suc zero))))))))) h = refl
digit-code (suc (suc (suc (suc (suc (suc (suc (suc (suc (suc n)))))))))) h =
    absurd (omega (arith, h))

decimal_20 : decimal 18446744073709551615 ≡ "18446744073709551615"
unfolding decimal decimal_from
decimal_20 = refl

-- The digits after the number `m`.
digits_step :
    (m d : ℕ) (rest : String)
    → d < 10
    → digits_from m (codes (String.◌∷◌ (digit_char d) rest)) ≡ digits_from (m * 10 + d) (codes rest)
unfolding digits_from
digits_step m d rest h = ground (arith, digit-code d h)

digits-decimal_from :
    (f n : ℕ) (rest : String)
    → n < 10 ^ f
    → digits_from 0 (codes (decimal_from f n rest)) ≡ digits_from n (codes rest)
unfolding decimal_from
digits-decimal_from zero n rest h = let e : n ≡ 0 = omega (arith, h) in rw e refl
digits-decimal_from (suc f) n rest h =
    let big : n < 10 * 10 ^ f = rw (pow-succ' 10 f) at h in
    let more =
      digits-decimal_from f (n / 10) (String.◌∷◌ (digit_char (n % 10)) rest) (omega (arith, big)) in
    let last = digits_step (n / 10) (n % 10) rest (omega arith) in
    elim (Bool-cases (ltb n 10)) [
      | inl e ↦
          rw (decimal_from, e)
            (digits_step 0 n rest (ltb→lt n 10 e)
              ∙ ap (λ x. digits_from x (codes rest)) (omega arith))
      | inr e ↦
          rw (decimal_from, e) (more ∙ (last ∙ ap (λ x. digits_from x (codes rest)) (omega arith)))
    ]

-- Text of digits and nothing else, and with one at the front.
abbrev pub all_digits : String → Bool
all_digits String.[] = true
all_digits (String.◌∷◌ c s) = (leb b'0' (code c) && leb (code c) b'9') && all_digits s

abbrev is_digit_first : String → Bool
is_digit_first String.[] = false
is_digit_first (String.◌∷◌ c s) = leb b'0' (code c) && leb (code c) b'9'

decimal_from-digits :
    (f n : ℕ) (rest : String) → all_digits rest ≡ true → all_digits (decimal_from f n rest) ≡ true
unfolding decimal_from
decimal_from-digits zero n rest h = h
decimal_from-digits (suc f) n rest h =
    let more =
      decimal_from-digits f (n / 10) (String.◌∷◌ (digit_char (n % 10)) rest)
        (ground (arith, h, digit-code (n % 10))) in
    ground (arith, h, more, digit-code n)

decimal-digit_first :
    (f n : ℕ) (rest : String) → is_digit_first (decimal_from (suc f) n rest) ≡ true
unfolding decimal_from
decimal-digit_first zero n rest = ground (arith, digit-code n, digit-code (n % 10))
decimal-digit_first (suc f) n rest =
    ground
      (arith, digit-code n, decimal-digit_first f (n / 10) (String.◌∷◌ (digit_char (n % 10)) rest))

parse-digits :
    (bound : ℕ) (s : String)
    → is_digit_first s ≡ true
    → parse_uint bound s ≡ below bound (digits_from 0 (codes s))
unfolding parse_uint digits
parse-digits bound String.[] h = absurd (ground (arith, h))
parse-digits bound (String.◌∷◌ c s) h = ground (arith, h)

-- A u64 is read back from its decimal text.
pub parse_uint-decimal : (n : ℕ) → n < 2 ^ 64 → parse_uint (2 ^ 64) (decimal n) ≡ some n
unfolding decimal digits_from
parse_uint-decimal n h =
    let read : digits_from 0 (codes (decimal_from 20 n String.[])) ≡ some n =
      digits-decimal_from 20 n String.[] (omega (arith, h)) in
    rw
      (
        parse-digits (2 ^ 64) (decimal_from 20 n String.[]) (decimal-digit_first 19 n String.[]),
        read,
      )
      (ground (arith, h))

pub decimal-digits : (n : ℕ) → all_digits (decimal n) ≡ true
unfolding decimal
decimal-digits n = decimal_from-digits 20 n String.[] refl
