-- ===== src/Indexer/Json.antt =====
-- JSON values as the indexer reads them from `serde_json`.
use Prim.Native.String.{String}
use text.Mathlib.Text.{◌==◌}
use pifp_stellar.Base.{ℕ, Bool, Option, none, some, if◌then◌else◌}
use pifp_stellar.Base.Int.{ℤ}

-- What the code asks of a number: its text, and its value if it is a u64 or an i64.
pub record Number : Type 0 where
  pub text : String
  pub u64 : Option ℕ
  pub i64 : Option ℤ

mutual
  pub data Value : Type 0 where
    null : Value
    bool : Bool → Value
    number : Number → Value
    string : String → Value
    array : Items → Value
    object : Members → Value

  pub data Items : Type 0 where
    nil : Items
    cons : Value → Items → Items

  pub data Members : Type 0 where
    end : Members
    member : String → Value → Members → Members

abbrev pub lookup : Members → String → Option Value
lookup end key = none
lookup (member k v ms) key = if k == key then some v else lookup ms key

-- `Value::get` with a string.
unfoldable pub get : Value → String → Option Value
get (object ms) key = lookup ms key
get null key = none
get (bool b) key = none
get (number n) key = none
get (string s) key = none
get (array xs) key = none

unfoldable pub as_str : Value → Option String
as_str (string s) = some s
as_str null = none
as_str (bool b) = none
as_str (number n) = none
as_str (array xs) = none
as_str (object ms) = none

unfoldable pub as_u64 : Value → Option ℕ
as_u64 (number n) = n.u64
as_u64 _ = none

unfoldable pub as_i64 : Value → Option ℤ
as_i64 (number n) = n.i64
as_i64 _ = none

-- `as_array` and then the first or the second element.
unfoldable pub first_item : Value → Option Value
first_item (array (cons v xs)) = some v
first_item _ = none

unfoldable pub second_item : Value → Option Value
second_item (array (cons v (cons w xs))) = some w
second_item _ = none

abbrev pub and_then : {A B : Type 0} → Option A → (A → Option B) → Option B
and_then none k = none
and_then (some a) k = k a

abbrev pub or_else : {A : Type 0} → Option A → Option A → Option A
or_else none b = b
or_else (some a) b = some a
