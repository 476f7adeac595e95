-- ===== src/Base/Environment.antt =====
-- `std::env::var`, which fails for a variable that is not set, with defaults and numbers.
use Prim.Native.Nat.{ℕ}
use Prim.Native.String.{String}
use mathlib.Core.Option.{Option, none, some}
use pifp_stellar.Base.Tests.{get_or}
use pifp_stellar.Base.Result.{Fallible, ok, err}
use pifp_stellar.Base.Text.{parse_uint}

abbrev pub Environment : Type 0
Environment = String → Option String

abbrev pub ok_or : {E A : Type 0} → E → Option A → Fallible E A
ok_or e none = err e
ok_or e (some a) = ok a

-- A variable with a default, read as a number below a bound.
abbrev pub env_number : {E : Type 0} → Environment → String → String → ℕ → E → Fallible E ℕ
env_number env key default bound e = ok_or e (parse_uint bound (get_or default (env key)))
