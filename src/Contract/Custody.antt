-- ===== src/Contract/Custody.antt =====
-- Custody: what the contract's address holds in the token contracts, against the balances that it
-- records for its projects.
pub mod Plans
pub mod Drains
pub mod Flow
pub mod Kept
pub mod Fee
pub mod Held
use pifp_stellar.Base.{
  ℕ, ◌≡◌, ◌≢◌, ◌==◌, ◌&&◌, arith, ap, Bool, List, [], ◌∷◌, Option, some, true, false, if◌then◌else◌,
  elem, inl, inr, Bool-cases,
}
use pifp_stellar.Base.Int.{ℤ, pos, pos_part, neg_part, ◌+ℤ◌, ◌≤ℤ◌, int_laws}
use pifp_stellar.Base.Totals.{Distinct, total, total-same, total-out, total-in}
use pifp_stellar.Contract.Types.{Address}
use pifp_stellar.Contract.Env.{Env, Host}
use pifp_stellar.Contract.Funding.Deposited.{recorded}

-- What a token contract does by SEP-41: nobody holds less than nothing, and a transfer costs its payer at most the amount and nobody
-- else anything, and brings the amount to another payee.
pub record TokenLaws {W : Type 0} (host : Host W) : Type 0 where
  pub holds : (t h : Address) (w : W) → pos 0 ≤ℤ host.balance t h w
  pub outgoing :
      (token from to : Address) (x : ℤ) (w v : W)
      → host.transfer token from to x w ≡ some v
      → pos 0 ≤ℤ x
      → (t h : Address)
      → host.balance t h w ≤ℤ host.balance t h v +ℤ (if t == token && h == from then x else pos 0)
  pub incoming :
      (token from to : Address) (x : ℤ) (w v : W)
      → host.transfer token from to x w ≡ some v
      → pos 0 ≤ℤ x
      → from ≢ to
      → host.balance token to w +ℤ x ≤ℤ host.balance token to v

-- `held` covers the amounts of any distinct projects together.
abbrev pub Covers : (ℕ → ℤ) → ℤ → Type 0
Covers b held = (is : List ℕ) → Distinct is → total b is ≤ℤ held

-- The contract's address holds what it records, token by token.
abbrev pub IsBacked : {W : Type 0} → Host W → Address → Env W → Type 0
IsBacked host self env =
    (t : Address) → Covers (λ i. recorded env.store i t) (host.balance t self env.tokens)

pub Covers-same :
    (b b' : ℕ → ℤ) (held held' : ℤ)
    → ((i : ℕ) → b' i ≡ b i)
    → held ≤ℤ held'
    → Covers b held
    → Covers b' held'
Covers-same b b' held held' same more c =
    λ is d. rw (total-same b b' is same) (omega (int_laws, more, c is d))

-- One project's amount changes to `v`, and the holding with it.
pub Covers-move :
    (b b' : ℕ → ℤ) (held held' v : ℤ) (k : ℕ)
    → ((i : ℕ) → b' i ≡ (if i == k then v else b i))
    → pos 0 ≤ℤ v
    → held +ℤ v ≤ℤ held' +ℤ b k
    → Covers b held
    → Covers b' held'
Covers-move b b' held held' v k set low more c = λ is d. elim (Bool-cases (elem k is)) [
  | inl at ↦
      let moved : total b' is +ℤ b k ≡ total b is +ℤ v = total-in b b' k v set is d at in
      omega (int_laws, ap pos_part moved, ap neg_part moved, c is d, more)
  | inr out ↦ rw (total-out b b' k v set is out) (omega (int_laws, c (k ∷ is) (out, d), more, low))
]
