-- ===== src/Contract/Change/Solvency.antt =====
-- Solvency: while a project can still refund, the balance that the contract records for a token
-- covers what it records for any distinct donors together.
pub mod Moves
pub mod Kept
use pifp_stellar.Base.{
  ℕ, ◌+◌, ◌≤◌, ◌<◌, ◌≡◌, arith, Bool, List, ◌∷◌, Option, some, none, true, false, ◌&&◌, ◌||◌, ltb,
  if◌then◌else◌, elem, inl, inr, Bool-cases, ◌∙◌, sym, ◌==◌,
}
use pifp_stellar.Base.Int.{ℤ, pos, pos_part, neg_part, ◌+ℤ◌, ◌≤ℤ◌, ◌<ℤ◌, i128_max, int_laws}
use pifp_stellar.Base.Totals.{Distinct, total, total-same, total-zero, total-out, total-in}
use pifp_stellar.Contract.Types.{Address, ProjectState, is_open, is_refundable}
use pifp_stellar.Contract.Env.{Env, Ctx, Host, Storage}
use pifp_stellar.Contract.Funding.Deposited.{recorded, donated}

-- Donors of a project in this state can still be owed money at `now`.
abbrev pub owes : ℕ → ProjectState → Bool
owes now p = is_open p.status || (is_refundable p.status && ltb now p.refund_expiry)

-- What holds at `now` of a project's amounts: `balance` by token, `gift` by token and donor.
pub record Sound (now : ℕ) (state : Option ProjectState) (balance : Address → ℤ)
    (gift : Address → Address → ℤ) : Type 0 where
  pub balance_nonneg : (t : Address) → pos 0 ≤ℤ balance t
  pub balance_bounded : (t : Address) → balance t ≤ℤ i128_max
  pub gift_nonneg : (t d : Address) → pos 0 ≤ℤ gift t d
  pub window :
      (p : ProjectState) → state ≡ some p → is_refundable p.status ≡ true → 0 < p.refund_expiry
  pub solvent :
      (p : ProjectState)
      → state ≡ some p
      → owes now p ≡ true
      → (t : Address) (ds : List Address) → Distinct ds
      → total (gift t) ds ≤ℤ balance t

abbrev pub IsSound : ℕ → Storage → Type 0
IsSound now s = (i : ℕ) → Sound now (s.proj_state i) (recorded s i) (donated s i)

-- Time passes.
pub Sound-later :
    (now later : ℕ) (state : Option ProjectState) (b : Address → ℤ) (g : Address → Address → ℤ)
    → now ≤ later
    → Sound now state b g
    → Sound later state b g
Sound-later now later state b g h s = record {
  balance_nonneg = s.balance_nonneg;
  balance_bounded = s.balance_bounded;
  gift_nonneg = s.gift_nonneg;
  window = s.window;
  solvent = λ p e o t ds d. s.solvent p e (ground arith) t ds d;
}

-- Soundness reads the state and the amounts alone.
pub Sound-same :
    (now : ℕ) (state state' : Option ProjectState) (b b' : Address → ℤ)
    (g g' : Address → Address → ℤ)
    → state' ≡ state
    → ((t : Address) → b' t ≡ b t)
    → ((t d : Address) → g' t d ≡ g t d)
    → Sound now state b g
    → Sound now state' b' g'
Sound-same now state state' b b' g g' e eb eg h = record {
  balance_nonneg = λ a. rw (eb a) (h.balance_nonneg a);
  balance_bounded = λ a. rw (eb a) (h.balance_bounded a);
  gift_nonneg = λ a d. rw (eg a d) (h.gift_nonneg a d);
  window = λ p k r. h.window p (sym e ∙ k) r;
  solvent = λ p k o a ds d.
      rw (eb a, total-same (g a) (g' a) ds (eg a)) (h.solvent p (sym e ∙ k) o a ds d);
}
