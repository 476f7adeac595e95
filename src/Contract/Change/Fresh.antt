-- ===== src/Contract/Change/Fresh.antt =====
-- Project numbers that the counter has not reached.
use pifp_stellar.Base.{ℕ, ◌≤◌, ◌≡◌, arith, get_or, none, Bool-cases, inl, inr, ◌∙◌}
use pifp_stellar.Base.Int.{pos}
use pifp_stellar.Contract.Types.{Address}
use pifp_stellar.Contract.Env.{Env, Ctx, Host, Storage}
use pifp_stellar.Contract.Funding.Deposited.{recorded, donated}
use pifp_stellar.Contract.Change.{Change}
use pifp_stellar.Contract.Change.Others.{
  concerns, Change-Unchanged, concerns-known, count-Change, Unchanged,
}

pub record FreshAt (s : Storage) (id : ℕ) : Type 0 where
  pub config : s.proj_config id ≡ none
  pub state : s.proj_state id ≡ none
  pub balances : (t : Address) → recorded s id t ≡ pos 0
  pub donations : (t d : Address) → donated s id t d ≡ pos 0

abbrev pub IsFresh : Storage → Type 0
IsFresh s = (id : ℕ) → get_or 0 s.project_count ≤ id → FreshAt s id

Unchanged-FreshAt : (i : ℕ) (s t : Storage) → Unchanged i s t → FreshAt s i → FreshAt t i
Unchanged-FreshAt i s t u f = record {
  config = u.config ∙ f.config;
  state = u.state ∙ f.state;
  balances = λ a. u.balances a ∙ f.balances a;
  donations = λ a d. u.donations a d ∙ f.donations a d;
}

-- Every change keeps the numbers above the counter unused.
pub Change-IsFresh :
    {W : Type 0} (host : Host W) (ctx : Ctx) (env e : Env W)
    → Change host ctx env e
    → IsFresh env.store
    → IsFresh e.store
Change-IsFresh host ctx env e c f i h =
    let g : FreshAt env.store i = f i (omega (arith, count-Change host ctx c)) in
    elim (Bool-cases (concerns host ctx c i)) [
      | inl about ↦ elim (concerns-known host ctx c i about) [
        | inl (at, next) ↦ absurd (omega arith)
        | inr (known, _) ↦ absurd (known g.state)
      ]
      | inr other ↦ Unchanged-FreshAt i env.store e.store (Change-Unchanged host ctx c i other) g
    ]
