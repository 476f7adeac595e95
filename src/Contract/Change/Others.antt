-- ===== src/Contract/Change/Others.antt =====
-- Which project a change is about, and what it does to the others.
use pifp_stellar.Base.{
  ℕ, ◌+◌, ◌≤◌, ◌≡◌, ◌≢◌, ◌⊎◌, inl, inr, ◌==◌, Bool, arith, get_or, none, true, false,
}
use pifp_stellar.Contract.Types.{Address}
use pifp_stellar.Contract.Env.{Env, Ctx, Host, Storage}
use pifp_stellar.Contract.Funding.Deposited.{recorded, donated}
use pifp_stellar.Contract.Change.{
  Change, same, registers, extends, deposits, refunds, releases, reclaims, cancels, expires,
}

-- Everything that is stored about project `i` is the same in both storages.
pub record Unchanged (i : ℕ) (s t : Storage) : Type 0 where
  pub config : t.proj_config i ≡ s.proj_config i
  pub state : t.proj_state i ≡ s.proj_state i
  pub balances : (a : Address) → recorded t i a ≡ recorded s i a
  pub donations : (a d : Address) → donated t i a d ≡ donated s i a d

module _ {W : Type 0} (host : Host W) (ctx : Ctx) {env e : Env W} where
  abbrev pub concerns : Change host ctx env e → ℕ → Bool
  concerns (same u) i = false
  concerns (registers _ _ _ _ _ _ _ _ _ _) i = i == get_or 0 env.store.project_count
  concerns (extends _ id _ _ _ _ _ _) i = i == id
  concerns (deposits id _ _ _ _ _ _ _) i = i == id
  concerns (refunds _ id _ _ _ _ _ _) i = i == id
  concerns (releases _ id _ _ _ _ _) i = i == id
  concerns (reclaims _ id _ _ _ _) i = i == id
  concerns (cancels _ id _ _ _ _ _) i = i == id
  concerns (expires id _ _ _ _ _) i = i == id

  -- A change leaves every project that it is not about as it was.
  pub Change-Unchanged :
      (c : Change host ctx env e) (i : ℕ) → concerns c i ≡ false → Unchanged i env.store e.store
  Change-Unchanged (same u) i h = record {
    config = ground (arith, u.configs);
    state = ground (arith, u.states);
    balances = λ a. ground (arith, u.balances);
    donations = λ a d. ground (arith, u.donations);
  }
  Change-Unchanged (deposits id dn tk x config state c r) i h = record {
    config = ground (arith, r.configs);
    state = ground (arith, r.state_now i);
    balances = λ a. ground (arith, r.balances);
    donations = λ a d. ground (arith, r.donations);
  }
  Change-Unchanged (refunds dn id tk config state d' c r) i h = record {
    config = ground (arith, r.configs);
    state = ground (arith, r.state_now i);
    balances = λ a. ground (arith, r.balances);
    donations = λ a d. ground (arith, r.donations);
  }
  Change-Unchanged (releases a id hash config state c r) i h = record {
    config = ground (arith, r.configs);
    state = ground (arith, r.state_now i);
    balances = λ a'. ground (arith, r.balances i a');
    donations = λ a' d. ground (arith, r.donations);
  }
  Change-Unchanged (reclaims a id config state c r) i h = record {
    config = ground (arith, r.rest);
    state = ground (arith, r.rest);
    balances = λ a'. ground (arith, r.balances i a');
    donations = λ a' d. ground (arith, r.rest);
  }
  Change-Unchanged (registers a ts g hash uri dl pr c st tk) i h = record {
    config = ground arith;
    state = ground arith;
    balances = λ t. ground arith;
    donations = λ t d. ground arith;
  }
  Change-Unchanged (extends a id dl config state c st tk) i h = record {
    config = ground arith;
    state = ground arith;
    balances = λ t. ground arith;
    donations = λ t d. ground arith;
  }
  Change-Unchanged (cancels a id config state c st tk) i h = record {
    config = ground arith;
    state = ground arith;
    balances = λ t. ground arith;
    donations = λ t d. ground arith;
  }
  Change-Unchanged (expires id config state c st tk) i h = record {
    config = ground arith;
    state = ground arith;
    balances = λ t. ground arith;
    donations = λ t d. ground arith;
  }

  -- A change is about the next free number, which it then takes, or about a project that is there.
  pub concerns-known :
      (c : Change host ctx env e) (i : ℕ)
      → concerns c i ≡ true
      → ((i ≡ get_or 0 env.store.project_count)
          × (get_or 0 e.store.project_count ≡ get_or 0 env.store.project_count + 1))
        ⊎ ((env.store.proj_state i ≢ none) × (e.store.project_count ≡ env.store.project_count))
  concerns-known (same u) i h = ground arith
  concerns-known (registers a ts g hash uri dl pr c st tk) i h = inl (ground arith, ground arith)
  concerns-known (deposits id dn tk x config state c r) i h =
      inr (λ n. ground (arith, c.has_state), r.count)
  concerns-known (refunds dn id tk config state d' c r) i h =
      inr (λ n. ground (arith, c.has_state), r.count)
  concerns-known (releases a id hash config state c r) i h =
      inr (λ n. ground (arith, c.has_state), r.count)
  concerns-known (reclaims a id config state c r) i h =
      inr (λ n. ground (arith, c.has_state), ground (arith, r.rest))
  concerns-known (extends a id dl config state c st tk) i h =
      inr (λ n. ground (arith, c.has_state), ground arith)
  concerns-known (cancels a id config state c st tk) i h =
      inr (λ n. ground (arith, c.has_state), ground arith)
  concerns-known (expires id config state c st tk) i h =
      inr (λ n. ground (arith, c.has_state), ground arith)

  pub count-Change :
      (c : Change host ctx env e)
      → get_or 0 env.store.project_count ≤ get_or 0 e.store.project_count
  count-Change (same u) = ground (arith, u.count)
  count-Change (deposits id dn tk x config state c r) = ground (arith, r.count)
  count-Change (refunds dn id tk config state d' c r) = ground (arith, r.count)
  count-Change (releases a id hash config state c r) = ground (arith, r.count)
  count-Change (reclaims a id config state c r) = ground (arith, r.rest)
  count-Change (registers a ts g hash uri dl pr c st tk) = ground arith
  count-Change (extends a id dl config state c st tk) = ground arith
  count-Change (cancels a id config state c st tk) = ground arith
  count-Change (expires id config state c st tk) = ground arith
