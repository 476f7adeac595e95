-- ===== src/Contract/History/Numbered.antt =====
-- Project numbers: the counter, and which projects are there.
use pifp_stellar.Base.{
  ℕ, ◌+◌, ◌≤◌, ◌<◌, ◌≡◌, ◌⊎◌, inl, inr, arith, refl, List, [], ◌∷◌, false, some, get_or, ltb,
  Bool-cases, ltb→lt, ltb→le,
}
use pifp_stellar.Contract.Types.{Project, ProjectConfig, ProjectState}
use pifp_stellar.Contract.Env.{Env, Ctx, Host, Storage, ok, returns}
use pifp_stellar.Contract.Projects.{get_project}
use pifp_stellar.Contract.Projects.Registered.{new_config, new_state}
use pifp_stellar.Contract.Storage.{join}
use pifp_stellar.Contract.Lifecycle.{Call, step}
use pifp_stellar.Contract.Change.{
  Change, same, registers, extends, deposits, refunds, releases, reclaims, cancels, expires,
}
use pifp_stellar.Contract.Change.Config.{Change-Keeps}
use pifp_stellar.Contract.Change.Status.{Change-Evolves}
use pifp_stellar.Contract.Change.Fresh.{IsFresh, FreshAt}
use pifp_stellar.Contract.History.{run, deployed, step-Change}
use pifp_stellar.Contract.History.Safety.{step-IsFresh, empty-IsFresh}

-- A project is stored whole under number `i`, and carries that number.
pub record StoredAt (s : Storage) (i : ℕ) : Type 0 where
  pub config : ProjectConfig
  pub state : ProjectState
  pub has_config : s.proj_config i ≡ some config
  pub has_state : s.proj_state i ≡ some state
  pub number : config.id ≡ i

abbrev pub IsNumbered : Storage → Type 0
IsNumbered s = (i : ℕ) → i < get_or 0 s.project_count → StoredAt s i

module _ {W : Type 0} (host : Host W) (ctx : Ctx) (env e : Env W) where
  count_step :
      Change host ctx env e
      → (get_or 0 e.store.project_count ≡ get_or 0 env.store.project_count)
        ⊎ ((get_or 0 e.store.project_count ≡ get_or 0 env.store.project_count + 1)
            × StoredAt e.store (get_or 0 env.store.project_count))
  count_step (same u) = inl (ground (arith, u.count))
  count_step (deposits id dn tk x config state c r) = inl (ground (arith, r.count))
  count_step (refunds dn id tk config state d' c r) = inl (ground (arith, r.count))
  count_step (releases a id hash config state c r) = inl (ground (arith, r.count))
  count_step (reclaims a id config state c r) = inl (ground (arith, r.rest))
  count_step (extends a id dl config state c st tk) = inl (ground arith)
  count_step (cancels a id config state c st tk) = inl (ground arith)
  count_step (expires id config state c st tk) = inl (ground arith)
  count_step (registers a ts g hash uri dl pr c st tk) = inr (
    ground arith,
    record {
      config = new_config ctx a ts g hash uri dl pr (get_or 0 env.store.project_count);
      state = new_state ctx a ts g hash uri dl pr;
      has_config = ground arith;
      has_state = ground arith;
      number = refl;
    },
  )

  kept-StoredAt :
      Change host ctx env e
      → IsFresh env.store
      → (i : ℕ) → StoredAt env.store i
      → StoredAt e.store i
  kept-StoredAt c f i s =
      let (b, at_b, keeps) = Change-Keeps host ctx env e c f i s.config s.has_config in
      let (q, at_q, _) = Change-Evolves host ctx env e c f i s.state s.has_state in
      record {
        config = b;
        state = q;
        has_config = at_b;
        has_state = at_q;
        number = ground (arith, keeps.fields, s.number);
      }

  Change-IsNumbered :
      Change host ctx env e → IsFresh env.store → IsNumbered env.store → IsNumbered e.store
  Change-IsNumbered c f n i below = elim (count_step c) [
    | inl still ↦ kept-StoredAt c f i (n i (omega arith))
    | inr (next, new) ↦ elim (Bool-cases (ltb i (get_or 0 env.store.project_count))) [
      | inl old ↦ kept-StoredAt c f i (n i (ltb→lt _ _ old))
      | inr top ↦
          let last : get_or 0 env.store.project_count ≡ i = omega (arith, ltb→le _ _ top) in
          rw (← last) new
    ]
  ]

module _ {W : Type 0} (host : Host W) where
  step-IsNumbered :
      (ctx : Ctx) (call : Call) (env : Env W)
      → IsFresh env.store
      → IsNumbered env.store
      → IsNumbered (step host ctx call env).store
  step-IsNumbered ctx call env f n = elim (step-Change host ctx call env) [
    | inl e ↦ rw e n
    | inr c ↦ Change-IsNumbered host ctx env _ c f n
  ]

  run-IsNumbered :
      (h : List (Ctx × Call)) (env : Env W)
      → IsFresh env.store
      → IsNumbered env.store
      → IsFresh (run host h env).store × IsNumbered (run host h env).store
  unfolding run
  run-IsNumbered [] env f n = (f, n)
  run-IsNumbered ((ctx, call) ∷ h) env f n =
      run-IsNumbered h (step host ctx call env) (step-IsFresh host ctx call env f)
        (step-IsNumbered ctx call env f n)

  get_project-found :
      (i : ℕ) (env : Env W)
      → StoredAt env.store i
      → (p : Project) × (get_project i env ≡ ok p env) × (p.id ≡ i)
  unfolding get_project
  get_project-found i env s =
      (join s.config s.state, ground (arith, s.has_config, s.has_state), s.number)

  get_project-missing :
      (i : ℕ) (env : Env W) → FreshAt env.store i → returns (get_project i env) ≡ false
  unfolding get_project
  get_project-missing i env f = ground (arith, f.config)

  -- From deployment on, after any history, `get_project` returns for the numbers below the project
  -- counter and for no other, and the project that it returns has the number asked for.
  pub deployed-get_project :
      (h : List (Ctx × Call)) (w : W) (i : ℕ)
      → let env = run host h (deployed w) in
        ((i < get_or 0 env.store.project_count)
          × ((p : Project) × (get_project i env ≡ ok p env) × (p.id ≡ i)))
        ⊎ ((get_or 0 env.store.project_count ≤ i) × (returns (get_project i env) ≡ false))
  deployed-get_project h w i =
      let env = run host h (deployed w) in
      let (f, n) =
        run-IsNumbered h (deployed w) (empty-IsFresh host)
          (λ j below. absurd (omega (arith, below))) in
      elim (Bool-cases (ltb i (get_or 0 env.store.project_count))) [
        | inl below ↦ let b = ltb→lt _ _ below in inl (b, get_project-found i env (n i b))
        | inr above ↦ let a = ltb→le _ _ above in inr (a, get_project-missing i env (f i a))
      ]
