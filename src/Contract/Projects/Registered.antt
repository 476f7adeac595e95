-- ===== src/Contract/Projects/Registered.antt =====
-- What `register_project` and `extend_deadline` check and change when they return.
use pifp_stellar.Base.{
  ℕ, ◌+◌, ◌≤◌, ◌<◌, ◌≡◌, ◌^◌, Bool, true, false, none, some, arith, get_or, List, [], ◌∷◌, length,
}
use pifp_stellar.Base.Int.{ℤ, pos, ◌<ℤ◌, ◌≤ℤ◌}
use pifp_stellar.Base.Maps.{update}
use pifp_stellar.Contract.Types.{
  Address, Hash, Project, ProjectConfig, ProjectState, is_open, funding, super_admin, admin,
  project_manager,
}
use pifp_stellar.Contract.Env.{Env, Ctx, ok, Storage}
use pifp_stellar.Contract.Storage.{Loaded, loaded}
use pifp_stellar.Contract.Events.{Event}
use pifp_stellar.Contract.Rbac.{holds_any}
use pifp_stellar.Contract.Projects.{register_project, extend_deadline, has_duplicate, max_goal}

module _ (ctx : Ctx) (creator : Address) (tokens : List Address) (goal : ℤ) (hash : Hash)
    (uri : List ℕ) (deadline : ℕ) (private : Bool) where
  -- The conditions of a registration.
  pub record RegisterChecked (s : Storage) : Type 0 where
    pub not_paused : get_or false s.paused ≡ false
    pub authorized : ctx.authorized creator ≡ true
    pub permitted : holds_any (s.role creator) (super_admin ∷ admin ∷ project_manager ∷ []) ≡ true
    pub some_token : 0 < length tokens
    pub few_tokens : length tokens ≤ 10
    pub distinct : has_duplicate tokens 0 tokens ≡ false
    pub goal_positive : pos 0 <ℤ goal
    pub goal_bounded : goal ≤ℤ max_goal
    pub uri_some : 0 < length uri
    pub uri_bounded : length uri ≤ 64
    pub horizon : ctx.timestamp + 157_680_000 < 2 ^ 64
    pub later : ctx.timestamp < deadline
    pub within : deadline ≤ ctx.timestamp + 157_680_000
    pub count_fits : get_or 0 s.project_count + 1 < 2 ^ 64

  -- The project that a registration makes.
  abbrev pub new_project : ℕ → Project
  new_project id = record {
    id = id;
    creator = creator;
    accepted_tokens = tokens;
    goal = goal;
    proof_hash = hash;
    metadata_uri = uri;
    deadline = deadline;
    status = funding;
    donation_count = 0;
    is_private = private;
    refund_expiry = 0;
  }

  abbrev pub new_config : ℕ → ProjectConfig
  new_config id = record {
    id = id;
    creator = creator;
    accepted_tokens = tokens;
    goal = goal;
    proof_hash = hash;
    deadline = deadline;
    is_private = private;
    metadata_uri = uri;
  }

  abbrev pub new_state : ProjectState
  new_state = record { status = funding; donation_count = 0; refund_expiry = 0 }

  abbrev pub registered : Storage → Storage
  registered s =
      let id = get_or 0 s.project_count in
      record s {
        project_count = some (id + 1);
        proj_config = update s.proj_config id (some (new_config id));
        proj_state = update s.proj_state id (some new_state);
      }

  module _ {W : Type 0} where
    -- A registration that returns meets every condition, takes the next number, writes that
    -- project in the `Funding` state, and changes nothing else in the storage.
    pub register_project-ok :
        (env e : Env W) (p : Project)
        → register_project ctx creator tokens goal hash uri deadline private env ≡ ok p e
        → RegisterChecked env.store
          × (p ≡ new_project (get_or 0 env.store.project_count))
          × (e.store ≡ registered env.store)
          × (e.tokens ≡ env.tokens)
    unfolding register_project
    register_project-ok env e p h = (ground arith, ground arith, ground arith, ground arith)

-- A registration that meets the conditions returns the new project.
pub register_project-returns :
    {W : Type 0} (ctx : Ctx) (creator : Address) (tokens : List Address) (goal : ℤ) (hash : Hash)
    (uri : List ℕ) (deadline : ℕ) (private : Bool) (env : Env W)
    → RegisterChecked ctx creator tokens goal hash uri deadline private env.store
    → (e : Env W) × (register_project ctx creator tokens goal hash uri deadline private env
        ≡ ok
            (new_project ctx creator tokens goal hash uri deadline private
              (get_or 0 env.store.project_count))
            e)
unfolding register_project
register_project-returns ctx creator [] goal hash uri deadline private env c =
    absurd (omega (arith, c.some_token))
register_project-returns ctx creator (t ∷ ts) goal hash uri deadline private env c = (
  record env {
    store = registered ctx creator (t ∷ ts) goal hash uri deadline private env.store;
    events = Event.project_created (get_or 0 env.store.project_count) creator t goal ∷ env.events;
  },
  ground arith,
)

-- The conditions of an extension.
pub record ExtendChecked (ctx : Ctx) (caller : Address) (id new_deadline : ℕ) (s : Storage)
    (config : ProjectConfig) (state : ProjectState) : Type 0 where
  pub not_paused : get_or false s.paused ≡ false
  pub authorized : ctx.authorized caller ≡ true
  pub permitted : holds_any (s.role caller) (super_admin ∷ admin ∷ project_manager ∷ []) ≡ true
  pub has_config : s.proj_config id ≡ some config
  pub has_state : s.proj_state id ≡ some state
  pub open_status : is_open state.status ≡ true
  pub in_time : ctx.timestamp < config.deadline
  pub later : config.deadline < new_deadline
  pub horizon : ctx.timestamp + 31_536_000 < 2 ^ 64
  pub within : new_deadline ≤ ctx.timestamp + 31_536_000

abbrev pub extended : Storage → ℕ → ProjectConfig → ℕ → Storage
extended s id config new_deadline = record s {
  proj_config = update s.proj_config id (some (record config { deadline = new_deadline }));
}

module _ {W : Type 0} (ctx : Ctx) (caller : Address) (id new_deadline : ℕ) (env e : Env W)
    (h : extend_deadline ctx caller id new_deadline env ≡ ok tt e) where
  extend_deadline-loads : Loaded env.store id
  unfolding extend_deadline
  extend_deadline-loads =
      loaded env.store id (λ (n : env.store.proj_config id ≡ none). ground arith)
        (λ (n : env.store.proj_state id ≡ none). ground arith)

  extend_deadline-effect :
      (config : ProjectConfig) (state : ProjectState)
      → env.store.proj_config id ≡ some config
      → env.store.proj_state id ≡ some state
      → ExtendChecked ctx caller id new_deadline env.store config state
        × (e.store ≡ extended env.store id config new_deadline)
        × (e.tokens ≡ env.tokens)
  unfolding extend_deadline
  extend_deadline-effect config state hc hs = (ground arith, ground arith, ground arith)

  -- An extension that returns meets every condition and changes the deadline alone.
  pub extend_deadline-ok :
      (config : ProjectConfig) × (state : ProjectState) × ExtendChecked ctx caller id new_deadline
        env.store config state
      × (e.store ≡ extended env.store id config new_deadline)
      × (e.tokens ≡ env.tokens)
  extend_deadline-ok =
      let l = extend_deadline-loads in
      let (c, s, t) = extend_deadline-effect l.config l.state l.has_config l.has_state in
      (l.config, l.state, c, s, t)

-- An extension that meets the conditions returns.
pub extend_deadline-returns :
    {W : Type 0} (ctx : Ctx) (caller : Address) (id new_deadline : ℕ) (env : Env W)
    (config : ProjectConfig) (state : ProjectState)
    → ExtendChecked ctx caller id new_deadline env.store config state
    → (e : Env W) × (extend_deadline ctx caller id new_deadline env ≡ ok tt e)
unfolding extend_deadline
extend_deadline-returns ctx caller id new_deadline env config state c = (
  record env {
    store = extended env.store id config new_deadline;
    events = Event.deadline_extended id config.deadline new_deadline ∷ env.events;
  },
  ground arith,
)
