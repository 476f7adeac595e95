-- ===== src/Contract/Lifecycle/Ended.antt =====
-- What `expire_project` and `cancel_project` check and change when they return.
use pifp_stellar.Base.{ℕ, ◌+◌, ◌≤◌, ◌<◌, ◌≡◌, ◌^◌, true, none, some, arith, [], ◌∷◌}
use pifp_stellar.Base.Maps.{update}
use pifp_stellar.Contract.Types.{
  Address, ProjectConfig, ProjectState, is_open, active, cancelled, super_admin, project_manager,
}
use pifp_stellar.Contract.Events.{Event}
use pifp_stellar.Contract.Env.{Env, Ctx, ok, Storage}
use pifp_stellar.Contract.Storage.{Loaded, loaded}
use pifp_stellar.Contract.Rbac.{holds_any}
use pifp_stellar.Contract.Funding.{refund_window}
use pifp_stellar.Contract.Funding.Checks.{expired_state}
use pifp_stellar.Contract.Lifecycle.{cancel_project, expire_project}

abbrev pub with_state : Storage → ℕ → ProjectState → Storage
with_state s id p = record s { proj_state = update s.proj_state id (some p) }

-- The conditions of an expiry.
pub record ExpireChecked (ctx : Ctx) (id : ℕ) (s : Storage) (config : ProjectConfig)
    (state : ProjectState) : Type 0 where
  pub has_config : s.proj_config id ≡ some config
  pub has_state : s.proj_state id ≡ some state
  pub open_status : is_open state.status ≡ true
  pub due : config.deadline ≤ ctx.timestamp
  pub fits : ctx.timestamp + refund_window < 2 ^ 64

module _ {W : Type 0} (ctx : Ctx) (id : ℕ) (env e : Env W)
    (h : expire_project ctx id env ≡ ok tt e) where
  expire_project-loads : Loaded env.store id
  unfolding expire_project
  expire_project-loads =
      loaded env.store id (λ (n : env.store.proj_config id ≡ none). ground arith)
        (λ (n : env.store.proj_state id ≡ none). ground arith)

  expire_project-effect :
      (config : ProjectConfig) (state : ProjectState)
      → env.store.proj_config id ≡ some config
      → env.store.proj_state id ≡ some state
      → ExpireChecked ctx id env.store config state
        × (e.store ≡ with_state env.store id (expired_state ctx state))
        × (e.tokens ≡ env.tokens)
  unfolding expire_project
  expire_project-effect config state hc hs = (ground arith, ground arith, ground arith)

  -- An expiry that returns met its conditions and writes the `Expired` state with its refund
  -- window, and nothing else of the storage or the token contracts.
  pub expire_project-ok :
      (config : ProjectConfig) × (state : ProjectState) × ExpireChecked ctx id env.store config
        state
      × (e.store ≡ with_state env.store id (expired_state ctx state))
      × (e.tokens ≡ env.tokens)
  expire_project-ok =
      let l = expire_project-loads in
      let (c, s, t) = expire_project-effect l.config l.state l.has_config l.has_state in
      (l.config, l.state, c, s, t)

-- An expiry that meets the conditions returns, whoever makes the call.
pub expire_project-returns :
    {W : Type 0} (ctx : Ctx) (id : ℕ) (env : Env W) (config : ProjectConfig) (state : ProjectState)
    → ExpireChecked ctx id env.store config state
    → (e : Env W) × (expire_project ctx id env ≡ ok tt e)
unfolding expire_project
expire_project-returns ctx id env config state c = (
  record env {
    store = with_state env.store id (expired_state ctx state);
    events = Event.project_expired id config.deadline ∷ env.events;
  },
  ground arith,
)

abbrev pub cancelled_state : Ctx → ProjectState → ProjectState
cancelled_state ctx s = record s {
  status = cancelled;
  refund_expiry = ctx.timestamp + refund_window;
}

-- The conditions of a cancellation.
pub record CancelChecked (ctx : Ctx) (caller : Address) (id : ℕ) (s : Storage)
    (config : ProjectConfig) (state : ProjectState) : Type 0 where
  pub authorized : ctx.authorized caller ≡ true
  pub permitted : holds_any (s.role caller) (super_admin ∷ project_manager ∷ []) ≡ true
  pub own : s.role caller ≡ some project_manager → caller ≡ config.creator
  pub has_config : s.proj_config id ≡ some config
  pub has_state : s.proj_state id ≡ some state
  pub is_active : state.status ≡ active
  pub in_time : ctx.timestamp < config.deadline
  pub fits : ctx.timestamp + refund_window < 2 ^ 64

module _ {W : Type 0} (ctx : Ctx) (caller : Address) (id : ℕ) (env e : Env W)
    (h : cancel_project ctx caller id env ≡ ok tt e) where
  cancel_project-loads : Loaded env.store id
  unfolding cancel_project
  cancel_project-loads =
      loaded env.store id (λ (n : env.store.proj_config id ≡ none). ground arith)
        (λ (n : env.store.proj_state id ≡ none). ground arith)

  cancel_project-effect :
      (config : ProjectConfig) (state : ProjectState)
      → env.store.proj_config id ≡ some config
      → env.store.proj_state id ≡ some state
      → CancelChecked ctx caller id env.store config state
        × (e.store ≡ with_state env.store id (cancelled_state ctx state))
        × (e.tokens ≡ env.tokens)
  unfolding cancel_project
  cancel_project-effect config state hc hs = (ground arith, ground arith, ground arith)

  -- A cancellation that returns met its conditions and writes the `Cancelled` state with its refund
  -- window, and nothing else of the storage or the token contracts.
  pub cancel_project-ok :
      (config : ProjectConfig) × (state : ProjectState) × CancelChecked ctx caller id env.store
        config state
      × (e.store ≡ with_state env.store id (cancelled_state ctx state))
      × (e.tokens ≡ env.tokens)
  cancel_project-ok =
      let l = cancel_project-loads in
      let (c, s, t) = cancel_project-effect l.config l.state l.has_config l.has_state in
      (l.config, l.state, c, s, t)

-- A cancellation that meets the conditions returns.
pub cancel_project-returns :
    {W : Type 0} (ctx : Ctx) (caller : Address) (id : ℕ) (env : Env W) (config : ProjectConfig)
    (state : ProjectState)
    → CancelChecked ctx caller id env.store config state
    → (e : Env W) × (cancel_project ctx caller id env ≡ ok tt e)
unfolding cancel_project
cancel_project-returns ctx caller id env config state c = (
  record env {
    store = with_state env.store id (cancelled_state ctx state);
    events = Event.project_cancelled id caller ∷ env.events;
  },
  ground arith,
)
