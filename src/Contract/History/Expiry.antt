-- ===== src/Contract/History/Expiry.antt =====
-- What becomes of the `Expired` state that a refused call writes.
use pifp_stellar.Base.{ℕ, ◌+◌, ◌≤◌, ◌<◌, ◌≡◌, ◌^◌, arith, true, false, get_or, some, [], ◌∷◌}
use pifp_stellar.Base.Int.{ℤ, pos, ◌<ℤ◌}
use pifp_stellar.Base.Maps.{update}
use pifp_stellar.Contract.Errors.{contract_error, project_expired}
use pifp_stellar.Contract.Types.{
  Address, Hash, ProjectConfig, ProjectState, is_open, oracle, super_admin, project_manager,
}
use pifp_stellar.Contract.Env.{Env, Ctx, Host, panic}
use pifp_stellar.Contract.Rbac.{holds_any}
use pifp_stellar.Contract.Funding
use pifp_stellar.Contract.Funding.{refund_window}
use pifp_stellar.Contract.Funding.Checks.{expired_state}
use pifp_stellar.Contract.Release
use pifp_stellar.Contract.Lifecycle.{Call, perform, step, cancel_project}
use pifp_stellar.Contract.History.{step-panic}

-- A project that is still open although its deadline has passed.
pub record Overdue {W : Type 0} (ctx : Ctx) (id : ℕ) (env : Env W) (config : ProjectConfig)
    (state : ProjectState) : Type 0 where
  pub has_config : env.store.proj_config id ≡ some config
  pub has_state : env.store.proj_state id ≡ some state
  pub open_status : is_open state.status ≡ true
  pub due : config.deadline ≤ ctx.timestamp
  pub fits : ctx.timestamp + refund_window < 2 ^ 64

-- The calls that come upon such a project and write its expiry.
pub data Late {W : Type 0} (ctx : Ctx) (id : ℕ) (env : Env W) : Call → Type 0 where
  late_deposit :
      (donator token : Address) (amount : ℤ)
      → get_or false env.store.paused ≡ false
      → ctx.authorized donator ≡ true
      → pos 0 <ℤ amount
      → Late ctx id env (Call.deposit id donator token amount)
  late_release :
      (caller : Address) (hash : Hash)
      → get_or false env.store.paused ≡ false
      → ctx.authorized caller ≡ true
      → env.store.role caller ≡ some oracle
      → Late ctx id env (Call.verify_and_release caller id hash)
  late_cancel :
      (caller : Address)
      → ctx.authorized caller ≡ true
      → holds_any (env.store.role caller) (super_admin ∷ project_manager ∷ []) ≡ true
      → Late ctx id env (Call.cancel caller id)

module _ {W : Type 0} (host : Host W) (ctx : Ctx) (id : ℕ) (env : Env W) (config : ProjectConfig)
    (state : ProjectState) (due : Overdue ctx id env config state) where
  abbrev marked : Env W
  marked = record env {
    store = record (env.store) {
      proj_state = update env.store.proj_state id (some (expired_state ctx state));
    };
  }

  expiry_panics :
      (call : Call)
      → Late ctx id env call
      → perform host ctx call env ≡ panic (contract_error project_expired) marked
  unfolding perform Funding.deposit Release.verify_and_release cancel_project
  expiry_panics call (late_deposit donator token amount p a x) = ground arith
  expiry_panics call (late_release caller hash p a r) = ground arith
  expiry_panics call (late_cancel caller a r) = ground arith

  -- A deposit, a release or a cancellation of an overdue project, by a caller who passes the checks
  -- before the deadline's and at a time whose refund window fits a u64, writes the `Expired` state
  -- and panics, so that the transaction leaves everything, the open project included, as it was.
  pub expiry_undone :
      (call : Call)
      → Late ctx id env call
      → (d : Env W) × (perform host ctx call env ≡ panic (contract_error project_expired) d)
        × (d.store.proj_state id ≡ some (expired_state ctx state))
        × (step host ctx call env ≡ env)
        × ((step host ctx call env).store.proj_state id ≡ some state)
  expiry_undone call l =
      let p = expiry_panics call l in
      let undone = step-panic host ctx call env marked p in
      (marked, p, ground arith, undone, rw undone due.has_state)
