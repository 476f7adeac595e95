-- ===== src/Contract/Change/Ready.antt =====
-- The calls of lib.rs without transfers whose conditions are met.
use pifp_stellar.Base.{ℕ, ◌≡◌, refl, Bool, List}
use pifp_stellar.Base.Int.{ℤ}
use pifp_stellar.Contract.Types.{Address, Hash, ProjectConfig, ProjectState}
use pifp_stellar.Contract.Env.{Env, Ctx, Host, Storage, ok, >>=-run}
use pifp_stellar.Contract.Projects
use pifp_stellar.Contract.Projects.Registered.{
  RegisterChecked, register_project-returns, ExtendChecked, extend_deadline-returns,
}
use pifp_stellar.Contract.Lifecycle.{
  Call, register_project, extend_deadline, cancel, expire, perform,
}
use pifp_stellar.Contract.Lifecycle.Ended.{
  ExpireChecked, CancelChecked, expire_project-returns, cancel_project-returns,
}

-- A registration, an extension, a cancellation or an expiry that meets every condition.
pub data Ready (ctx : Ctx) (s : Storage) : Call → Type 0 where
  can_register :
      (creator : Address) (tokens : List Address) (goal : ℤ) (hash : Hash) (uri : List ℕ)
      (deadline : ℕ) (private : Bool)
      → RegisterChecked ctx creator tokens goal hash uri deadline private s
      → Ready ctx s (register_project creator tokens goal hash uri deadline private)
  can_extend :
      (caller : Address) (id deadline : ℕ) (config : ProjectConfig) (state : ProjectState)
      → ExtendChecked ctx caller id deadline s config state
      → Ready ctx s (extend_deadline caller id deadline)
  can_cancel :
      (caller : Address) (id : ℕ) (config : ProjectConfig) (state : ProjectState)
      → CancelChecked ctx caller id s config state
      → Ready ctx s (cancel caller id)
  can_expire :
      (id : ℕ) (config : ProjectConfig) (state : ProjectState)
      → ExpireChecked ctx id s config state
      → Ready ctx s (expire id)

-- A registration, an extension, a cancellation or an expiry that meets every condition returns.
pub perform-Ready :
    {W : Type 0} (host : Host W) (ctx : Ctx) (call : Call) (env : Env W)
    → Ready ctx env.store call
    → (e : Env W) × (perform host ctx call env ≡ ok tt e)
unfolding perform
perform-Ready host ctx _ env (can_register c ts g hash uri d p checked) =
    let (e, h) = register_project-returns ctx c ts g hash uri d p env checked in
    (e, >>=-run (Projects.register_project ctx c ts g hash uri d p) _ env h refl)
perform-Ready host ctx _ env (can_extend c id d config state checked) =
    extend_deadline-returns ctx c id d env config state checked
perform-Ready host ctx _ env (can_cancel c id config state checked) =
    cancel_project-returns ctx c id env config state checked
perform-Ready host ctx _ env (can_expire id config state checked) =
    expire_project-returns ctx id env config state checked
