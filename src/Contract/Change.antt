-- ===== src/Contract/Change.antt =====
-- The specification of lib.rs: the ways in which one call can change the projects, each with its
-- conditions and its whole effect, and the calls against it.
pub mod Others
pub mod Fresh
pub mod Status
pub mod Config
pub mod Solvency
pub mod Ready
use pifp_stellar.Base.{ℕ, ◌≡◌, Bool, List}
use pifp_stellar.Base.Int.{ℤ}
use pifp_stellar.Contract.Types.{Address, Hash, ProjectConfig, ProjectState, Project}
use pifp_stellar.Contract.Env.{Env, Ctx, Host, ok, >>=-ok}
use pifp_stellar.Contract.Admin.Frame.{
  SameProjects, init-SameProjects, grant_role-SameProjects, revoke_role-SameProjects,
  transfer_super_admin-SameProjects, pause-SameProjects, unpause-SameProjects,
  set_oracle-SameProjects, update_protocol_config-SameProjects,
}
use pifp_stellar.Contract.Projects
use pifp_stellar.Contract.Projects.Registered.{
  RegisterChecked, registered, register_project-ok, ExtendChecked, extended, extend_deadline-ok,
}
use pifp_stellar.Contract.Projects.Listed.{
  add_to_whitelist-SameProjects, remove_from_whitelist-SameProjects,
}
use pifp_stellar.Contract.Funding.Checks.{DepositChecked, RefundChecked, expired_state}
use pifp_stellar.Contract.Funding.Deposited.{Deposited, deposit-Deposited}
use pifp_stellar.Contract.Funding.Refunded.{Refunded, refund-Refunded}
use pifp_stellar.Contract.Release.Released.{VerifyChecked}
use pifp_stellar.Contract.Release.Loop.{Released, verify_and_release-Released}
use pifp_stellar.Contract.Release.Reclaimed.{
  ReclaimChecked, TokensReclaimed, reclaim_expired_funds-Reclaimed,
}
use pifp_stellar.Contract.Lifecycle
use pifp_stellar.Contract.Lifecycle.{
  Call, init, grant_role, revoke_role, transfer_super_admin, pause, unpause, set_oracle,
  update_protocol_config, register_project, extend_deadline, add_to_whitelist,
  remove_from_whitelist, deposit, refund, verify_and_release, reclaim_expired_funds, cancel, expire,
  perform,
}
use pifp_stellar.Contract.Lifecycle.Ended.{
  ExpireChecked, CancelChecked, cancelled_state, with_state, expire_project-ok, cancel_project-ok,
}

pub data Change {W : Type 0} (host : Host W) (ctx : Ctx) (env e : Env W) : Type 0 where
  same : SameProjects env e → Change host ctx env e
  registers :
      (creator : Address) (tokens : List Address) (goal : ℤ) (hash : Hash) (uri : List ℕ)
      (deadline : ℕ) (private : Bool)
      → RegisterChecked ctx creator tokens goal hash uri deadline private env.store
      → e.store ≡ registered ctx creator tokens goal hash uri deadline private env.store
      → e.tokens ≡ env.tokens
      → Change host ctx env e
  extends :
      (caller : Address) (id deadline : ℕ) (config : ProjectConfig) (state : ProjectState)
      → ExtendChecked ctx caller id deadline env.store config state
      → e.store ≡ extended env.store id config deadline
      → e.tokens ≡ env.tokens
      → Change host ctx env e
  deposits :
      (id : ℕ) (donator token : Address) (amount : ℤ) (config : ProjectConfig)
      (state : ProjectState)
      → DepositChecked ctx id donator token amount env config state
      → Deposited host ctx id donator token amount config state env e
      → Change host ctx env e
  refunds :
      (donator : Address) (id : ℕ) (token : Address) (config : ProjectConfig) (state : ProjectState)
      (d : Env W)
      → RefundChecked ctx donator id env d config state
      → Refunded host ctx donator id token config state env e
      → Change host ctx env e
  releases :
      (caller : Address) (id : ℕ) (hash : Hash) (config : ProjectConfig) (state : ProjectState)
      → VerifyChecked ctx caller id hash env.store config state
      → Released host ctx caller id hash config state env e
      → Change host ctx env e
  reclaims :
      (caller : Address) (id : ℕ) (config : ProjectConfig) (state : ProjectState)
      → ReclaimChecked ctx caller id env.store config state
      → TokensReclaimed host ctx id config.creator config.accepted_tokens env e
      → Change host ctx env e
  cancels :
      (caller : Address) (id : ℕ) (config : ProjectConfig) (state : ProjectState)
      → CancelChecked ctx caller id env.store config state
      → e.store ≡ with_state env.store id (cancelled_state ctx state)
      → e.tokens ≡ env.tokens
      → Change host ctx env e
  expires :
      (id : ℕ) (config : ProjectConfig) (state : ProjectState)
      → ExpireChecked ctx id env.store config state
      → e.store ≡ with_state env.store id (expired_state ctx state)
      → e.tokens ≡ env.tokens
      → Change host ctx env e

-- Every call that returns makes one of the specified changes.
pub perform-Change :
    {W : Type 0} (host : Host W) (ctx : Ctx) (call : Call) (env e : Env W)
    → perform host ctx call env ≡ ok tt e
    → Change host ctx env e
unfolding perform
perform-Change host ctx (init a) env e h = same (init-SameProjects ctx a env e h)
perform-Change host ctx (grant_role c t r) env e h =
    same (grant_role-SameProjects ctx c env e t r h)
perform-Change host ctx (revoke_role c t) env e h = same (revoke_role-SameProjects ctx c env e t h)
perform-Change host ctx (transfer_super_admin c n) env e h =
    same (transfer_super_admin-SameProjects ctx c env e n h)
perform-Change host ctx (pause c) env e h = same (pause-SameProjects ctx c env e h)
perform-Change host ctx (unpause c) env e h = same (unpause-SameProjects ctx c env e h)
perform-Change host ctx (set_oracle c o) env e h = same (set_oracle-SameProjects ctx c env e o h)
perform-Change host ctx (update_protocol_config c r b) env e h =
    same (update_protocol_config-SameProjects ctx c env e host r b h)
perform-Change host ctx (register_project c ts g hash m d p) env e h =
    let (q, d', u, v) = >>=-ok (Projects.register_project ctx c ts g hash m d p) _ env h in
    let (checked, _, st, tk) = register_project-ok ctx c ts g hash m d p env d' q u in
    registers c ts g hash m d p checked (cc (st, v)) (cc (tk, v))
perform-Change host ctx (extend_deadline c id d) env e h =
    let (config, state, checked, st, tk) = extend_deadline-ok ctx c id d env e h in
    extends c id d config state checked st tk
perform-Change host ctx (add_to_whitelist c id a) env e h =
    same (add_to_whitelist-SameProjects ctx c id a env e h)
perform-Change host ctx (remove_from_whitelist c id a) env e h =
    same (remove_from_whitelist-SameProjects ctx c id a env e h)
perform-Change host ctx (deposit id d t x) env e h =
    let (config, state, checked, done) = deposit-Deposited host ctx id d t x env e h in
    deposits id d t x config state checked done
perform-Change host ctx (refund d id t) env e h =
    let (config, state, m, checked, done) = refund-Refunded host ctx d id t env e h in
    refunds d id t config state m checked done
perform-Change host ctx (verify_and_release o id hash) env e h =
    let (config, state, checked, done) = verify_and_release-Released host ctx o id hash env e h in
    releases o id hash config state checked done
perform-Change host ctx (reclaim_expired_funds c id) env e h =
    let (config, state, checked, done) = reclaim_expired_funds-Reclaimed host ctx c id env e h in
    reclaims c id config state checked done
perform-Change host ctx (cancel c id) env e h =
    let (config, state, checked, st, tk) = cancel_project-ok ctx c id env e h in
    cancels c id config state checked st tk
perform-Change host ctx (expire id) env e h =
    let (config, state, checked, st, tk) = expire_project-ok ctx id env e h in
    expires id config state checked st tk
