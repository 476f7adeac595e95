-- ===== src/Contract/Access/Keys.antt =====
-- The super-admin's key and the role of the address in it.
use pifp_stellar.Base.{ℕ, ◌≡◌, arith, Bool, true, false, some}
use pifp_stellar.Contract.Types.{Address, Role, super_admin}
use pifp_stellar.Contract.Env.{Env, Ctx, Host, Storage, ok, >>=-ok}
use pifp_stellar.Contract.Rbac
use pifp_stellar.Contract.Admin
use pifp_stellar.Contract.Projects
use pifp_stellar.Contract.Projects.Registered.{register_project-ok, extend_deadline-ok}
use pifp_stellar.Contract.Funding.Deposited.{deposit-Deposited}
use pifp_stellar.Contract.Funding.Refunded.{refund-Refunded}
use pifp_stellar.Contract.Release.Loop.{verify_and_release-Released}
use pifp_stellar.Contract.Release.Reclaimed.{reclaim_expired_funds-Reclaimed}
use pifp_stellar.Contract.Lifecycle.Ended.{expire_project-ok, cancel_project-ok}
use pifp_stellar.Contract.Lifecycle.{
  Call, init, grant_role, revoke_role, transfer_super_admin, pause, unpause, set_oracle,
  update_protocol_config, register_project, extend_deadline, add_to_whitelist,
  remove_from_whitelist, deposit, refund, verify_and_release, reclaim_expired_funds, cancel, expire,
  perform,
}

-- The address in the super-admin's key holds the role.
abbrev pub IsGuarded : Storage → Type 0
IsGuarded s = (a : Address) → s.super_admin ≡ some a → s.role a ≡ some super_admin

-- The roles and the key are left alone.
pub record SameRoles (s t : Storage) : Type 0 where
  pub roles : t.role ≡ s.role
  pub admin : t.super_admin ≡ s.super_admin

module _ {W : Type 0} (ctx : Ctx) (caller : Address) (env e : Env W) where
  pub init-guards : IsGuarded env.store → Admin.init ctx caller env ≡ ok tt e → IsGuarded e.store
  unfolding Admin.init
  init-guards g h = λ a k. ground arith

  pub grant-guards :
      (target : Address) (role : Role)
      → IsGuarded env.store
      → Rbac.grant_role caller target role env ≡ ok tt e
      → IsGuarded e.store
  unfolding Rbac.grant_role
  grant-guards target role g h = λ a k. ground (arith, g a)

  pub revoke-guards :
      (target : Address)
      → IsGuarded env.store
      → Rbac.revoke_role caller target env ≡ ok tt e
      → IsGuarded e.store
  unfolding Rbac.revoke_role
  revoke-guards target g h = λ a k. ground (arith, g a)

  pub transfer-guards :
      (new : Address) → Rbac.transfer_super_admin caller new env ≡ ok tt e → IsGuarded e.store
  unfolding Rbac.transfer_super_admin
  transfer-guards new h = λ a k. ground arith

-- The entry points that write roles.
unfoldable pub writes_roles : Call → Bool
writes_roles (init a) = true
writes_roles (grant_role c t r) = true
writes_roles (revoke_role c t) = true
writes_roles (transfer_super_admin c n) = true
writes_roles (set_oracle c o) = true
writes_roles (pause c) = false
writes_roles (unpause c) = false
writes_roles (update_protocol_config c r b) = false
writes_roles (register_project c ts g h m d p) = false
writes_roles (extend_deadline c id d) = false
writes_roles (add_to_whitelist c id a) = false
writes_roles (remove_from_whitelist c id a) = false
writes_roles (deposit id d t x) = false
writes_roles (refund d id t) = false
writes_roles (verify_and_release o id h) = false
writes_roles (reclaim_expired_funds c id) = false
writes_roles (cancel c id) = false
writes_roles (expire id) = false

module _ {W : Type 0} (ctx : Ctx) (caller : Address) (env e : Env W) where
  pause-SameRoles : Admin.pause ctx caller env ≡ ok tt e → SameRoles env.store e.store
  unfolding Admin.pause
  pause-SameRoles h = ground arith

  unpause-SameRoles : Admin.unpause ctx caller env ≡ ok tt e → SameRoles env.store e.store
  unfolding Admin.unpause
  unpause-SameRoles h = ground arith

  update-SameRoles :
      (host : Host W) (r : Address) (bps : ℕ)
      → Admin.update_protocol_config host ctx caller r bps env ≡ ok tt e
      → SameRoles env.store e.store
  unfolding Admin.update_protocol_config
  update-SameRoles host r bps h = ground arith

  add-SameRoles :
      (id : ℕ) (a : Address)
      → Projects.add_to_whitelist ctx caller id a env ≡ ok tt e
      → SameRoles env.store e.store
  unfolding Projects.add_to_whitelist
  add-SameRoles id a h = ground arith

  remove-SameRoles :
      (id : ℕ) (a : Address)
      → Projects.remove_from_whitelist ctx caller id a env ≡ ok tt e
      → SameRoles env.store e.store
  unfolding Projects.remove_from_whitelist
  remove-SameRoles id a h = ground arith

-- A call of another entry point leaves every role and the super-admin's key alone.
pub perform-SameRoles :
    {W : Type 0} (host : Host W) (ctx : Ctx) (call : Call) (env e : Env W)
    → writes_roles call ≡ false
    → perform host ctx call env ≡ ok tt e
    → SameRoles env.store e.store
unfolding perform writes_roles
perform-SameRoles host ctx (init a) env e n h = absurd (ground arith)
perform-SameRoles host ctx (grant_role c t r) env e n h = absurd (ground arith)
perform-SameRoles host ctx (revoke_role c t) env e n h = absurd (ground arith)
perform-SameRoles host ctx (transfer_super_admin c t) env e n h = absurd (ground arith)
perform-SameRoles host ctx (set_oracle c o) env e n h = absurd (ground arith)
perform-SameRoles host ctx (pause c) env e n h = pause-SameRoles ctx c env e h
perform-SameRoles host ctx (unpause c) env e n h = unpause-SameRoles ctx c env e h
perform-SameRoles host ctx (update_protocol_config c r b) env e n h =
    update-SameRoles ctx c env e host r b h
perform-SameRoles host ctx (register_project c ts g hash m d p) env e n h =
    let (q, d', u, v) = >>=-ok (Projects.register_project ctx c ts g hash m d p) _ env h in
    let (checked, _, st, tk) = register_project-ok ctx c ts g hash m d p env d' q u in
    ground (arith, st, v)
perform-SameRoles host ctx (extend_deadline c id d) env e n h =
    let (config, state, checked, st, tk) = extend_deadline-ok ctx c id d env e h in
    ground (arith, st)
perform-SameRoles host ctx (add_to_whitelist c id a) env e n h = add-SameRoles ctx c env e id a h
perform-SameRoles host ctx (remove_from_whitelist c id a) env e n h =
    remove-SameRoles ctx c env e id a h
perform-SameRoles host ctx (deposit id d t x) env e n h =
    let (config, state, checked, r) = deposit-Deposited host ctx id d t x env e h in
    record { roles = r.roles; admin = r.admin }
perform-SameRoles host ctx (refund d id t) env e n h =
    let (config, state, m, checked, r) = refund-Refunded host ctx d id t env e h in
    record { roles = r.roles; admin = r.admin }
perform-SameRoles host ctx (verify_and_release o id hash) env e n h =
    let (config, state, checked, r) = verify_and_release-Released host ctx o id hash env e h in
    record { roles = r.roles; admin = r.admin }
perform-SameRoles host ctx (reclaim_expired_funds c id) env e n h =
    let (config, state, checked, r) = reclaim_expired_funds-Reclaimed host ctx c id env e h in
    ground (arith, r.rest)
perform-SameRoles host ctx (cancel c id) env e n h =
    let (config, state, checked, st, tk) = cancel_project-ok ctx c id env e h in ground (arith, st)
perform-SameRoles host ctx (expire id) env e n h =
    let (config, state, checked, st, tk) = expire_project-ok ctx id env e h in ground (arith, st)
