-- ===== src/Contract/Admin/Frame.antt =====
-- The entry points for roles, pausing, the fee and whitelists (lib.rs, rbac.rs), and what they do to
-- projects, balances and donations.
use pifp_stellar.Base.{ℕ, ◌≡◌, arith}
use pifp_stellar.Contract.Types.{Address, Role}
use pifp_stellar.Contract.Env.{Env, Ctx, Host, ok}
use pifp_stellar.Contract.Rbac
use pifp_stellar.Contract.Rbac.{require_admin_or_above}
use pifp_stellar.Contract.Admin.{
  init, grant_role, revoke_role, transfer_super_admin, pause, unpause, set_oracle,
  update_protocol_config,
}

pub record SameProjects {W : Type 0} (env e : Env W) : Type 0 where
  pub configs : e.store.proj_config ≡ env.store.proj_config
  pub states : e.store.proj_state ≡ env.store.proj_state
  pub balances : e.store.token_balance ≡ env.store.token_balance
  pub donations : e.store.donator_balance ≡ env.store.donator_balance
  pub count : e.store.project_count ≡ env.store.project_count
  pub tokens : e.tokens ≡ env.tokens

module _ {W : Type 0} (ctx : Ctx) (caller : Address) (env e : Env W) where
  pub init-SameProjects : init ctx caller env ≡ ok tt e → SameProjects env e
  unfolding init
  init-SameProjects h = ground arith

  rbac_grant-SameProjects :
      (target : Address) (role : Role)
      → Rbac.grant_role caller target role env ≡ ok tt e
      → SameProjects env e
  unfolding Rbac.grant_role
  rbac_grant-SameProjects target role h = ground arith

  pub grant_role-SameProjects :
      (target : Address) (role : Role)
      → grant_role ctx caller target role env ≡ ok tt e
      → SameProjects env e
  unfolding grant_role
  grant_role-SameProjects target role h = rbac_grant-SameProjects target role h

  pub revoke_role-SameProjects :
      (target : Address) → revoke_role ctx caller target env ≡ ok tt e → SameProjects env e
  unfolding revoke_role
  revoke_role-SameProjects target h = ground arith

  pub transfer_super_admin-SameProjects :
      (new : Address) → transfer_super_admin ctx caller new env ≡ ok tt e → SameProjects env e
  unfolding transfer_super_admin
  transfer_super_admin-SameProjects new h = ground arith

  pub pause-SameProjects : pause ctx caller env ≡ ok tt e → SameProjects env e
  unfolding pause
  pause-SameProjects h = ground arith

  pub unpause-SameProjects : unpause ctx caller env ≡ ok tt e → SameProjects env e
  unfolding unpause
  unpause-SameProjects h = ground arith

  pub update_protocol_config-SameProjects :
      (host : Host W) (recipient : Address) (bps : ℕ)
      → update_protocol_config host ctx caller recipient bps env ≡ ok tt e
      → SameProjects env e
  unfolding update_protocol_config
  update_protocol_config-SameProjects host recipient bps h = ground arith

  pub set_oracle-SameProjects :
      (target : Address) → set_oracle ctx caller target env ≡ ok tt e → SameProjects env e
  unfolding set_oracle
  set_oracle-SameProjects target h = ground arith
