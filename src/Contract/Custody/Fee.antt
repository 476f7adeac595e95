-- ===== src/Contract/Custody/Fee.antt =====
-- The fee of the protocol configuration through the calls of lib.rs.
use pifp_stellar.Base.{ℕ, ◌≡◌, arith}
use pifp_stellar.Contract.Types.{Address, Role}
use pifp_stellar.Contract.Env.{Env, Ctx, Host, ok, >>=-ok}
use pifp_stellar.Contract.Rbac
use pifp_stellar.Contract.Admin
use pifp_stellar.Contract.Projects
use pifp_stellar.Contract.Projects.Registered.{register_project-ok, extend_deadline-ok}
use pifp_stellar.Contract.Funding.Deposited.{deposit-Deposited}
use pifp_stellar.Contract.Funding.Refunded.{refund-Refunded}
use pifp_stellar.Contract.Release.Loop.{verify_and_release-Released}
use pifp_stellar.Contract.Release.Reclaimed.{reclaim_expired_funds-Reclaimed}
use pifp_stellar.Contract.Lifecycle.Ended.{expire_project-ok, cancel_project-ok}
use pifp_stellar.Contract.Lifecycle.{
  Call, init, grant_role, revoke_role, transfer_super_admin, pause, unpause, set_oracle,
  update_protocol_config, register_project, extend_deadline, add_to_whitelist,
  remove_from_whitelist, deposit, refund, verify_and_release, reclaim_expired_funds, cancel, expire,
  perform, step,
}
use pifp_stellar.Contract.History.{step-ok}
use pifp_stellar.Contract.Custody.Plans.{IsCapped}

module _ {W : Type 0} (host : Host W) (ctx : Ctx) (caller : Address) (env e : Env W) where
  init_fee :
      Admin.init ctx caller env ≡ ok tt e → e.store.protocol_config ≡ env.store.protocol_config
  unfolding Admin.init
  init_fee h = ground arith

  grant_fee :
      (t : Address) (r : Role)
      → Rbac.grant_role caller t r env ≡ ok tt e
      → e.store.protocol_config ≡ env.store.protocol_config
  unfolding Rbac.grant_role
  grant_fee t r h = ground arith

  revoke_fee :
      (t : Address)
      → Rbac.revoke_role caller t env ≡ ok tt e
      → e.store.protocol_config ≡ env.store.protocol_config
  unfolding Rbac.revoke_role
  revoke_fee t h = ground arith

  transfer_fee :
      (t : Address)
      → Rbac.transfer_super_admin caller t env ≡ ok tt e
      → e.store.protocol_config ≡ env.store.protocol_config
  unfolding Rbac.transfer_super_admin
  transfer_fee t h = ground arith

  pause_fee :
      Admin.pause ctx caller env ≡ ok tt e → e.store.protocol_config ≡ env.store.protocol_config
  unfolding Admin.pause
  pause_fee h = ground arith

  unpause_fee :
      Admin.unpause ctx caller env ≡ ok tt e → e.store.protocol_config ≡ env.store.protocol_config
  unfolding Admin.unpause
  unpause_fee h = ground arith

  set_oracle_fee :
      (t : Address)
      → Admin.set_oracle ctx caller t env ≡ ok tt e
      → e.store.protocol_config ≡ env.store.protocol_config
  unfolding Admin.set_oracle Rbac.grant_role
  set_oracle_fee t h = ground arith

  add_fee :
      (id : ℕ) (t : Address)
      → Projects.add_to_whitelist ctx caller id t env ≡ ok tt e
      → e.store.protocol_config ≡ env.store.protocol_config
  unfolding Projects.add_to_whitelist
  add_fee id t h = ground arith

  remove_fee :
      (id : ℕ) (t : Address)
      → Projects.remove_from_whitelist ctx caller id t env ≡ ok tt e
      → e.store.protocol_config ≡ env.store.protocol_config
  unfolding Projects.remove_from_whitelist
  remove_fee id t h = ground arith

  update_fee :
      (r : Address) (bps : ℕ)
      → Admin.update_protocol_config host ctx caller r bps env ≡ ok tt e
      → IsCapped e.store.protocol_config
  unfolding Admin.update_protocol_config
  update_fee r bps h = ground arith

module _ {W : Type 0} (host : Host W) (ctx : Ctx) where
  perform-IsCapped :
      (call : Call) (env e : Env W)
      → IsCapped env.store.protocol_config
      → perform host ctx call env ≡ ok tt e
      → IsCapped e.store.protocol_config
  unfolding perform Admin.grant_role Admin.revoke_role Admin.transfer_super_admin
  perform-IsCapped (init a) env e g h = rw (init_fee host ctx a env e h) g
  perform-IsCapped (grant_role c t r) env e g h = rw (grant_fee host ctx c env e t r h) g
  perform-IsCapped (revoke_role c t) env e g h = rw (revoke_fee host ctx c env e t h) g
  perform-IsCapped (transfer_super_admin c t) env e g h = rw (transfer_fee host ctx c env e t h) g
  perform-IsCapped (pause c) env e g h = rw (pause_fee host ctx c env e h) g
  perform-IsCapped (unpause c) env e g h = rw (unpause_fee host ctx c env e h) g
  perform-IsCapped (set_oracle c o) env e g h = rw (set_oracle_fee host ctx c env e o h) g
  perform-IsCapped (update_protocol_config c r b) env e g h = update_fee host ctx c env e r b h
  perform-IsCapped (register_project c ts x hash m d p) env e g h =
      let (q, d', u, v) = >>=-ok (Projects.register_project ctx c ts x hash m d p) _ env h in
      let (_, _, st, _) = register_project-ok ctx c ts x hash m d p env d' q u in
      ground (arith, st, v)
  perform-IsCapped (extend_deadline c id d) env e g h =
      let (_, _, _, st, _) = extend_deadline-ok ctx c id d env e h in ground (arith, st)
  perform-IsCapped (add_to_whitelist c id a) env e g h = rw (add_fee host ctx c env e id a h) g
  perform-IsCapped (remove_from_whitelist c id a) env e g h =
      rw (remove_fee host ctx c env e id a h) g
  perform-IsCapped (deposit id d t x) env e g h =
      let (_, _, _, r) = deposit-Deposited host ctx id d t x env e h in rw r.fee g
  perform-IsCapped (refund d id t) env e g h =
      let (_, _, _, _, r) = refund-Refunded host ctx d id t env e h in rw r.fee g
  perform-IsCapped (verify_and_release o id hash) env e g h =
      let (_, _, _, r) = verify_and_release-Released host ctx o id hash env e h in rw r.fee g
  perform-IsCapped (reclaim_expired_funds c id) env e g h =
      let (_, _, _, r) = reclaim_expired_funds-Reclaimed host ctx c id env e h in
      ground (arith, r.rest)
  perform-IsCapped (cancel c id) env e g h =
      let (_, _, _, st, _) = cancel_project-ok ctx c id env e h in ground (arith, st)
  perform-IsCapped (expire id) env e g h =
      let (_, _, _, st, _) = expire_project-ok ctx id env e h in ground (arith, st)

  -- A transaction keeps the fee at a tenth at most.
  pub step-IsCapped :
      (call : Call) (env : Env W)
      → IsCapped env.store.protocol_config
      → IsCapped (step host ctx call env).store.protocol_config
  step-IsCapped call env g =
      step-ok host ctx call env (λ e. IsCapped e.store.protocol_config) g
        λ e h. perform-IsCapped call env e g h
