-- ===== src/Contract/Access/Guarded.antt =====
-- The super-admin's key of rbac.rs and the role of the address in it, through a history.
use pifp_stellar.Base.{◌≡◌, arith, List, [], refl, ◌∷◌}
use pifp_stellar.Contract.Types.{Address}
use pifp_stellar.Contract.Env.{Env, Ctx, Host, ok}
use pifp_stellar.Contract.Rbac
use pifp_stellar.Contract.Admin
use pifp_stellar.Contract.Lifecycle.{
  Call, init, grant_role, revoke_role, transfer_super_admin, pause, unpause, set_oracle,
  update_protocol_config, register_project, extend_deadline, add_to_whitelist,
  remove_from_whitelist, deposit, refund, verify_and_release, reclaim_expired_funds, cancel, expire,
  perform, step,
}
use pifp_stellar.Contract.History.{deployed, run, step-ok}
use pifp_stellar.Contract.Access.Keys.{
  IsGuarded, SameRoles, writes_roles, perform-SameRoles, init-guards, grant-guards, revoke-guards,
  transfer-guards,
}

module _ {W : Type 0} (host : Host W) (ctx : Ctx) where
  same-guards :
      (env e : Env W) → SameRoles env.store e.store → IsGuarded env.store → IsGuarded e.store
  same-guards env e s g = λ a k. ground (arith, g a, s.roles, s.admin)

  set_oracle-guards :
      (c o : Address) (env e : Env W)
      → IsGuarded env.store
      → Admin.set_oracle ctx c o env ≡ ok tt e
      → IsGuarded e.store
  unfolding Admin.set_oracle Rbac.grant_role
  set_oracle-guards c o env e g h = λ a k. ground (arith, g a)

  -- The entry points that write roles keep the key guarded.
  perform-IsGuarded :
      (call : Call) (env e : Env W)
      → IsGuarded env.store
      → perform host ctx call env ≡ ok tt e
      → IsGuarded e.store
  unfolding perform writes_roles Admin.grant_role Admin.revoke_role Admin.transfer_super_admin
  perform-IsGuarded (init a) env e g h = init-guards ctx a env e g h
  perform-IsGuarded (grant_role c t r) env e g h = grant-guards ctx c env e t r g h
  perform-IsGuarded (revoke_role c t) env e g h = revoke-guards ctx c env e t g h
  perform-IsGuarded (transfer_super_admin c t) env e g h = transfer-guards ctx c env e t h
  perform-IsGuarded (set_oracle c o) env e g h = set_oracle-guards c o env e g h
  perform-IsGuarded (pause c) env e g h =
      same-guards env e (perform-SameRoles host ctx (pause c) env e refl h) g
  perform-IsGuarded (unpause c) env e g h =
      same-guards env e (perform-SameRoles host ctx (unpause c) env e refl h) g
  perform-IsGuarded (update_protocol_config c r b) env e g h =
      same-guards env e (perform-SameRoles host ctx (update_protocol_config c r b) env e refl h) g
  perform-IsGuarded (register_project c ts x hash m d p) env e g h =
      same-guards env e
        (perform-SameRoles host ctx (register_project c ts x hash m d p) env e refl h) g
  perform-IsGuarded (extend_deadline c id d) env e g h =
      same-guards env e (perform-SameRoles host ctx (extend_deadline c id d) env e refl h) g
  perform-IsGuarded (add_to_whitelist c id a) env e g h =
      same-guards env e (perform-SameRoles host ctx (add_to_whitelist c id a) env e refl h) g
  perform-IsGuarded (remove_from_whitelist c id a) env e g h =
      same-guards env e (perform-SameRoles host ctx (remove_from_whitelist c id a) env e refl h) g
  perform-IsGuarded (deposit id d t x) env e g h =
      same-guards env e (perform-SameRoles host ctx (deposit id d t x) env e refl h) g
  perform-IsGuarded (refund d id t) env e g h =
      same-guards env e (perform-SameRoles host ctx (refund d id t) env e refl h) g
  perform-IsGuarded (verify_and_release o id hash) env e g h =
      same-guards env e (perform-SameRoles host ctx (verify_and_release o id hash) env e refl h) g
  perform-IsGuarded (reclaim_expired_funds c id) env e g h =
      same-guards env e (perform-SameRoles host ctx (reclaim_expired_funds c id) env e refl h) g
  perform-IsGuarded (cancel c id) env e g h =
      same-guards env e (perform-SameRoles host ctx (cancel c id) env e refl h) g
  perform-IsGuarded (expire id) env e g h =
      same-guards env e (perform-SameRoles host ctx (expire id) env e refl h) g

  -- A transaction keeps it that the address in the super-admin's key holds the role.
  pub step-IsGuarded :
      (call : Call) (env : Env W) → IsGuarded env.store → IsGuarded (step host ctx call env).store
  step-IsGuarded call env g =
      step-ok host ctx call env (λ e. IsGuarded e.store) g λ e h. perform-IsGuarded call env e g h

pub run-IsGuarded :
    {W : Type 0} (host : Host W) (h : List (Ctx × Call)) (env : Env W)
    → IsGuarded env.store
    → IsGuarded (run host h env).store
unfolding run
run-IsGuarded host [] env g = g
run-IsGuarded host ((ctx, call) ∷ h) env g =
    run-IsGuarded host h (step host ctx call env) (step-IsGuarded host ctx call env g)

-- From deployment on, through every history of calls by anyone, the address in the super-admin's
-- key holds the SuperAdmin role.
pub deployed-IsGuarded :
    {W : Type 0} (host : Host W) (h : List (Ctx × Call)) (w : W)
    → IsGuarded (run host h (deployed w)).store
deployed-IsGuarded host h w = run-IsGuarded host h (deployed w) λ a k. absurd (ground arith)
