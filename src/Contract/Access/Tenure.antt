-- ===== src/Contract/Access/Tenure.antt =====
-- How long a super-admin stays one.
use pifp_stellar.Base.{◌≡◌, arith, refl, Bool, true, false, some, List, [], ◌∷◌, ◌&&◌, not}
use pifp_stellar.Contract.Types.{Address, super_admin}
use pifp_stellar.Contract.Env.{Env, Ctx, Host, ok}
use pifp_stellar.Contract.Rbac
use pifp_stellar.Contract.Admin
use pifp_stellar.Contract.Lifecycle.{
  Call, init, grant_role, revoke_role, transfer_super_admin, pause, unpause, set_oracle,
  update_protocol_config, register_project, extend_deadline, add_to_whitelist,
  remove_from_whitelist, deposit, refund, verify_and_release, reclaim_expired_funds, cancel, expire,
  perform, step,
}
use pifp_stellar.Contract.History.{run, step-ok}
use pifp_stellar.Contract.Access.Keys.{IsGuarded, writes_roles, perform-SameRoles}
use pifp_stellar.Contract.Access.Guarded.{run-IsGuarded}

unfoldable pub is_transfer : Call → Bool
is_transfer (transfer_super_admin c n) = true
is_transfer (init a) = false
is_transfer (grant_role c t r) = false
is_transfer (revoke_role c t) = false
is_transfer (set_oracle c o) = false
is_transfer (pause c) = false
is_transfer (unpause c) = false
is_transfer (update_protocol_config c r b) = false
is_transfer (register_project c ts x hash m d p) = false
is_transfer (extend_deadline c id d) = false
is_transfer (add_to_whitelist c id a) = false
is_transfer (remove_from_whitelist c id a) = false
is_transfer (deposit id d t x) = false
is_transfer (refund d id t) = false
is_transfer (verify_and_release o id hash) = false
is_transfer (reclaim_expired_funds c id) = false
is_transfer (cancel c id) = false
is_transfer (expire id) = false

unfoldable pub no_transfer : List (Ctx × Call) → Bool
no_transfer [] = true
no_transfer ((_, call) ∷ h) = not (is_transfer call) && no_transfer h

module _ {W : Type 0} (host : Host W) (ctx : Ctx) (owner : Address) (env e : Env W)
    (has_key : env.store.super_admin ≡ some owner) where
  init-key : (a : Address) → Admin.init ctx a env ≡ ok tt e → e.store.super_admin ≡ some owner
  unfolding Admin.init
  init-key a h = ground arith

  grant-key :
      (c t : Address) (r : _)
      → Rbac.grant_role c t r env ≡ ok tt e
      → e.store.super_admin ≡ some owner
  unfolding Rbac.grant_role
  grant-key c t r h = ground arith

  revoke-key :
      (c t : Address) → Rbac.revoke_role c t env ≡ ok tt e → e.store.super_admin ≡ some owner
  unfolding Rbac.revoke_role
  revoke-key c t h = ground arith

  set_oracle-key :
      (c o : Address) → Admin.set_oracle ctx c o env ≡ ok tt e → e.store.super_admin ≡ some owner
  unfolding Admin.set_oracle Rbac.grant_role
  set_oracle-key c o h = ground arith

  other-key :
      (call : Call)
      → writes_roles call ≡ false
      → perform host ctx call env ≡ ok tt e
      → e.store.super_admin ≡ some owner
  other-key call n h = let s = perform-SameRoles host ctx call env e n h in ground (arith, s.admin)

  perform-key :
      (call : Call)
      → is_transfer call ≡ false
      → perform host ctx call env ≡ ok tt e
      → e.store.super_admin ≡ some owner
  unfolding perform writes_roles is_transfer Admin.grant_role Admin.revoke_role
  perform-key (init a) n h = init-key a h
  perform-key (grant_role c t r) n h = grant-key c t r h
  perform-key (revoke_role c t) n h = revoke-key c t h
  perform-key (transfer_super_admin c t) n h = absurd (ground arith)
  perform-key (set_oracle c o) n h = set_oracle-key c o h
  perform-key (pause c) n h = other-key (pause c) refl h
  perform-key (unpause c) n h = other-key (unpause c) refl h
  perform-key (update_protocol_config c r b) n h = other-key (update_protocol_config c r b) refl h
  perform-key (register_project c ts x hash m d p) n h =
      other-key (register_project c ts x hash m d p) refl h
  perform-key (extend_deadline c id d) n h = other-key (extend_deadline c id d) refl h
  perform-key (add_to_whitelist c id a) n h = other-key (add_to_whitelist c id a) refl h
  perform-key (remove_from_whitelist c id a) n h = other-key (remove_from_whitelist c id a) refl h
  perform-key (deposit id d t x) n h = other-key (deposit id d t x) refl h
  perform-key (refund d id t) n h = other-key (refund d id t) refl h
  perform-key (verify_and_release o id hash) n h = other-key (verify_and_release o id hash) refl h
  perform-key (reclaim_expired_funds c id) n h = other-key (reclaim_expired_funds c id) refl h
  perform-key (cancel c id) n h = other-key (cancel c id) refl h
  perform-key (expire id) n h = other-key (expire id) refl h

module _ {W : Type 0} (host : Host W) (owner : Address) where
  run-key :
      (h : List (Ctx × Call)) (env : Env W)
      → no_transfer h ≡ true
      → env.store.super_admin ≡ some owner
      → (run host h env).store.super_admin ≡ some owner
  unfolding run no_transfer
  run-key [] env n k = k
  run-key ((ctx, call) ∷ h) env n k = run-key h (step host ctx call env) (ground arith) (
      step-ok host ctx call env (λ e. e.store.super_admin ≡ some owner) k
        λ e p. perform-key host ctx owner env e k call (ground arith) p)

  -- In a history without a transfer, the address in the super-admin's key stays in it and keeps the
  -- SuperAdmin role, whatever is granted and revoked in between.
  pub tenure :
      (h : List (Ctx × Call)) (env : Env W)
      → no_transfer h ≡ true
      → IsGuarded env.store
      → env.store.super_admin ≡ some owner
      → ((run host h env).store.super_admin ≡ some owner)
        × ((run host h env).store.role owner ≡ some super_admin)
  tenure h env n g k = let kept = run-key h env n k in (kept, run-IsGuarded host h env g owner kept)
