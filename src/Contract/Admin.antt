-- ===== src/Contract/Admin.antt =====
-- The entry points of contracts/pifp_protocol/src/lib.rs for roles, pausing and the fee.
pub mod Frame
use pifp_stellar.Base.{
  ℕ, Bool, true, false, Option, none, some, List, [], ◌∷◌, ⊤, not, ltb, if◌then◌else◌,
}
use pifp_stellar.Contract.Errors.{
  contract_error, not_authorized, protocol_paused, invalid_fee_basis_points,
}
use pifp_stellar.Contract.Types.{Address, Role, oracle, ProtocolConfig}
use pifp_stellar.Contract.Env.{
  Storage, Env, Ctx, Host, Action, ok, panic, ◌>>=◌, ◌>>◌, pure, gets, panic_if, require_auth,
}
use pifp_stellar.Contract.Emit.{
  emit_protocol_paused, emit_protocol_unpaused, emit_protocol_config_updated,
}
use pifp_stellar.Contract.Storage.{is_paused, set_paused, get_protocol_config, set_protocol_config}
use pifp_stellar.Contract.Rbac
use pifp_stellar.Contract.Rbac.{init_super_admin, require_admin_or_above}

module _ {W : Type 0} where
  abbrev pub require_not_paused : Action W ⊤
  require_not_paused = do panic_if (← is_paused) protocol_paused

  unfoldable pub init : Ctx → Address → Action W ⊤
  unfolding init_super_admin
  init ctx super_admin = do require_auth ctx super_admin; init_super_admin super_admin

  -- The role entry points pass their arguments on, and ask for no authorisation.
  unfoldable pub grant_role : Ctx → Address → Address → Role → Action W ⊤
  unfolding Rbac.grant_role
  grant_role ctx caller target role = Rbac.grant_role caller target role

  unfoldable pub revoke_role : Ctx → Address → Address → Action W ⊤
  unfolding Rbac.revoke_role
  revoke_role ctx caller target = Rbac.revoke_role caller target

  unfoldable pub transfer_super_admin : Ctx → Address → Address → Action W ⊤
  unfolding Rbac.transfer_super_admin
  transfer_super_admin ctx current new = Rbac.transfer_super_admin current new

  unfoldable pub pause : Ctx → Address → Action W ⊤
  unfolding require_admin_or_above
  pause ctx caller = do
    require_auth ctx caller
    require_admin_or_above caller
    set_paused true
    emit_protocol_paused caller

  unfoldable pub unpause : Ctx → Address → Action W ⊤
  unfolding require_admin_or_above
  unpause ctx caller = do
    require_auth ctx caller
    require_admin_or_above caller
    set_paused false
    emit_protocol_unpaused caller

  unfoldable pub set_oracle : Ctx → Address → Address → Action W ⊤
  unfolding require_admin_or_above Rbac.grant_role
  set_oracle ctx caller target = do
    require_auth ctx caller
    require_admin_or_above caller
    Rbac.grant_role caller target oracle

  unfoldable pub update_protocol_config : Host W → Ctx → Address → Address → ℕ → Action W ⊤
  update_protocol_config host ctx caller fee_recipient fee_bps = do
    require_auth ctx caller
    passes ← gets (λ s. host.passes_super_admin s caller)
    panic_if (not passes) not_authorized
    panic_if (ltb 1000 fee_bps) invalid_fee_basis_points
    old_config ← get_protocol_config
    let new_config : ProtocolConfig = record { fee_recipient = fee_recipient; fee_bps = fee_bps }
    set_protocol_config new_config
    emit_protocol_config_updated old_config new_config
