-- ===== src/Contract/Lifecycle.antt =====
-- `cancel_project` and `expire_project` of contracts/pifp_protocol/src/lib.rs, and every entry
-- point that writes as one type of calls.
pub mod Ended
use pifp_stellar.Base.{
  ℕ, ◌+◌, Bool, true, false, Option, none, some, List, ⊤, not, ◌&&◌, ltb, leb, ◌==◌, if◌then◌else◌,
}
use pifp_stellar.Base.Int.{ℤ}
use pifp_stellar.Contract.Errors.{
  contract_error, project_expired, not_authorized, invalid_transition, project_not_expired,
}
use pifp_stellar.Contract.Types.{
  Address, Hash, ProjectConfig, ProjectState, ProjectStatus, active, expired, cancelled, Role,
  project_manager, status_eq, is_open, role_eq,
}
use pifp_stellar.Contract.Env.{
  Storage, Env, Ctx, Host, Action, ok, panic, ◌>>=◌, ◌>>◌, pure, skip, fail, panic_if, require_auth,
  when, add_u64, invoke, after,
}
use pifp_stellar.Contract.Emit.{emit_project_cancelled, emit_project_expired}
use pifp_stellar.Contract.Storage.{load_project_pair, save_project_state}
use pifp_stellar.Contract.Rbac.{require_can_cancel_project, get_role}
use pifp_stellar.Contract.Admin
use pifp_stellar.Contract.Projects
use pifp_stellar.Contract.Funding
use pifp_stellar.Contract.Funding.{mark_expired, refund_window}
use pifp_stellar.Contract.Release

abbrev is_manager : Option Role → Bool
is_manager none = false
is_manager (some r) = role_eq r project_manager

module _ {W : Type 0} where
  unfoldable pub cancel_project : Ctx → Address → ℕ → Action W ⊤
  unfolding require_can_cancel_project mark_expired
  cancel_project ctx caller project_id = do
    require_auth ctx caller
    require_can_cancel_project caller
    (config, state) ← load_project_pair project_id
    when (leb config.deadline ctx.timestamp && is_open state.status)
        do _ ← mark_expired ctx project_id state; fail (contract_error project_expired)
    held ← get_role caller
    panic_if (is_manager held && not (caller == config.creator)) not_authorized
    panic_if (not (status_eq state.status active)) invalid_transition
    expiry ← add_u64 ctx.timestamp refund_window
    save_project_state project_id (record state { status = cancelled; refund_expiry = expiry })
    emit_project_cancelled project_id caller

  unfoldable pub expire_project : Ctx → ℕ → Action W ⊤
  unfolding mark_expired
  expire_project ctx project_id = do
    (config, state) ← load_project_pair project_id
    panic_if (not (is_open state.status)) invalid_transition
    panic_if (ltb ctx.timestamp config.deadline) project_not_expired
    _ ← mark_expired ctx project_id state
    emit_project_expired project_id config.deadline

-- The entry points that can change the contract's state, with their arguments.
pub data Call : Type 0 where
  init : Address → Call
  grant_role : Address → Address → Role → Call
  revoke_role : Address → Address → Call
  transfer_super_admin : Address → Address → Call
  pause : Address → Call
  unpause : Address → Call
  set_oracle : Address → Address → Call
  update_protocol_config : Address → Address → ℕ → Call
  register_project : Address → List Address → ℤ → Hash → List ℕ → ℕ → Bool → Call
  extend_deadline : Address → ℕ → ℕ → Call
  add_to_whitelist : Address → ℕ → Address → Call
  remove_from_whitelist : Address → ℕ → Address → Call
  deposit : ℕ → Address → Address → ℤ → Call
  refund : Address → ℕ → Address → Call
  verify_and_release : Address → ℕ → Hash → Call
  reclaim_expired_funds : Address → ℕ → Call
  cancel : Address → ℕ → Call
  expire : ℕ → Call

module _ {W : Type 0} where
  unfoldable pub perform : Host W → Ctx → Call → Action W ⊤
  perform host ctx (init a) = Admin.init ctx a
  perform host ctx (grant_role c t r) = Admin.grant_role ctx c t r
  perform host ctx (revoke_role c t) = Admin.revoke_role ctx c t
  perform host ctx (transfer_super_admin c n) = Admin.transfer_super_admin ctx c n
  perform host ctx (pause c) = Admin.pause ctx c
  perform host ctx (unpause c) = Admin.unpause ctx c
  perform host ctx (set_oracle c o) = Admin.set_oracle ctx c o
  perform host ctx (update_protocol_config c r b) = Admin.update_protocol_config host ctx c r b
  perform host ctx (register_project c ts g h m d p) =
      Projects.register_project ctx c ts g h m d p >>= λ _. skip
  perform host ctx (extend_deadline c id d) = Projects.extend_deadline ctx c id d
  perform host ctx (add_to_whitelist c id a) = Projects.add_to_whitelist ctx c id a
  perform host ctx (remove_from_whitelist c id a) = Projects.remove_from_whitelist ctx c id a
  perform host ctx (deposit id d t x) = Funding.deposit host ctx id d t x
  perform host ctx (refund d id t) = Funding.refund host ctx d id t
  perform host ctx (verify_and_release o id h) = Release.verify_and_release host ctx o id h
  perform host ctx (reclaim_expired_funds c id) = Release.reclaim_expired_funds host ctx c id
  perform host ctx (cancel c id) = cancel_project ctx c id
  perform host ctx (expire id) = expire_project ctx id

  -- A transaction: what a panic leaves is the state before it.
  unfoldable pub step : Host W → Ctx → Call → Env W → Env W
  step host ctx call env = after (invoke (perform host ctx call) env)
