-- ===== src/Contract/Release.antt =====
-- `verify_and_release` and `reclaim_expired_funds` of contracts/pifp_protocol/src/lib.rs.
pub mod Released
pub mod Loop
pub mod Fee
pub mod Reclaimed
use pifp_stellar.Base.{
  ℕ, Bool, true, false, Option, none, some, List, [], ◌∷◌, ⊤, not, ◌||◌, ◌&&◌, ltb, leb, ◌==◌,
  get_or, if◌then◌else◌,
}
use pifp_stellar.Base.Int.{ℤ, pos, ◌*ℤ◌, ltb_ℤ, checked_sub, checked_mul, checked_div}
use pifp_stellar.Contract.Errors.{
  contract_error, project_expired, milestone_already_released, invalid_transition,
  verification_failed, not_authorized, refund_window_active,
}
use pifp_stellar.Contract.Types.{
  Address, Hash, ProjectConfig, ProjectState, ProjectStatus, ProtocolConfig, funding, active,
  completed, expired, cancelled, is_open, is_refundable,
}
use pifp_stellar.Contract.Env.{
  Storage, Env, Ctx, Host, Action, ok, panic, ◌>>=◌, ◌>>◌, pure, skip, fail, panic_if, require_auth,
  when,
}
use pifp_stellar.Contract.Emit.{
  emit_fee_deducted, emit_funds_released, emit_project_verified, emit_expired_funds_reclaimed,
}
use pifp_stellar.Contract.Storage.{
  load_project_pair, save_project_state, get_protocol_config, drain_token_balance,
}
use pifp_stellar.Contract.Rbac.{require_oracle}
use pifp_stellar.Contract.Admin.{require_not_paused}
use pifp_stellar.Contract.Funding.{transfer, mark_expired}

-- balance * bps / 10000, or 0 if the product is out of range.
unfoldable pub fee_amount : ℤ → ℕ → ℤ
unfolding checked_mul checked_div
fee_amount balance fee_bps =
    get_or (pos 0) (checked_div (get_or (pos 0) (checked_mul balance (pos fee_bps))) 10000)

-- `balance.checked_sub(fee_amount).unwrap_or(balance)`.
unfoldable pub less_fee : ℤ → ℤ → ℤ
unfolding checked_sub
less_fee balance fee = get_or balance (checked_sub balance fee)

module _ {W : Type 0} where
  unfoldable pub pay_fee : Host W → Ctx → ℕ → ProtocolConfig → Address → ℤ → ℤ → Action W ℤ
  unfolding transfer less_fee
  pay_fee host ctx project_id config token balance fee = do
    transfer host token ctx.current_contract_address config.fee_recipient fee
    emit_fee_deducted project_id token fee config.fee_recipient
    pure (less_fee balance fee)

  -- Pays the platform's fee out of `balance`, if there is one, and returns the rest.
  unfoldable pub deduct_fee : Host W → Ctx → ℕ → Option ProtocolConfig → Address → ℤ → Action W ℤ
  unfolding pay_fee fee_amount
  deduct_fee host ctx project_id none token balance = pure balance
  deduct_fee host ctx project_id (some config) token balance =
      let fee : ℤ = fee_amount balance config.fee_bps in
      if ltb 0 config.fee_bps && ltb_ℤ (pos 0) fee
      then pay_fee host ctx project_id config token balance fee
      else pure balance

  -- The body of the loop over the accepted tokens.
  unfoldable pub release_token :
      Host W → Ctx → ℕ → Option ProtocolConfig → Address → Address → Action W ⊤
  unfolding transfer deduct_fee
  release_token host ctx project_id protocol_config creator token = do
    balance ← drain_token_balance project_id token
    when (ltb_ℤ (pos 0) balance) do
      rest ← deduct_fee host ctx project_id protocol_config token balance
      when (ltb_ℤ (pos 0) rest) do
        transfer host token ctx.current_contract_address creator rest
        emit_funds_released project_id token rest

  unfoldable pub release_tokens :
      Host W → Ctx → ℕ → Option ProtocolConfig → Address → List Address → Action W ⊤
  unfolding release_token
  release_tokens host ctx project_id protocol_config creator [] = skip
  release_tokens host ctx project_id protocol_config creator (token ∷ rest) = do
    release_token host ctx project_id protocol_config creator token
    release_tokens host ctx project_id protocol_config creator rest

  abbrev check_verifiable : ProjectStatus → Action W ⊤
  check_verifiable funding = skip
  check_verifiable active = skip
  check_verifiable completed = fail (contract_error milestone_already_released)
  check_verifiable expired = fail (contract_error project_expired)
  check_verifiable cancelled = fail (contract_error invalid_transition)

  -- The checks of `verify_and_release`, with the project that they load.
  unfoldable pub check_verify : Ctx → Address → ℕ → Hash → Action W (ProjectConfig × ProjectState)
  unfolding require_oracle mark_expired
  check_verify ctx oracle project_id submitted_proof_hash = do
    require_not_paused
    require_auth ctx oracle
    require_oracle oracle
    (config, state) ← load_project_pair project_id
    when (leb config.deadline ctx.timestamp && is_open state.status)
        do _ ← mark_expired ctx project_id state; fail (contract_error project_expired)
    check_verifiable state.status
    panic_if (not (submitted_proof_hash == config.proof_hash)) verification_failed
    pure (config, state)

  -- The rest of `verify_and_release`.
  unfoldable pub complete_release :
      Host W → Ctx → Address → ℕ → Hash → ProjectConfig → ProjectState → Action W ⊤
  complete_release host ctx oracle project_id submitted_proof_hash config state = do
    protocol_config ← get_protocol_config
    release_tokens host ctx project_id protocol_config config.creator config.accepted_tokens
    save_project_state project_id (record state { status = completed })
    emit_project_verified project_id oracle submitted_proof_hash

  unfoldable pub verify_and_release : Host W → Ctx → Address → ℕ → Hash → Action W ⊤
  unfolding check_verify
  verify_and_release host ctx oracle project_id submitted_proof_hash = do
    (config, state) ← check_verify ctx oracle project_id submitted_proof_hash
    complete_release host ctx oracle project_id submitted_proof_hash config state

  -- The body of the loop of `reclaim_expired_funds`.
  unfoldable pub reclaim_token : Host W → Ctx → ℕ → Address → Address → Action W ⊤
  unfolding transfer
  reclaim_token host ctx project_id creator token = do
    balance ← drain_token_balance project_id token
    when (ltb_ℤ (pos 0) balance) do
      transfer host token ctx.current_contract_address creator balance
      emit_expired_funds_reclaimed project_id creator token balance

  unfoldable pub reclaim_tokens : Host W → Ctx → ℕ → Address → List Address → Action W ⊤
  unfolding reclaim_token
  reclaim_tokens host ctx project_id creator [] = skip
  reclaim_tokens host ctx project_id creator (token ∷ rest) = do
    reclaim_token host ctx project_id creator token
    reclaim_tokens host ctx project_id creator rest

  -- The checks of `reclaim_expired_funds`.
  unfoldable pub check_reclaim : Ctx → Address → ℕ → Action W ProjectConfig
  check_reclaim ctx creator project_id = do
    require_not_paused
    require_auth ctx creator
    (config, state) ← load_project_pair project_id
    panic_if (not (creator == config.creator)) not_authorized
    panic_if (not (is_refundable state.status)) invalid_transition
    panic_if (state.refund_expiry == 0 || ltb ctx.timestamp state.refund_expiry)
        refund_window_active
    pure config

  unfoldable pub reclaim_expired_funds : Host W → Ctx → Address → ℕ → Action W ⊤
  unfolding check_reclaim reclaim_tokens
  reclaim_expired_funds host ctx creator project_id = do
    config ← check_reclaim ctx creator project_id
    reclaim_tokens host ctx project_id config.creator config.accepted_tokens
