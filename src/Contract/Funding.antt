-- ===== src/Contract/Funding.antt =====
-- `deposit` and `refund` of contracts/pifp_protocol/src/lib.rs.
pub mod Checks
pub mod Deposited
pub mod Refunded
use pifp_stellar.Base.{
  ℕ, ◌+◌, Bool, true, false, Option, none, some, List, [], ◌∷◌, ⊤, not, ◌&&◌, ltb, leb, ◌==◌,
  if◌then◌else◌,
}
use pifp_stellar.Base.Int.{ℤ, pos, ◌-ℤ◌, neg_ℤ, leb_ℤ, eqb_ℤ, checked_add}
use pifp_stellar.Contract.Errors.{
  Error, contract_error, token_failure, missing_value, invalid_amount, project_expired,
  not_whitelisted, project_not_active, token_not_accepted, project_not_expired,
  refund_window_expired, insufficient_balance,
}
use pifp_stellar.Contract.Types.{
  Address, ProjectConfig, ProjectState, ProjectStatus, funding, active, completed, expired,
  cancelled, accepts, status_eq, is_open, is_refundable,
}
use pifp_stellar.Contract.Env.{
  Storage, Env, Ctx, Host, Action, ok, panic, ◌>>=◌, ◌>>◌, pure, skip, fail, gets, or_panic,
  panic_if, require_auth, when, add_u64, add_u32,
}
use pifp_stellar.Contract.Emit.{emit_project_active, emit_project_funded, emit_refunded}
use pifp_stellar.Contract.Storage.{
  load_project_pair, save_project_state, is_whitelisted, get_donator_balance, set_donator_balance,
  add_to_token_balance,
}
use pifp_stellar.Contract.Admin.{require_not_paused}

-- 6 * 30 * 24 * 60 * 60 seconds.
abbrev pub refund_window : ℕ
refund_window = 15_552_000

-- `accepted_tokens.get(0)` is there and is `token`.
abbrev pub is_first : List Address → Address → Bool
is_first [] token = false
is_first (first ∷ _) token = token == first

module _ {W : Type 0} where
  -- `token::Client::transfer`, which traps when the token contract refuses.
  unfoldable pub transfer : Host W → Address → Address → Address → ℤ → Action W ⊤
  transfer host token from to amount env = elim (host.transfer token from to amount env.tokens) [
    | none ↦ panic token_failure env
    | some w ↦ ok tt (record env { tokens = w })
  ]

  -- The write of `Expired` with its refund window, which several entry points share.
  unfoldable pub mark_expired : Ctx → ℕ → ProjectState → Action W ProjectState
  mark_expired ctx project_id state = do
    expiry ← add_u64 ctx.timestamp refund_window
    let state' : ProjectState = record state { status = expired; refund_expiry = expiry }
    save_project_state project_id state'
    pure state'

  abbrev check_status : ProjectStatus → Action W ⊤
  check_status funding = skip
  check_status active = skip
  check_status expired = fail (contract_error project_expired)
  check_status _ = fail (contract_error project_not_active)

  -- The checks of `deposit` up to the token, with the project that they load.
  unfoldable pub check_deposit :
      Ctx → ℕ → Address → Address → ℤ → Action W (ProjectConfig × ProjectState)
  unfolding mark_expired accepts
  check_deposit ctx project_id donator token amount = do
    require_not_paused
    require_auth ctx donator
    panic_if (leb_ℤ amount (pos 0)) invalid_amount
    (config, state) ← load_project_pair project_id
    when (leb config.deadline ctx.timestamp) do
      when (is_open state.status) (mark_expired ctx project_id state >>= λ _. skip)
      fail (contract_error project_expired)
    when config.is_private
        do listed ← is_whitelisted project_id donator; panic_if (not listed) not_whitelisted
    check_status state.status
    panic_if (not (accepts config.accepted_tokens token)) token_not_accepted
    pure (config, state)

  -- The rest of `deposit`.
  unfoldable pub record_deposit :
      Host W → Ctx → ℕ → Address → Address → ℤ → ProjectConfig → ProjectState → Action W ⊤
  unfolding transfer
  record_deposit host ctx project_id donator token amount config state = do
    current_donor_balance ← get_donator_balance project_id token donator
    let is_new_donor = eqb_ℤ current_donor_balance (pos 0)
    count ← (if is_new_donor then add_u32 state.donation_count 1 else pure state.donation_count)
    let state' : ProjectState = record state { donation_count = count }
    when is_new_donor (save_project_state project_id state')
    transfer host token donator ctx.current_contract_address amount
    new_balance ← add_to_token_balance project_id token amount
    when
        (status_eq state'.status funding
          && is_first config.accepted_tokens token
          && leb_ℤ config.goal new_balance)
        do
          save_project_state project_id (record state' { status = active })
          emit_project_active project_id
    new_donor_balance ← or_panic (checked_add current_donor_balance amount) missing_value
    set_donator_balance project_id token donator new_donor_balance
    emit_project_funded project_id donator amount

  unfoldable pub deposit : Host W → Ctx → ℕ → Address → Address → ℤ → Action W ⊤
  unfolding check_deposit record_deposit
  deposit host ctx project_id donator token amount = do
    (config, state) ← check_deposit ctx project_id donator token amount
    record_deposit host ctx project_id donator token amount config state

  -- `refund` up to the refund window: the project's state, expired now if that was due.
  unfoldable pub check_refund : Ctx → Address → ℕ → Action W ProjectState
  unfolding mark_expired
  check_refund ctx donator project_id = do
    require_auth ctx donator
    (config, state) ← load_project_pair project_id
    state' ←
        (if leb config.deadline ctx.timestamp && is_open state.status
          then mark_expired ctx project_id state
          else pure state)
    panic_if (not (is_refundable state'.status)) project_not_expired
    panic_if (ltb 0 state'.refund_expiry && leb state'.refund_expiry ctx.timestamp)
        refund_window_expired
    pure state'

  -- The payment of `refund`.
  unfoldable pub pay_refund : Host W → Ctx → Address → ℕ → Address → Action W ⊤
  unfolding transfer
  pay_refund host ctx donator project_id token = do
    refund_amount ← get_donator_balance project_id token donator
    panic_if (leb_ℤ refund_amount (pos 0)) insufficient_balance
    set_donator_balance project_id token donator (pos 0)
    _ ← add_to_token_balance project_id token (neg_ℤ refund_amount)
    transfer host token ctx.current_contract_address donator refund_amount
    emit_refunded project_id donator refund_amount

  unfoldable pub refund : Host W → Ctx → Address → ℕ → Address → Action W ⊤
  unfolding check_refund pay_refund
  refund host ctx donator project_id token = do
    _ ← check_refund ctx donator project_id
    pay_refund host ctx donator project_id token
