-- ===== src/Contract/Tests/Funds.antt =====
-- Examples for deposits, refunds, releases and reclaims.
use pifp_stellar.Base.{◌≡◌, ◌≤◌, ◌*◌, refl, some, arith}
use pifp_stellar.Base.Int.{
  pos, ◌+ℤ◌, ◌-ℤ◌, ◌*ℤ◌, checked_add, checked_mul, checked_div, checked_sub,
}
use pifp_stellar.Contract.Types.{ProjectConfig, ProjectState}
use pifp_stellar.Contract.Env.{Env, after}
use pifp_stellar.Contract.Funding.{deposit, refund, check_refund}
use pifp_stellar.Contract.Funding.Checks.{DepositChecked, RefundChecked}
use pifp_stellar.Contract.Funding.Deposited.{Deposited, deposit-Deposited}
use pifp_stellar.Contract.Funding.Refunded.{Refunded, refund-Refunded}
use pifp_stellar.Contract.Release
use pifp_stellar.Contract.Release.{verify_and_release, reclaim_expired_funds, fee_amount, less_fee}
use pifp_stellar.Contract.Release.Released.{VerifyChecked}
use pifp_stellar.Contract.Release.Loop.{Released, verify_and_release-Released}
use pifp_stellar.Contract.Release.Fee.{specified_fee, fee_split}
use pifp_stellar.Contract.Release.Reclaimed.{
  ReclaimChecked, TokensReclaimed, reclaim_expired_funds-Reclaimed,
}
use pifp_stellar.Contract.Admin
use pifp_stellar.Contract.Projects
use pifp_stellar.Contract.Funding
use pifp_stellar.Contract.Lifecycle.{perform, step}
use pifp_stellar.Contract.History.{run}
use pifp_stellar.Contract.Tests.{
  host, at, Tokens, open_env, funded_env, active_env, expired_env, window_end,
}

-- After the first deposit the contract holds 400 and records it; after the release the creator has
-- 1372 of the 1400 and the platform 28.
deposit_token :
    (funded_env.store.token_balance 0 5 ≡ some (pos 400)) × (funded_env.tokens 5 9 ≡ 400)
unfolding funded_env perform step run Admin.init Admin.grant_role Admin.update_protocol_config
    Projects.register_project Funding.deposit checked_add ◌+ℤ◌
deposit_token = (refl, refl)

release_shares :
    let e = after (verify_and_release host (at 1500) 3 0 42 active_env) in
    (e.tokens 5 1 ≡ 1372) × (e.tokens 5 8 ≡ 28) × (e.tokens 5 9 ≡ 0)
unfolding active_env perform step run Admin.init Admin.grant_role Admin.update_protocol_config
    Projects.register_project Funding.deposit checked_add ◌+ℤ◌ verify_and_release
    Release.complete_release Release.release_tokens fee_amount less_fee checked_mul checked_div
    checked_sub ◌*ℤ◌ ◌-ℤ◌
release_shares = (refl, refl, refl)

deposit-Deposited_example :
    (config : ProjectConfig) × (state : ProjectState) × DepositChecked
      (at 1200)
      0
      7
      5
      (pos 100)
      open_env
      config
      state
    × Deposited host
        (at 1200)
        0
        7
        5
        (pos 100)
        config
        state
        open_env
        (after (deposit host (at 1200) 0 7 5 (pos 100) open_env))
unfolding open_env perform step run Admin.init Admin.grant_role Admin.update_protocol_config
    Projects.register_project Funding.deposit checked_add ◌+ℤ◌
deposit-Deposited_example =
    deposit-Deposited host (at 1200) 0 7 5 (pos 100) open_env
      (after (deposit host (at 1200) 0 7 5 (pos 100) open_env)) refl

refund-Refunded_example :
    (config : ProjectConfig) × (state : ProjectState) × (d : Env Tokens) × RefundChecked
      (at 2100)
      7
      0
      funded_env
      d
      config
      state
    × Refunded host
        (at 2100)
        7
        0
        5
        config
        state
        funded_env
        (after (refund host (at 2100) 7 0 5 funded_env))
unfolding funded_env perform step run Admin.init Admin.grant_role Admin.update_protocol_config
    Projects.register_project Funding.deposit checked_add ◌+ℤ◌ refund ◌-ℤ◌
refund-Refunded_example =
    refund-Refunded host (at 2100) 7 0 5 funded_env (after (refund host (at 2100) 7 0 5 funded_env))
      refl

verify_and_release-Released_example :
    (config : ProjectConfig) × (state : ProjectState) × VerifyChecked
      (at 1500)
      3
      0
      42
      active_env.store
      config
      state
    × Released host
        (at 1500)
        3
        0
        42
        config
        state
        active_env
        (after (verify_and_release host (at 1500) 3 0 42 active_env))
unfolding active_env perform step run Admin.init Admin.grant_role Admin.update_protocol_config
    Projects.register_project Funding.deposit checked_add ◌+ℤ◌ verify_and_release
    Release.complete_release Release.release_tokens fee_amount less_fee checked_mul checked_div
    checked_sub ◌*ℤ◌ ◌-ℤ◌
verify_and_release-Released_example =
    verify_and_release-Released host (at 1500) 3 0 42 active_env
      (after (verify_and_release host (at 1500) 3 0 42 active_env)) refl

reclaim_expired_funds-Reclaimed_example :
    (config : ProjectConfig) × (state : ProjectState) × ReclaimChecked
      (at window_end)
      1
      0
      expired_env.store
      config
      state
    × TokensReclaimed host
        (at window_end)
        0
        config.creator
        config.accepted_tokens
        expired_env
        (after (reclaim_expired_funds host (at window_end) 1 0 expired_env))
unfolding expired_env perform step run Admin.init Admin.grant_role Admin.update_protocol_config
    Projects.register_project Funding.deposit checked_add ◌+ℤ◌ reclaim_expired_funds
reclaim_expired_funds-Reclaimed_example =
    reclaim_expired_funds-Reclaimed host (at window_end) 1 0 expired_env
      (after (reclaim_expired_funds host (at window_end) 1 0 expired_env)) refl

fee_split_example :
    (fee_amount (pos 1400) 200 ≡ pos (specified_fee 1400 200))
    × (10 * specified_fee 1400 200 ≤ 1400)
    × (less_fee (pos 1400) (fee_amount (pos 1400) 200) +ℤ fee_amount (pos 1400) 200 ≡ pos 1400)
fee_split_example = fee_split 1400 200 (omega arith) (omega arith)
