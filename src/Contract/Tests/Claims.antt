-- ===== src/Contract/Tests/Claims.antt =====
-- Examples for claims and for what late calls leave.
use pifp_stellar.Base.{◌≡◌, refl, true, false, some, List, [], ◌∷◌, arith}
use pifp_stellar.Base.Int.{pos, ◌+ℤ◌, ◌-ℤ◌, ◌≤ℤ◌, checked_add}
use pifp_stellar.Contract.Errors.{contract_error, project_expired}
use pifp_stellar.Contract.Types.{accepts}
use pifp_stellar.Contract.Env.{Env, Ctx, after, ok, returns, panic}
use pifp_stellar.Contract.Funding.{deposit, refund}
use pifp_stellar.Contract.Funding.Checks.{expired_state}
use pifp_stellar.Contract.Funding.Deposited.{recorded, donated}
use pifp_stellar.Contract.Release.{reclaim_expired_funds}
use pifp_stellar.Contract.Change.Fresh.{IsFresh}
use pifp_stellar.Contract.Change.Solvency.{IsSound, Sound-later}
use pifp_stellar.Contract.History.Safety.{deployed-IsSound, step-IsFresh}
use pifp_stellar.Contract.History.Refunds.{refunded_env, refund-returns, deposit-returns}
use pifp_stellar.Contract.History.Exclusive.{reclaim_ends_refunds}
use pifp_stellar.Contract.History.Expiry.{expiry_undone, late_release}
use pifp_stellar.Contract.Admin
use pifp_stellar.Contract.Projects
use pifp_stellar.Contract.Funding
use pifp_stellar.Contract.Lifecycle.{Call, perform, step}
use pifp_stellar.Contract.History.{run}
use pifp_stellar.Contract.Tests.{
  host, at, Tokens, wallets, funded_env, expired_env, window_end, funding_calls, config_0, state_0,
}

funded_env-IsSound : IsFresh funded_env.store × IsSound 1100 funded_env.store
unfolding funded_env
funded_env-IsSound =
    deployed-IsSound host 0 funding_calls wallets
      (omega arith, (omega arith, (omega arith, (omega arith, (omega arith, tt)))))

funded_later : IsSound 2100 funded_env.store
funded_later = λ i. Sound-later 1100 2100 _ _ _ (omega arith) (funded_env-IsSound.1 i)

refund-returns_example :
    let e =
      refunded_env host
        (at 2100)
        7
        0
        5
        funded_env
        config_0
        state_0
        ((after (refund host (at 2100) 7 0 5 funded_env)).tokens) in
    (refund host (at 2100) 7 0 5 funded_env ≡ ok tt e)
    × (donated e.store 0 5 7 ≡ pos 0)
    × (recorded e.store 0 5 +ℤ donated funded_env.store 0 5 7 ≡ recorded funded_env.store 0 5)
    × (pos 0 ≤ℤ recorded e.store 0 5)
unfolding funded_env perform step run Admin.init Admin.grant_role Admin.update_protocol_config
    Projects.register_project Funding.deposit checked_add ◌+ℤ◌ refund ◌-ℤ◌
refund-returns_example =
    refund-returns host (at 2100) 7 0 5 funded_env config_0 state_0
      ((after (refund host (at 2100) 7 0 5 funded_env)).tokens) (funded_later 0)
      record {
        authorized = refl;
        has_config = refl;
        has_state = refl;
        refundable = refl;
        in_window = omega arith;
        fits = omega arith;
        owed = omega arith;
      }
      refl

deposit-returns_example : returns (deposit host (at 1200) 0 7 5 (pos 100) funded_env) ≡ true
unfolding funded_env perform step run Admin.init Admin.grant_role Admin.update_protocol_config
    Projects.register_project Funding.deposit checked_add ◌+ℤ◌ accepts
deposit-returns_example =
    deposit-returns host (at 1200) 0 7 5 (pos 100) funded_env config_0 state_0
      (after (deposit host (at 1200) 0 7 5 (pos 100) funded_env)).tokens
      (Sound-later 1100 1200 _ _ _ (omega arith) (funded_env-IsSound.1 0))
      record {
        not_paused = refl;
        authorized = refl;
        positive = omega arith;
        has_config = refl;
        has_state = refl;
        in_time = omega arith;
        open_status = refl;
        listed = λ p. ground (arith, p);
        accepted = refl;
      }
      (omega arith) (omega arith) refl

expiry_undone_example :
    let call = Call.verify_and_release 3 0 42 in
    (d : Env Tokens) × (perform host (at 2100) call funded_env
      ≡ panic (contract_error project_expired) d)
    × (d.store.proj_state 0 ≡ some (expired_state (at 2100) state_0))
    × (step host (at 2100) call funded_env ≡ funded_env)
    × ((step host (at 2100) call funded_env).store.proj_state 0 ≡ some state_0)
unfolding funded_env perform step run Admin.init Admin.grant_role Admin.update_protocol_config
    Projects.register_project Funding.deposit checked_add ◌+ℤ◌
expiry_undone_example =
    expiry_undone host (at 2100) 0 funded_env config_0 state_0
      record {
        has_config = refl;
        has_state = refl;
        open_status = refl;
        due = omega arith;
        fits = omega arith;
      }
      (Call.verify_and_release 3 0 42) (late_release 3 42 refl refl refl)

expired_env-IsFresh : IsFresh expired_env.store
unfolding expired_env
expired_env-IsFresh = step-IsFresh host (at 2100) (Call.expire 0) funded_env funded_env-IsSound.0

reclaim_ends_refunds_example :
    let calls : List (Ctx × Call) = (at window_end, Call.deposit 0 7 5 (pos 10)) ∷ [] in
    returns (
      refund host
        (at window_end)
        7
        0
        5
        (run host calls (after (reclaim_expired_funds host (at window_end) 1 0 expired_env))))
    ≡ false
unfolding expired_env perform step run Admin.init Admin.grant_role Admin.update_protocol_config
    Projects.register_project Funding.deposit checked_add ◌+ℤ◌ reclaim_expired_funds
reclaim_ends_refunds_example =
    reclaim_ends_refunds host (at window_end) (at window_end) 1 7 5 0 expired_env
      (after (reclaim_expired_funds host (at window_end) 1 0 expired_env))
      ((at window_end, Call.deposit 0 7 5 (pos 10)) ∷ []) expired_env-IsFresh refl (omega arith, tt)
      (omega arith)
