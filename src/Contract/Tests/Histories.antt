-- ===== src/Contract/Tests/Histories.antt =====
-- Examples for histories.
use pifp_stellar.Base.{◌≡◌, ◌<◌, ◌≤◌, ◌⊎◌, refl, true, false, some, get_or, List, [], ◌∷◌, arith}
use pifp_stellar.Base.Int.{pos, ◌+ℤ◌, checked_add}
use pifp_stellar.Contract.Types.{Project, ProjectState}
use pifp_stellar.Contract.Env.{Ctx, after, ok, returns}
use pifp_stellar.Contract.Projects.{register_project, get_project}
use pifp_stellar.Contract.Projects.Registered.{new_project}
use pifp_stellar.Contract.Lifecycle.{expire_project}
use pifp_stellar.Contract.Change.{Change, perform-Change}
use pifp_stellar.Contract.Change.Fresh.{IsFresh}
use pifp_stellar.Contract.Change.Solvency.{IsSound}
use pifp_stellar.Contract.History.{end}
use pifp_stellar.Contract.History.Safety.{deployed-IsSound}
use pifp_stellar.Contract.History.Registered.{Lasts, registration-Lasts}
use pifp_stellar.Contract.History.Numbered.{deployed-get_project}
use pifp_stellar.Contract.History.Life.{Lived, Walks, run-Lived}
use pifp_stellar.Contract.Admin
use pifp_stellar.Contract.Projects
use pifp_stellar.Contract.Funding
use pifp_stellar.Contract.Lifecycle.{Call, perform, step}
use pifp_stellar.Contract.History.{run, deployed}
use pifp_stellar.Contract.Tests.{host, at, wallets, funding_calls, funded_env, state_0}

deployed-IsSound_example :
    IsFresh (run host funding_calls (deployed wallets)).store
    × IsSound (end 0 funding_calls) (run host funding_calls (deployed wallets)).store
deployed-IsSound_example =
    deployed-IsSound host 0 funding_calls wallets
      (omega arith, (omega arith, (omega arith, (omega arith, (omega arith, tt)))))

funded_env-IsFresh : IsFresh funded_env.store
unfolding funded_env
funded_env-IsFresh =
    (deployed-IsSound host 0 funding_calls wallets
      (omega arith, (omega arith, (omega arith, (omega arith, (omega arith, tt)))))).0

abbrev ending : List (Ctx × Call)
ending =
    (at 1200, Call.extend_deadline 1 0 2500)
    ∷ (at 2600, Call.expire 0)
    ∷ (at 2700, Call.refund 7 0 5)
    ∷ []

run-Lived_example :
    (q : ProjectState) × ((run host ending funded_env).store.proj_state 0 ≡ some q)
    × Lived state_0 q
    × Walks host ending funded_env 0 state_0
unfolding funded_env perform step run Admin.init Admin.grant_role Admin.update_protocol_config
    Projects.register_project Funding.deposit checked_add ◌+ℤ◌
run-Lived_example = run-Lived host ending funded_env 0 state_0 funded_env-IsFresh refl

perform-Change_example :
    Change host (at 2100) funded_env (after (perform host (at 2100) (Call.expire 0) funded_env))
unfolding funded_env perform step run Admin.init Admin.grant_role Admin.update_protocol_config
    Projects.register_project Funding.deposit checked_add ◌+ℤ◌ expire_project
perform-Change_example =
    perform-Change host (at 2100) (Call.expire 0) funded_env
      (after (perform host (at 2100) (Call.expire 0) funded_env)) refl

registration-Lasts_example :
    let p = new_project (at 1200) 1 (6 ∷ []) (pos 70) 43 (81 ∷ []) 3000 true 1 in
    (q : Project) × (get_project 1 (
        run host ending (
          after (register_project (at 1200) 1 (6 ∷ []) (pos 70) 43 (81 ∷ []) 3000 true funded_env)))
      ≡ ok q (
          run host ending (
            after
              (register_project (at 1200) 1 (6 ∷ []) (pos 70) 43 (81 ∷ []) 3000 true funded_env))))
    × Lasts p q
unfolding funded_env perform step run Admin.init Admin.grant_role Admin.update_protocol_config
    Projects.register_project Funding.deposit checked_add ◌+ℤ◌
registration-Lasts_example =
    registration-Lasts host (at 1200) 1 (6 ∷ []) (pos 70) 43 (81 ∷ []) 3000 true funded_env
      (after (register_project (at 1200) 1 (6 ∷ []) (pos 70) 43 (81 ∷ []) 3000 true funded_env))
      (new_project (at 1200) 1 (6 ∷ []) (pos 70) 43 (81 ∷ []) 3000 true 1) ending funded_env-IsFresh
      refl

deployed-get_project_example :
    let env = run host funding_calls (deployed wallets) in
    ((0 < get_or 0 env.store.project_count)
      × ((p : Project) × (get_project 0 env ≡ ok p env) × (p.id ≡ 0)))
    ⊎ ((get_or 0 env.store.project_count ≤ 0) × (returns (get_project 0 env) ≡ false))
deployed-get_project_example = deployed-get_project host funding_calls wallets 0
