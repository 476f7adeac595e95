-- ===== src/Contract/Tests/Registry.antt =====
-- Examples for registration, whitelists and the ends of a project.
use pifp_stellar.Base.{◌≡◌, ◌⊎◌, ◌↔◌, refl, true, false, [], ◌∷◌, arith}
use pifp_stellar.Base.Int.{◌+ℤ◌, checked_add}
use pifp_stellar.Base.Maps.{update₂}
use pifp_stellar.Base.Totals.{Distinct}
use pifp_stellar.Contract.Types.{super_admin, admin}
use pifp_stellar.Contract.Env.{Env, after, ok}
use pifp_stellar.Contract.Rbac.{holds_any}
use pifp_stellar.Contract.Projects.{
  register_project, extend_deadline, add_to_whitelist, remove_from_whitelist, has_duplicate,
}
use pifp_stellar.Contract.Projects.Listed.{edit_whitelist-ok}
use pifp_stellar.Contract.Projects.Distinct.{has_duplicate-Distinct}
use pifp_stellar.Contract.Admin
use pifp_stellar.Contract.Projects
use pifp_stellar.Contract.Funding
use pifp_stellar.Contract.Lifecycle.{perform, step, Call}
use pifp_stellar.Contract.History.{run}
use pifp_stellar.Contract.Change.Ready.{perform-Ready, can_extend}
use pifp_stellar.Contract.Tests.{at, host, Tokens, funded_env, config_0, state_0}

has_duplicate-Distinct_example :
    (has_duplicate (5 ∷ 6 ∷ 5 ∷ []) 0 (5 ∷ 6 ∷ 5 ∷ []) ≡ false) ↔ Distinct (5 ∷ 6 ∷ 5 ∷ [])
has_duplicate-Distinct_example = has_duplicate-Distinct (5 ∷ 6 ∷ 5 ∷ [])

perform-Ready_example :
    (e : Env Tokens) × (perform host (at 1200) (Call.extend_deadline 1 0 2500) funded_env ≡ ok tt e)
unfolding funded_env perform step run Admin.init Admin.grant_role Admin.update_protocol_config
    Projects.register_project Funding.deposit checked_add ◌+ℤ◌
perform-Ready_example = perform-Ready host (at 1200) (Call.extend_deadline 1 0 2500) funded_env (
    can_extend 1 0 2500 config_0 state_0 record {
      not_paused = refl;
      authorized = refl;
      permitted = refl;
      has_config = refl;
      has_state = refl;
      open_status = refl;
      in_time = omega arith;
      later = omega arith;
      horizon = omega arith;
      within = omega arith;
    })

edit_whitelist-ok_example :
    ((at 1200).authorized 1 ≡ true)
    × ((1 ≡ config_0.creator)
        ⊎ (holds_any (funded_env.store.role 1) (super_admin ∷ admin ∷ []) ≡ true))
    × ((after (add_to_whitelist (at 1200) 1 0 7 funded_env)).store
        ≡ record (funded_env.store) { whitelist = update₂ funded_env.store.whitelist 0 7 true })
    × ((after (add_to_whitelist (at 1200) 1 0 7 funded_env)).tokens ≡ funded_env.tokens)
unfolding funded_env perform step run Admin.init Admin.grant_role Admin.update_protocol_config
    Projects.register_project Funding.deposit checked_add ◌+ℤ◌ add_to_whitelist
edit_whitelist-ok_example =
    edit_whitelist-ok (at 1200) 1 0 7 funded_env
      (after (add_to_whitelist (at 1200) 1 0 7 funded_env)) true config_0 refl refl
