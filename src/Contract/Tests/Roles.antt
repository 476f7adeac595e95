-- ===== src/Contract/Tests/Roles.antt =====
-- Examples for the roles and for pausing.
use pifp_stellar.Base.{◌≡◌, refl, some, List, [], ◌∷◌}
use pifp_stellar.Base.Int.{pos, ◌+ℤ◌, checked_add}
use pifp_stellar.Contract.Errors.{contract_error, protocol_paused}
use pifp_stellar.Contract.Types.{super_admin, admin, project_manager}
use pifp_stellar.Contract.Env.{Ctx, after, panic}
use pifp_stellar.Contract.Emergency.{pause_stops}
use pifp_stellar.Contract.Access.Keys.{IsGuarded}
use pifp_stellar.Contract.Access.Guarded.{deployed-IsGuarded}
use pifp_stellar.Contract.Access.Tenure.{tenure, no_transfer, is_transfer}
use pifp_stellar.Contract.Access.Takeover.{transfer_takes_over}
use pifp_stellar.Contract.Admin
use pifp_stellar.Contract.Projects
use pifp_stellar.Contract.Funding
use pifp_stellar.Contract.Lifecycle.{Call, perform, step}
use pifp_stellar.Contract.History.{run, deployed}
use pifp_stellar.Contract.Tests.{host, at, unsigned, wallets, opening, open_env}

deployed-IsGuarded_example : IsGuarded (run host opening (deployed wallets)).store
deployed-IsGuarded_example = deployed-IsGuarded host opening wallets

abbrev reshuffle : List (Ctx × Call)
reshuffle =
    (at 1200, Call.grant_role 1 4 admin)
    ∷ (at 1300, Call.revoke_role 4 1)
    ∷ (at 1400, Call.grant_role 4 1 project_manager)
    ∷ []

open_env-IsGuarded : IsGuarded open_env.store
unfolding open_env
open_env-IsGuarded = deployed-IsGuarded host opening wallets

tenure_example :
    ((run host reshuffle open_env).store.super_admin ≡ some 1)
    × ((run host reshuffle open_env).store.role 1 ≡ some super_admin)
unfolding open_env perform step run Admin.init Admin.grant_role Admin.update_protocol_config
    Projects.register_project Funding.deposit checked_add ◌+ℤ◌ no_transfer is_transfer
tenure_example = tenure host 1 reshuffle open_env refl open_env-IsGuarded refl

transfer_takes_over_example :
    ((step host (unsigned 1200) (Call.transfer_super_admin 1 66) open_env).store.super_admin
      ≡ some 66)
    × ((step host (unsigned 1200) (Call.transfer_super_admin 1 66) open_env).store.role 66
        ≡ some super_admin)
unfolding open_env perform step run Admin.init Admin.grant_role Admin.update_protocol_config
    Projects.register_project Funding.deposit checked_add ◌+ℤ◌
transfer_takes_over_example = transfer_takes_over host (unsigned 1200) open_env 1 66 refl

pause_stops_example :
    perform host (at 1300) (Call.deposit 0 7 5 (pos 100)) (after (Admin.pause (at 1200) 1 open_env))
    ≡ panic (contract_error protocol_paused) (after (Admin.pause (at 1200) 1 open_env))
unfolding open_env perform step run Admin.init Admin.grant_role Admin.update_protocol_config
    Projects.register_project Funding.deposit checked_add ◌+ℤ◌ Admin.pause
pause_stops_example =
    pause_stops host (at 1200) (at 1300) 1 (Call.deposit 0 7 5 (pos 100)) open_env
      (after (Admin.pause (at 1200) 1 open_env)) refl refl
