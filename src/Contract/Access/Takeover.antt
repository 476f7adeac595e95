-- ===== src/Contract/Access/Takeover.antt =====
-- What one transaction can do with the roles when its caller names the super-admin and authorises
-- nothing.
use pifp_stellar.Base.{◌≡◌, arith, some}
use pifp_stellar.Contract.Types.{Address, super_admin}
use pifp_stellar.Contract.Env.{Env, Ctx, Host}
use pifp_stellar.Contract.Admin
use pifp_stellar.Contract.Lifecycle.{Call, perform, step}

module _ {W : Type 0} (host : Host W) (ctx : Ctx) (env : Env W) (owner intruder : Address)
    (has_role : env.store.role owner ≡ some super_admin) where
  -- Where an address holds the SuperAdmin role, a transfer that names it as the current super-admin
  -- hands the role and the key to any address, whoever has authorised the call.
  pub transfer_takes_over :
      ((step host ctx (Call.transfer_super_admin owner intruder) env).store.super_admin
        ≡ some intruder)
      × ((step host ctx (Call.transfer_super_admin owner intruder) env).store.role intruder
          ≡ some super_admin)
  unfolding step perform Admin.transfer_super_admin
  transfer_takes_over = (ground arith, ground arith)

  -- Where an address holds the SuperAdmin role, a grant of SuperAdmin that names it as the caller
  -- gives the role to a second address and leaves the first its role and the key its content,
  -- whoever has authorised the call.
  pub grant_makes_two :
      let s = (step host ctx (Call.grant_role owner intruder super_admin) env).store in
      (s.role intruder ≡ some super_admin)
      × (s.role owner ≡ some super_admin)
      × (s.super_admin ≡ env.store.super_admin)
  unfolding step perform Admin.grant_role
  grant_makes_two = (ground arith, ground arith, ground arith)
