-- ===== src/Contract/Rbac.antt =====
-- contracts/pifp_protocol/src/rbac.rs: one role for each address, and the guards over the roles.
use pifp_stellar.Base.{
  Bool, true, false, Option, none, some, List, [], ◌∷◌, ⊤, ◌==◌, is_some, not, ◌&&◌, if◌then◌else◌,
}
use pifp_stellar.Base.Maps.{update}
use pifp_stellar.Contract.Errors.{already_initialized, not_authorized}
use pifp_stellar.Contract.Types.{
  Address, Role, super_admin, admin, oracle, project_manager, role_eq,
}
use pifp_stellar.Contract.Env.{Action, ◌>>=◌, ◌>>◌, pure, gets, modify, when, panic_if}
use pifp_stellar.Contract.Emit.{emit, emit_revoke}

abbrev pub holds : Option Role → Role → Bool
holds none r = false
holds (some h) r = role_eq h r

abbrev pub contains : List Role → Role → Bool
contains [] r = false
contains (a ∷ allowed) r = if role_eq a r then true else contains allowed r

abbrev pub holds_any : Option Role → List Role → Bool
holds_any none allowed = false
holds_any (some h) allowed = contains allowed h

abbrev pub is_address : Option Address → Address → Bool
is_address none a = false
is_address (some b) a = a == b

module _ {W : Type 0} where
  abbrev pub store_role : Address → Role → Action W ⊤
  store_role a r = modify λ s. record s { role = update s.role a (some r) }

  abbrev pub clear_role : Address → Action W ⊤
  clear_role a = modify λ s. record s { role = update s.role a none }

  abbrev pub get_role : Address → Action W (Option Role)
  get_role a = gets λ s. s.role a

  abbrev pub get_super_admin : Action W (Option Address)
  get_super_admin = gets λ s. s.super_admin

  abbrev pub set_super_admin : Address → Action W ⊤
  set_super_admin a = modify λ s. record s { super_admin = some a }

  unfoldable pub require_role : Address → Role → Action W ⊤
  require_role a required = do r ← get_role a; panic_if (not (holds r required)) not_authorized

  unfoldable pub require_any_of : Address → List Role → Action W ⊤
  require_any_of a allowed = do r ← get_role a; panic_if (not (holds_any r allowed)) not_authorized

  unfoldable pub require_admin_or_above : Address → Action W ⊤
  unfolding require_any_of
  require_admin_or_above a = require_any_of a (super_admin ∷ admin ∷ [])

  unfoldable pub require_oracle : Address → Action W ⊤
  unfolding require_role
  require_oracle a = require_role a oracle

  unfoldable pub require_can_register : Address → Action W ⊤
  unfolding require_any_of
  require_can_register a = require_any_of a (super_admin ∷ admin ∷ project_manager ∷ [])

  unfoldable pub require_can_cancel_project : Address → Action W ⊤
  unfolding require_any_of
  require_can_cancel_project a = require_any_of a (super_admin ∷ project_manager ∷ [])

  unfoldable pub init_super_admin : Address → Action W ⊤
  init_super_admin a = do
    current ← get_super_admin
    panic_if (is_some current) already_initialized
    set_super_admin a
    store_role a super_admin
    emit a super_admin none

  -- The guard that a grant needs, by the role granted.
  unfoldable pub require_can_grant : Address → Role → Action W ⊤
  unfolding require_role require_any_of
  require_can_grant caller super_admin = require_role caller super_admin
  require_can_grant caller _ = require_any_of caller (super_admin ∷ admin ∷ [])

  unfoldable pub grant_role : Address → Address → Role → Action W ⊤
  unfolding require_can_grant
  grant_role caller target role = do
    require_can_grant caller role
    held ← get_role target
    panic_if (holds held super_admin && not (role_eq role super_admin)) not_authorized
    store_role target role
    emit target role (some caller)

  unfoldable pub revoke_role : Address → Address → Action W ⊤
  unfolding require_any_of
  revoke_role caller target = do
    require_any_of caller (super_admin ∷ admin ∷ [])
    protected ← get_super_admin
    panic_if (is_address protected target) not_authorized
    held ← get_role target
    when (is_some held) do clear_role target; emit_revoke target (some caller)

  unfoldable pub transfer_super_admin : Address → Address → Action W ⊤
  unfolding require_role
  transfer_super_admin current new = do
    require_role current super_admin
    clear_role current
    emit_revoke current (some current)
    set_super_admin new
    store_role new super_admin
    emit new super_admin (some current)

  unfoldable pub role_of : Address → Action W (Option Role)
  role_of a = get_role a

  unfoldable pub has_role : Address → Role → Action W Bool
  has_role a r = do held ← get_role a; pure (holds held r)
