-- ===== src/Contract/Events.antt =====
-- The event structs of contracts/pifp_protocol/src/events.rs and rbac.rs, one constructor each.
use pifp_stellar.Base.{ℕ, Option}
use pifp_stellar.Base.Int.{ℤ}
use pifp_stellar.Contract.Types.{Address, Hash, Role}

pub data Event : Type 0 where
  project_created : (project_id : ℕ) (creator token : Address) (goal : ℤ) → Event
  project_funded : (project_id : ℕ) (donator : Address) (amount : ℤ) → Event
  project_active : (project_id : ℕ) → Event
  project_verified : (project_id : ℕ) (oracle : Address) (proof_hash : Hash) → Event
  project_expired : (project_id deadline : ℕ) → Event
  deadline_extended : (project_id old_deadline new_deadline : ℕ) → Event
  protocol_config_updated :
      (old_fee_recipient : Option Address) (old_fee_bps : ℕ) (new_fee_recipient : Address)
      (new_fee_bps : ℕ)
      → Event
  fee_deducted : (project_id : ℕ) (token : Address) (amount : ℤ) (recipient : Address) → Event
  whitelist_added : (project_id : ℕ) (address : Address) → Event
  whitelist_removed : (project_id : ℕ) (address : Address) → Event
  project_cancelled : (project_id : ℕ) (cancelled_by : Address) → Event
  funds_released : (project_id : ℕ) (token : Address) (amount : ℤ) → Event
  refunded : (project_id : ℕ) (donator : Address) (amount : ℤ) → Event
  expired_funds_reclaimed : (project_id : ℕ) (creator token : Address) (amount : ℤ) → Event
  protocol_paused : (admin : Address) → Event
  protocol_unpaused : (admin : Address) → Event
  role_set : (target : Address) (role : Role) (by : Option Address) → Event
  role_del : (target : Address) (by : Option Address) → Event
