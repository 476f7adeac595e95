-- ===== src/Contract/Emit.antt =====
-- The emission helpers of contracts/pifp_protocol/src/events.rs and rbac.rs. The contract declares
-- some of them several times, and one copy of `emit_protocol_unpaused` runs on into a fragment of
-- `emit_refunded`; the model takes the complete copies, which agree on the data published.
use pifp_stellar.Base.{ℕ, Option, none, some, ⊤}
use pifp_stellar.Base.Int.{ℤ}
use pifp_stellar.Contract.Types.{Address, Hash, Role, ProtocolConfig}
use pifp_stellar.Contract.Events.{Event}
use pifp_stellar.Contract.Env.{Action, publish}

abbrev fee_of : Option ProtocolConfig → ℕ
fee_of none = 0
fee_of (some c) = c.fee_bps

abbrev recipient_of : Option ProtocolConfig → Option Address
recipient_of none = none
recipient_of (some c) = some c.fee_recipient

module _ {W : Type 0} where
  abbrev pub emit_project_created : ℕ → Address → Address → ℤ → Action W ⊤
  emit_project_created id creator token goal = publish (Event.project_created id creator token goal)

  abbrev pub emit_project_funded : ℕ → Address → ℤ → Action W ⊤
  emit_project_funded id donator amount = publish (Event.project_funded id donator amount)

  abbrev pub emit_project_active : ℕ → Action W ⊤
  emit_project_active id = publish (Event.project_active id)

  abbrev pub emit_project_verified : ℕ → Address → Hash → Action W ⊤
  emit_project_verified id oracle hash = publish (Event.project_verified id oracle hash)

  abbrev pub emit_project_expired : ℕ → ℕ → Action W ⊤
  emit_project_expired id deadline = publish (Event.project_expired id deadline)

  abbrev pub emit_project_cancelled : ℕ → Address → Action W ⊤
  emit_project_cancelled id by = publish (Event.project_cancelled id by)

  abbrev pub emit_funds_released : ℕ → Address → ℤ → Action W ⊤
  emit_funds_released id token amount = publish (Event.funds_released id token amount)

  abbrev pub emit_refunded : ℕ → Address → ℤ → Action W ⊤
  emit_refunded id donator amount = publish (Event.refunded id donator amount)

  abbrev pub emit_protocol_paused : Address → Action W ⊤
  emit_protocol_paused admin = publish (Event.protocol_paused admin)

  abbrev pub emit_protocol_unpaused : Address → Action W ⊤
  emit_protocol_unpaused admin = publish (Event.protocol_unpaused admin)

  abbrev pub emit_expired_funds_reclaimed : ℕ → Address → Address → ℤ → Action W ⊤
  emit_expired_funds_reclaimed id creator token amount =
      publish (Event.expired_funds_reclaimed id creator token amount)

  abbrev pub emit_deadline_extended : ℕ → ℕ → ℕ → Action W ⊤
  emit_deadline_extended id old new = publish (Event.deadline_extended id old new)

  abbrev pub emit_protocol_config_updated : Option ProtocolConfig → ProtocolConfig → Action W ⊤
  emit_protocol_config_updated old new =
      publish (
        Event.protocol_config_updated (recipient_of old) (fee_of old) new.fee_recipient new.fee_bps)

  abbrev pub emit_fee_deducted : ℕ → Address → ℤ → Address → Action W ⊤
  emit_fee_deducted id token amount recipient =
      publish (Event.fee_deducted id token amount recipient)

  abbrev pub emit_whitelist_added : ℕ → Address → Action W ⊤
  emit_whitelist_added id address = publish (Event.whitelist_added id address)

  abbrev pub emit_whitelist_removed : ℕ → Address → Action W ⊤
  emit_whitelist_removed id address = publish (Event.whitelist_removed id address)

  -- `emit` and `emit_revoke` of rbac.rs.
  abbrev pub emit : Address → Role → Option Address → Action W ⊤
  emit target role by = publish (Event.role_set target role by)

  abbrev pub emit_revoke : Address → Option Address → Action W ⊤
  emit_revoke target by = publish (Event.role_del target by)
