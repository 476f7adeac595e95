-- ===== src/Oracle/Chain/Messages.antt =====
-- What `parse_contract_error` of backend/oracle/src/chain.rs says of the contract's errors, those of
-- contracts/pifp_protocol/src/errors.rs.
use Prim.Native.String
use Prim.Native.String.{String}
use pifp_stellar.Base.{◌≡◌, refl, some}
use pifp_stellar.Base.Decimal.{decimal, decimal_from}
use pifp_stellar.Indexer.Json.{Value, get, as_u64}
use pifp_stellar.Contract.Errors.{
  Error, project_not_found, milestone_not_found, milestone_already_released, insufficient_balance,
  invalid_milestones, not_authorized, invalid_goal, already_initialized, role_not_found,
  too_many_tokens, invalid_amount, duplicate_token, invalid_deadline, project_expired,
  project_not_active, verification_failed, empty_accepted_tokens, overflow, protocol_paused,
  goal_mismatch, project_not_expired, invalid_transition, token_not_accepted, deadline_too_long,
  invalid_fee_basis_points, not_whitelisted, refund_window_active, refund_window_expired,
  protocol_not_initialized, release_amount_exceeds_balance, metadata_cid_invalid,
  fee_bps_exceeds_maximum, code,
}
use pifp_stellar.Oracle.Chain.{Rpc, json_u64, known_message, code_text, parse_contract_error}

-- The errors that the oracle has words for.
abbrev pub meaning : Error → String
meaning project_not_found = "Project not found"
meaning milestone_already_released = "Project already completed (milestone already released)"
meaning not_authorized = "Not authorized (oracle role required)"
meaning project_expired = "Project expired"
meaning verification_failed = "Verification failed (proof hash mismatch)"
meaning _ = "Unknown contract error"

known_message-meaning : (e : Error) → known_message (code_text (json_u64 (code e))) ≡ meaning e
unfolding as_u64 decimal code decimal_from
known_message-meaning project_not_found = refl
known_message-meaning milestone_not_found = refl
known_message-meaning milestone_already_released = refl
known_message-meaning insufficient_balance = refl
known_message-meaning invalid_milestones = refl
known_message-meaning not_authorized = refl
known_message-meaning invalid_goal = refl
known_message-meaning already_initialized = refl
known_message-meaning role_not_found = refl
known_message-meaning too_many_tokens = refl
known_message-meaning invalid_amount = refl
known_message-meaning duplicate_token = refl
known_message-meaning invalid_deadline = refl
known_message-meaning project_expired = refl
known_message-meaning project_not_active = refl
known_message-meaning verification_failed = refl
known_message-meaning empty_accepted_tokens = refl
known_message-meaning overflow = refl
known_message-meaning protocol_paused = refl
known_message-meaning goal_mismatch = refl
known_message-meaning project_not_expired = refl
known_message-meaning invalid_transition = refl
known_message-meaning token_not_accepted = refl
known_message-meaning deadline_too_long = refl
known_message-meaning invalid_fee_basis_points = refl
known_message-meaning not_whitelisted = refl
known_message-meaning refund_window_active = refl
known_message-meaning refund_window_expired = refl
known_message-meaning protocol_not_initialized = refl
known_message-meaning release_amount_exceeds_balance = refl
known_message-meaning metadata_cid_invalid = refl
known_message-meaning fee_bps_exceeds_maximum = refl

code_text-decimal : (e : Error) → code_text (json_u64 (code e)) ≡ decimal (code e)
unfolding as_u64 decimal
code_text-decimal e = refl

module _ {S : Type 0} (rpc : Rpc S) where
  -- An error whose code is that of one of the contract's errors is told in that error's own words where
  -- the oracle has some, and as unknown otherwise, with the code in decimal.
  pub parse_contract_error-meaning :
      (e : Error) (error : Value)
      → get error "code" ≡ some (json_u64 (code e))
      → parse_contract_error rpc error
        ≡ String.◌++◌ (meaning e) (String.◌++◌ " (code: " (String.◌++◌ (decimal (code e)) ")"))
  unfolding parse_contract_error decimal
  parse_contract_error-meaning e error h =
      rw (parse_contract_error, h, known_message-meaning e) refl
