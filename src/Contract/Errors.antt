-- ===== src/Contract/Errors.antt =====
-- contracts/pifp_protocol/src/errors.rs: the contract's error values with their codes, and what
-- else ends an invocation.
use pifp_stellar.Base.{ℕ}

pub data Error : Type 0 where
  project_not_found : Error
  milestone_not_found : Error
  milestone_already_released : Error
  insufficient_balance : Error
  invalid_milestones : Error
  not_authorized : Error
  invalid_goal : Error
  already_initialized : Error
  role_not_found : Error
  too_many_tokens : Error
  invalid_amount : Error
  duplicate_token : Error
  invalid_deadline : Error
  project_expired : Error
  project_not_active : Error
  verification_failed : Error
  empty_accepted_tokens : Error
  overflow : Error
  protocol_paused : Error
  goal_mismatch : Error
  project_not_expired : Error
  invalid_transition : Error
  token_not_accepted : Error
  deadline_too_long : Error
  invalid_fee_basis_points : Error
  not_whitelisted : Error
  refund_window_active : Error
  refund_window_expired : Error
  protocol_not_initialized : Error
  release_amount_exceeds_balance : Error
  metadata_cid_invalid : Error
  fee_bps_exceeds_maximum : Error

-- The discriminants, as written.
unfoldable pub code : Error → ℕ
code project_not_found = 1
code milestone_not_found = 2
code milestone_already_released = 3
code insufficient_balance = 4
code invalid_milestones = 5
code not_authorized = 6
code invalid_goal = 7
code already_initialized = 8
code role_not_found = 9
code too_many_tokens = 10
code invalid_amount = 11
code duplicate_token = 12
code invalid_deadline = 13
code project_expired = 14
code project_not_active = 15
code verification_failed = 16
code empty_accepted_tokens = 17
code overflow = 18
code protocol_paused = 19
code goal_mismatch = 20
code project_not_expired = 21
code invalid_transition = 22
code token_not_accepted = 23
code deadline_too_long = 24
code invalid_fee_basis_points = 25
code not_whitelisted = 26
code refund_window_active = 24
code refund_window_expired = 25
code protocol_not_initialized = 24
code release_amount_exceeds_balance = 25
code metadata_cid_invalid = 26
code fee_bps_exceeds_maximum = 27

-- How an invocation can end without a result: an error of the contract, or a trap of the host (an
-- address that did not authorise the call, an arithmetic overflow, a failed token call, an
-- `expect` on a missing value).
pub data Failure : Type 0 where
  contract_error : Error → Failure
  unauthorized : Failure
  arithmetic_overflow : Failure
  token_failure : Failure
  missing_value : Failure
