-- ===== src/Oracle/Errors.antt =====
-- backend/oracle/src/errors.rs, without the unused I/O error, and the results of the calls.
use Prim.Native.String
use Prim.Native.String.{String}
use pifp_stellar.Base.Result.{Fallible}

pub data OracleError : Type 0 where
  config network proof_not_found verification transaction contract_error : String → OracleError

abbrev pub Result : Type 0 → Type 0
Result = Fallible OracleError

-- `to_string`.
abbrev pub error_text : OracleError → String
error_text (config m) = String.◌++◌ "Configuration error: " m
error_text (network m) = String.◌++◌ "Network error: " m
error_text (proof_not_found m) = String.◌++◌ "Proof not found: " m
error_text (verification m) = String.◌++◌ "Verification error: " m
error_text (transaction m) = String.◌++◌ "Transaction error: " m
error_text (contract_error m) = String.◌++◌ "Contract error: " m
