-- ===== src/Oracle/Process.antt =====
-- `process_single_proof` of backend/oracle/src/main.rs.
pub mod Submitted
pub mod Verified
use Prim.Native.String.{String}
use pifp_stellar.Base.{ℕ, Bool, true, false, Option, none, some, List, [], ◌∷◌, if◌then◌else◌}
use pifp_stellar.Indexer.Json.{Value}
use pifp_stellar.Base.Result.{ok, err}
use pifp_stellar.Oracle.Config.{Config}
use pifp_stellar.Oracle.Errors.{Result, error_text}
use pifp_stellar.Oracle.Batch.{ProofTask}
use pifp_stellar.Oracle.Proof.{Gateway, fetch_and_hash_proof}
use pifp_stellar.Oracle.Chain.{Rpc, Sent, silent, submit_verification}

-- A task's project with the transaction's hash, if one is sent, or with the error's text.
pub data Processed : Type 0 where
  done : ℕ → Option String → Processed
  failure : ℕ → String → Processed

-- The node's state afterwards, the requests sent to it, and the outcome.
pub record Processing (S : Type 0) : Type 0 where
  pub state : S
  pub sent : List Value
  pub outcome : Processed

abbrev pub outcome_of : ℕ → Result String → Processed
outcome_of id (ok hash) = done id (some hash)
outcome_of id (err e) = failure id (error_text e)

module _ {S : Type 0} (gateway : Gateway) (rpc : Rpc S) (settings : Config) where
  abbrev submitted : ℕ → Sent rpc String → Processing S
  submitted id r = record { state = r.state; sent = r.sent; outcome = outcome_of id r.result }

  abbrev unsent : S → Processed → Processing S
  unsent s outcome = record { state = s; sent = []; outcome = outcome }

  unfoldable pub process_single_proof : S → ProofTask → Bool → Processing S
  process_single_proof s task dry_run =
      elim (fetch_and_hash_proof gateway settings.ipfs_gateway task.proof_cid) [
        | err e ↦ unsent s (failure task.project_id (error_text e))
        | ok proof_hash ↦
            if dry_run
            then unsent s (done task.project_id none)
            else submitted task.project_id
                (submit_verification rpc settings s task.project_id proof_hash)
      ]
