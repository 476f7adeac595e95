-- ===== src/Oracle/Process/Submitted.antt =====
-- When `process_single_proof` of backend/oracle/src/main.rs reports a transaction.
use Prim.Native.String.{String}
use pifp_stellar.Base.{ℕ, ◌≡◌, arith, inl, inr, Bool, false, some, List, Bool-cases}
use pifp_stellar.Indexer.Json.{Value}
use pifp_stellar.Base.Result.{ok, err, Fallible-cases}
use pifp_stellar.Oracle.Config.{Config}
use pifp_stellar.Oracle.Errors.{Result}
use pifp_stellar.Oracle.Batch.{ProofTask}
use pifp_stellar.Oracle.Proof.{Gateway, fetch_and_hash_proof}
use pifp_stellar.Oracle.Proof.Fetched.{Fetched, fetch_and_hash_proof-ok}
use pifp_stellar.Oracle.Chain.{Rpc}
use pifp_stellar.Oracle.Chain.Accepted.{Accepted, submit_verification-Accepted}
use pifp_stellar.Oracle.Process.{done, outcome_of, process_single_proof}

outcome_of-done :
    (id : ℕ) (r : Result String) (hash : String)
    → outcome_of id r ≡ done id (some hash)
    → r ≡ ok hash
outcome_of-done id (ok x) hash h = ground (arith, h)
outcome_of-done id (err e) hash h = absurd (ground (arith, h))

module _ {S : Type 0} (gateway : Gateway) (rpc : Rpc S) (settings : Config) where
  -- A reported transaction: not a dry run; the artifact was fetched and its hash submitted.
  pub record Submitted (s : S) (task : ProofTask) (dry_run : Bool) (requests : List Value)
      (hash : String) : Type 0 where
    pub proof_hash : List ℕ
    pub not_dry : dry_run ≡ false
    pub fetched : Fetched gateway settings.ipfs_gateway task.proof_cid proof_hash
    pub accepted : Accepted rpc settings s task.project_id proof_hash requests hash

  pub process_single_proof-Submitted :
      (s : S) (task : ProofTask) (dry_run : Bool) (hash : String)
      → (process_single_proof gateway rpc settings s task dry_run).outcome
        ≡ done task.project_id (some hash)
      → Submitted s task dry_run
          ((process_single_proof gateway rpc settings s task dry_run).sent)
          hash
  unfolding process_single_proof
  process_single_proof-Submitted s task dry_run hash h =
      elim (Fallible-cases (fetch_and_hash_proof gateway settings.ipfs_gateway task.proof_cid)) [
        | inl (e, is) ↦ absurd (ground (arith, is, h))
        | inr (proof_hash, is) ↦ elim (Bool-cases dry_run) [
          | inl d ↦ absurd (ground (arith, is, d, h))
          | inr d ↦ record {
            proof_hash = proof_hash;
            not_dry = d;
            fetched =
                fetch_and_hash_proof-ok gateway settings.ipfs_gateway task.proof_cid proof_hash is;
            accepted =
                rw (process_single_proof, is, d)
                  (submit_verification-Accepted rpc settings s task.project_id proof_hash hash (
                    outcome_of-done task.project_id _ hash
                      (rw (process_single_proof, is, d) at h)));
          }
        ]
      ]
