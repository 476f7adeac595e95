-- ===== src/Oracle/Process/Verified.antt =====
-- `process_single_proof` of backend/oracle/src/main.rs against a node that runs the contract. How
-- addresses and hashes are written is a parameter.
use Prim.Native.String.{String}
use pifp_stellar.Base.{ℕ, ◌≡◌, Bool, ⊤, some, List}
use pifp_stellar.Indexer.Json.{Value}
use pifp_stellar.Contract.Types.{Address, Hash, ProjectConfig, ProjectState}
use pifp_stellar.Contract.Env.{Env, Ctx, Host, Outcome, ok}
use pifp_stellar.Contract.Release.{verify_and_release}
use pifp_stellar.Contract.Release.Released.{VerifyChecked}
use pifp_stellar.Contract.Release.Loop.{Released, verify_and_release-Released}
use pifp_stellar.Oracle.Batch.{ProofTask}
use pifp_stellar.Oracle.Proof.{Gateway, got}
use pifp_stellar.Oracle.Proof.Fetched.{Fetched}
use pifp_stellar.Oracle.Config.{Config}
use pifp_stellar.Oracle.Chain.{Rpc, keypair_to_address, envelope}
use pifp_stellar.Oracle.Chain.Accepted.{call_params, IsClean}
use pifp_stellar.Oracle.Process.{done, process_single_proof}
use pifp_stellar.Oracle.Process.Submitted.{process_single_proof-Submitted}

module _ {S W : Type 0} (gateway : Gateway) (rpc : Rpc S) (settings : Config) (host : Host W)
    (ctx : S → Ctx) (contract : S → Env W) (address_of : String → Address)
    (hash_of : List ℕ → Hash) where
  -- The contract's call that the oracle asks for.
  abbrev pub requested : S → ℕ → List ℕ → Outcome W ⊤
  requested s id proof_hash =
      verify_and_release host (ctx s) (address_of (keypair_to_address settings.oracle_secret_key))
        id (hash_of proof_hash) (contract s)

  -- The node reports no error for a simulation only if the call returns.
  abbrev pub SimulatesContract : Type 0
  SimulatesContract =
      (s : S) (id : ℕ) (proof_hash : List ℕ) (simulation : Value)
      → (rpc.post s settings.rpc_url
          (envelope "simulateTransaction" (call_params rpc settings id proof_hash))).1
        ≡ got (got simulation)
      → IsClean simulation
      → (e : Env W) × (requested s id proof_hash ≡ ok tt e)

  -- The fetched artifact's hash is the project's, the contract's conditions hold, and the call pays out
  -- as a release does.
  pub record Verified (s : S) (task : ProofTask) : Type 0 where
    pub proof_hash : List ℕ
    pub fetched : Fetched gateway settings.ipfs_gateway task.proof_cid proof_hash
    pub end : Env W
    pub config : ProjectConfig
    pub state : ProjectState
    pub checked :
        VerifyChecked
          (ctx s)
          (address_of (keypair_to_address settings.oracle_secret_key))
          task.project_id
          (hash_of proof_hash)
          ((contract s).store)
          config
          state
    pub released :
        Released host
          (ctx s)
          (address_of (keypair_to_address settings.oracle_secret_key))
          task.project_id
          (hash_of proof_hash)
          config
          state
          (contract s)
          end

  -- If the node reports no error for a simulation only when the contract's call returns, then a
  -- transaction that is reported for a task has behind it an artifact that was fetched from IPFS, with
  -- success and at least one byte, whose SHA-256 is the project's proof hash; when the transaction was
  -- simulated the caller was an oracle, the contract was not paused and the project was open and before
  -- its deadline, and the simulated call paid out the project's balances as a release does.
  pub process_single_proof-Verified :
      SimulatesContract
      → (s : S) (task : ProofTask) (dry_run : Bool) (hash : String)
      → (process_single_proof gateway rpc settings s task dry_run).outcome
        ≡ done task.project_id (some hash)
      → Verified s task
  process_single_proof-Verified simulates s task dry_run hash h =
      let submitted = process_single_proof-Submitted gateway rpc settings s task dry_run hash h in
      let accepted = submitted.accepted in
      let (e, call_is) =
        simulates s task.project_id submitted.proof_hash accepted.simulation accepted.simulated
          accepted.clean in
      let (config, state, checked, released) =
        verify_and_release-Released host (ctx s) _ task.project_id (hash_of submitted.proof_hash)
          (contract s) e call_is in
      record {
        proof_hash = submitted.proof_hash;
        fetched = submitted.fetched;
        end = e;
        config = config;
        state = state;
        checked = checked;
        released = released;
      }
