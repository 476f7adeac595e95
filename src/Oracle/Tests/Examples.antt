-- ===== src/Oracle/Tests/Examples.antt =====
-- Examples of the oracle's runs.
use pifp_stellar.Base.{ℕ, ◌+◌, ◌≡◌, refl, arith, false, some, none, [], ◌∷◌, if◌then◌else◌, ltb}
use pifp_stellar.Base.Int.{◌+ℤ◌, ◌-ℤ◌, ◌*ℤ◌, checked_add, checked_sub, checked_mul, checked_div}
use pifp_stellar.Base.Decimal.{decimal, decimal_from}
use pifp_stellar.Base.Parts.{join_parts}
use pifp_stellar.Base.Text.{is_whitespace, starts_with}
use pifp_stellar.Indexer.Json
use pifp_stellar.Indexer.Json.{object, end, get, as_str, as_u64, first_item, second_item}
use pifp_stellar.Contract.Errors.{not_authorized, code}
use pifp_stellar.Contract.Lifecycle.{perform, step}
use pifp_stellar.Contract.History.{run}
use pifp_stellar.Contract.Admin
use pifp_stellar.Contract.Projects
use pifp_stellar.Contract.Funding
use pifp_stellar.Contract.Release
use pifp_stellar.Contract.Tests.{host, at, active_env}
use pifp_stellar.Base.Result.{ok}
use pifp_stellar.Oracle.Batch.{ProofTask, build_task_list}
use pifp_stellar.Oracle.Batch.Read.{entries, build_task_list-join_parts}
use pifp_stellar.Oracle.Proof.{got, fetch_and_hash_proof}
use pifp_stellar.Oracle.Chain.{
  json_u64, parse_contract_error, build_transaction_params, simulate_transaction,
  submit_transaction, submit_verification,
}
use pifp_stellar.Oracle.Chain.Messages.{parse_contract_error-meaning}
use pifp_stellar.Oracle.Process.{done, process_single_proof}
use pifp_stellar.Oracle.Process.Submitted.{Submitted, process_single_proof-Submitted}
use pifp_stellar.Oracle.Process.Verified.{Verified, process_single_proof-Verified}
use pifp_stellar.Oracle.Pin.{IpfsConfig, Services, pin_file}
use pifp_stellar.Oracle.Pin.Explained.{Explained, pin_file-Explained}
use pifp_stellar.Oracle.Tests.{
  hash_of, address_of, arg, node, gateway, settings, task_0, node-SimulatesContract,
}

abbrev task_12 : ProofTask
task_12 = record { project_id = 12; proof_cid = "Qm:2" }

build_task_list-join_parts_example :
    build_task_list (record {
      project_id = none;
      proof_cid = none;
      batch = some (join_parts "," (entries (task_0 ∷ task_12 ∷ [])));
    })
    ≡ ok (task_0 ∷ task_12 ∷ [])
unfolding is_whitespace
build_task_list-join_parts_example = build_task_list-join_parts task_0 (task_12 ∷ []) none none (
  record { id_fits = omega arith; cid_some = refl; cid_solid = refl; no_comma = refl },
  (record { id_fits = omega arith; cid_some = refl; cid_solid = refl; no_comma = refl }, tt),
)

parse_contract_error-meaning_example :
    parse_contract_error node (object (Json.member "code" (json_u64 6) end))
    ≡ "Not authorized (oracle role required) (code: 6)"
unfolding get decimal decimal_from code
parse_contract_error-meaning_example =
    parse_contract_error-meaning node not_authorized (object (Json.member "code" (json_u64 6) end))
      refl

reported :
    (process_single_proof gateway node settings tt task_0 false).outcome
    ≡ done task_0.project_id (some "t1")
unfolding process_single_proof fetch_and_hash_proof submit_verification simulate_transaction
    submit_transaction build_transaction_params arg get as_str as_u64 first_item second_item
    active_env perform step run Admin.init Admin.grant_role Admin.update_protocol_config
    Projects.register_project Funding.deposit checked_add ◌+ℤ◌ Release.verify_and_release
    Release.complete_release Release.release_tokens Release.fee_amount Release.less_fee checked_mul
    checked_div checked_sub ◌*ℤ◌ ◌-ℤ◌ starts_with
reported = refl

process_single_proof-Submitted_example :
    Submitted gateway node settings tt task_0 false
      ((process_single_proof gateway node settings tt task_0 false).sent)
      "t1"
process_single_proof-Submitted_example =
    process_single_proof-Submitted gateway node settings tt task_0 false "t1" reported

process_single_proof-Verified_example :
    Verified gateway node settings host
      (λ s. at 1500)
      (λ s. active_env)
      address_of
      hash_of
      tt
      task_0
process_single_proof-Verified_example =
    process_single_proof-Verified gateway node settings host (λ s. at 1500) (λ s. active_env)
      address_of hash_of node-SimulatesContract tt task_0 false "t1" reported

-- Two answers say that the service is overloaded.
abbrev services : Services ℕ
services = record {
  build_client = λ s. (s, got tt);
  post = λ s u.
      (s + 1, got (record { status = if ltb s 2 then 503 else 200; text = ""; cid = got "Qm1" }));
  build_part = got tt;
  status_text = λ status. "";
}

abbrev credentials : IpfsConfig
credentials = record {
  pinata_api_key = some "k";
  pinata_api_secret = some "s";
  web3_storage_token = none;
}

pin_file-Explained_example :
    Explained services credentials (1 ∷ []) (pin_file services (1 ∷ []) credentials 0)
pin_file-Explained_example = pin_file-Explained services (1 ∷ []) credentials 0
