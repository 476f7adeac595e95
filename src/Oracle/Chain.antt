-- ===== src/Oracle/Chain.antt =====
-- backend/oracle/src/chain.rs, against an RPC node with a state of any type. `serde_json`'s values are
-- those of Indexer/Json; hex and the text of a value are parameters.
pub mod Accepted
pub mod Messages
use Prim.Native.String
use Prim.Native.String.{String}
use text.Mathlib.Text.{◌==◌}
use pifp_stellar.Base.{
  ⊤, ℕ, ◌^◌, Bool, Option, none, some, List, [], ◌∷◌, ◌++◌, get_or, if◌then◌else◌, ltb, not,
}
use pifp_stellar.Base.Int.{pos}
use pifp_stellar.Base.Text.{starts_with}
use pifp_stellar.Base.Decimal.{decimal}
use pifp_stellar.Indexer.Json
use pifp_stellar.Indexer.Json.{
  Value, Items, Members, null, number, string, array, object, nil, cons, end, get, as_str, as_u64,
  and_then, or_else,
}
use pifp_stellar.Base.Result.{ok, err, ◌>>=◌, ◌>>◌}
use pifp_stellar.Oracle.Config.{Config}
use pifp_stellar.Oracle.Errors.{OracleError, config, network, transaction, contract_error, Result}
use pifp_stellar.Oracle.Proof.{Http, failed, got, network_error}

-- A failure to make a client, the node's state after a POST with its answer, whose body can fail to
-- parse, and the texts of bytes and values.
pub record Rpc (S : Type 0) : Type 0 where
  pub build_client : Http ⊤
  pub post : S → String → Value → S × Http (Http Value)
  pub encode_hex : List ℕ → String
  pub value_text : Value → String

abbrev pub json_u64 : ℕ → Value
json_u64 n =
    number (record {
      text = decimal n;
      u64 = some n;
      i64 = if ltb n (2 ^ 63) then some (pos n) else none;
    })

abbrev field : String → Value → Value
field key value = object (Json.member key value end)

abbrev pub decode_secret_key : String → Result String
decode_secret_key secret_key =
    if not (starts_with secret_key "S")
    then err (config "Invalid secret key format (must start with 'S')")
    else ok secret_key

abbrev pub after_first : String → String
after_first String.[] = String.[]
after_first (String.◌∷◌ c s) = s

-- `&keypair[1..]`, of a key that starts with `S`.
abbrev pub keypair_to_address : String → String
keypair_to_address keypair = String.◌++◌ "G" (after_first keypair)

-- A request's JSON-RPC envelope.
abbrev pub envelope : String → Value → Value
envelope method params = object (
    Json.member "jsonrpc" (string "2.0") (
      Json.member "id" (json_u64 1)
        (Json.member "method" (string method) (Json.member "params" params end))))

-- The message for an error code.
abbrev pub known_message : String → String
known_message code =
    if code == "1"
    then "Project not found"
    else if code == "3"
    then "Project already completed (milestone already released)"
    else if code == "6"
    then "Not authorized (oracle role required)"
    else if code == "14"
    then "Project expired"
    else if code == "16"
    then "Verification failed (proof hash mismatch)"
    else "Unknown contract error"

abbrev pub code_text : Value → String
code_text code =
    get_or "unknown" (or_else (and_then (as_u64 code) λ n. some (decimal n)) (as_str code))

abbrev pub json_of : String → String → Http (Http Value) → Result Value
json_of request_what body_what reply = do
  response ← network_error request_what reply
  network_error body_what response

abbrev pub hash_of : Option String → Result String
hash_of none = err (transaction "No transaction hash in response")
hash_of (some hash) = ok hash

module _ {S : Type 0} (rpc : Rpc S) where
  unfoldable pub build_transaction_params : String → String → ℕ → List ℕ → Value
  build_transaction_params contract_id oracle_address project_id proof_hash = object (
      Json.member "contractId" (string contract_id) (
        Json.member "function" (string "verify_and_release") (
          Json.member "args"
            (array (
              cons (field "address" (string oracle_address)) (
                cons (field "u64" (json_u64 project_id))
                  (cons (field "bytes" (string (rpc.encode_hex proof_hash))) nil))))
            end)))

  unfoldable pub parse_contract_error : Value → String
  unfolding get as_u64 as_str
  parse_contract_error error = elim (get error "code") [
    | none ↦ rpc.value_text error
    | some code ↦
        String.◌++◌ (known_message (code_text code))
          (String.◌++◌ " (code: " (String.◌++◌ (code_text code) ")"))
  ]

  -- The node's state afterwards, the requests sent to it, and the result.
  pub record Sent (A : Type 0) : Type 0 where
    pub state : S
    pub sent : List Value
    pub result : Result A

  abbrev pub silent : {A : Type 0} → S → Result A → Sent A
  silent s result = record { state = s; sent = []; result = result }

  abbrev pub followed : {A B : Type 0} → Sent A → (S → A → Sent B) → Sent B
  followed first f = elim first.result [
    | err e ↦ record { state = first.state; sent = first.sent; result = err e }
    | ok a ↦
        let second = f first.state a in
        record { state = second.state; sent = first.sent ++ second.sent; result = second.result }
  ]

  abbrev pub post_with :
      {A : Type 0} → String → String → (Value → Result A) → String → S → Value → Sent A
  post_with request_what body_what check url s body = elim rpc.build_client [
    | failed e ↦ silent s (err (network (String.◌++◌ "Failed to create HTTP client: " e)))
    | got _ ↦
        let (s', reply) = rpc.post s url body in
        record {
          state = s';
          sent = body ∷ [];
          result = json_of request_what body_what reply >>= check;
        }
  ]

  abbrev pub check_result : Option Value → Result ⊤
  check_result none = ok tt
  check_result (some result) = elim (get result "error") [
    | none ↦ ok tt
    | some error ↦ err (contract_error (parse_contract_error error))
  ]

  abbrev pub check_simulation : Value → Result ⊤
  check_simulation json = elim (get json "error") [
    | none ↦ check_result (get json "result")
    | some error ↦ err (transaction (String.◌++◌ "Simulation failed: " (rpc.value_text error)))
  ]

  unfoldable pub simulate_transaction : Config → S → Value → Sent ⊤
  simulate_transaction settings s params =
      post_with "Simulation request failed: " "Failed to parse simulation response: "
        check_simulation settings.rpc_url s (envelope "simulateTransaction" params)

  abbrev pub check_submission : Value → Result String
  check_submission json = elim (get json "error") [
    | none ↦ hash_of (and_then (and_then (get json "result") λ r. get r "hash") as_str)
    | some error ↦
        err (transaction (String.◌++◌ "Transaction submission failed: " (rpc.value_text error)))
  ]

  unfoldable pub submit_transaction : Config → S → Value → Sent String
  submit_transaction settings s params =
      post_with "Transaction submission failed: " "Failed to parse submission response: "
        check_submission settings.rpc_url s (envelope "sendTransaction" params)

  abbrev pub params_for : Config → String → ℕ → List ℕ → Value
  params_for settings keypair project_id proof_hash =
      build_transaction_params settings.contract_id (keypair_to_address keypair) project_id
        proof_hash

  unfoldable pub submit_verification : Config → S → ℕ → List ℕ → Sent String
  submit_verification settings s project_id proof_hash =
      elim (decode_secret_key settings.oracle_secret_key) [
        | err e ↦ silent s (err e)
        | ok keypair ↦
            let params = params_for settings keypair project_id proof_hash in
            followed (simulate_transaction settings s params)
              λ s' _. submit_transaction settings s' params
      ]
