-- ===== src/Oracle/Proof.antt =====
-- `fetch_and_hash_proof` of backend/oracle/src/verifier.rs. What the IPFS gateway answers, SHA-256
-- and the texts of HTTP statuses are parameters.
pub mod Fetched
use Prim.Native.String
use Prim.Native.String.{String}
use pifp_stellar.Base.{
  ⊤, ℕ, ◌*◌, Bool, Option, none, some, List, [], ◌∷◌, if◌then◌else◌, leb, ltb, not, ◌&&◌,
}
use pifp_stellar.Base.Decimal.{decimal}
use pifp_stellar.Base.Result.{ok, err, ◌>>=◌, ◌>>◌}
use pifp_stellar.Oracle.Errors.{OracleError, network, proof_not_found, verification, Result}

-- A call of the HTTP library: its error's text, or a value.
pub data Http (A : Type 0) : Type 0 where
  failed : String → Http A
  got : A → Http A

pub record Response : Type 0 where
  pub status : ℕ
  pub content_length : Option ℕ
  pub bytes : Http (List ℕ)

-- A failure to make a client, the answer to a GET, SHA-256, and the text of a status.
pub record Gateway : Type 0 where
  pub build_client : Http ⊤
  pub get : String → Http Response
  pub sha256 : List ℕ → List ℕ
  pub status_text : ℕ → String

abbrev pub network_error : {A : Type 0} → String → Http A → Result A
network_error what (failed e) = err (network (String.◌++◌ what e))
network_error what (got a) = ok a

abbrev pub is_success : ℕ → Bool
is_success status = leb 200 status && ltb status 300

abbrev pub max_size : ℕ
max_size = 100 * 1024 * 1024

module _ (gateway : Gateway) where
  abbrev pub check_status : String → Response → Result ⊤
  check_status cid response =
      if is_success response.status
      then ok tt
      else err (
          proof_not_found (
            String.◌++◌ "IPFS returned status " (
              String.◌++◌ (gateway.status_text response.status)
                (String.◌++◌ ": CID " (String.◌++◌ cid " not found or inaccessible")))))

  abbrev pub check_length : Option ℕ → Result ⊤
  check_length none = ok tt
  check_length (some len) =
      if ltb max_size len
      then err (
          verification (
            String.◌++◌ "Proof artifact too large: " (
              String.◌++◌ (decimal len)
                (String.◌++◌ " bytes (max: " (String.◌++◌ (decimal max_size) " bytes)")))))
      else ok tt

  abbrev pub hash_body : List ℕ → Result (List ℕ)
  hash_body [] = err (verification "Proof artifact is empty")
  hash_body (b ∷ bs) = ok (gateway.sha256 (b ∷ bs))

  unfoldable pub fetch_and_hash_proof : String → String → Result (List ℕ)
  fetch_and_hash_proof ipfs_gateway cid = do
    network_error "Failed to create HTTP client: " gateway.build_client
    response ←
        network_error "IPFS fetch failed: "
          (gateway.get (String.◌++◌ ipfs_gateway (String.◌++◌ "/ipfs/" cid)))
    check_status cid response
    check_length response.content_length
    bytes ← network_error "Failed to read response body: " response.bytes
    hash_body bytes
