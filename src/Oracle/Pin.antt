-- ===== src/Oracle/Pin.antt =====
-- backend/oracle/src/ipfs.rs. The client that is built, and the answers to its requests, in the state
-- of the outside world, are parameters.
pub mod Attempts
pub mod Tries
pub mod Explained
use Prim.Native.String
use Prim.Native.String.{String}
use pifp_stellar.Base.{
  ⊤, ℕ, ◌+◌, ◌-◌, ◌*◌, ◌^◌, zero, suc, Bool, true, false, Option, none, some, List, [], ◌∷◌, ◌++◌,
  ◌&&◌, if◌then◌else◌, ltb, leb,
}
use pifp_stellar.Base.Result.{ok, err, ◌>>=◌}
use pifp_stellar.Oracle.Errors.{OracleError, config, network, Result}
use pifp_stellar.Oracle.Proof.{Http, failed, got, network_error, is_success}

pub record IpfsConfig : Type 0 where
  pub pinata_api_key : Option String
  pub pinata_api_secret : Option String
  pub web3_storage_token : Option String

-- A POST as the pinning services get it: the key and the secret with the file, or the token with it.
pub data Upload : Type 0 where
  pinata : String → String → List ℕ → Upload
  web3_storage : String → List ℕ → Upload

-- The answer to an upload: its status, its text (empty if it cannot be read), and the CID in it.
pub record Pinned : Type 0 where
  pub status : ℕ
  pub text : String
  pub cid : Http String

-- What happens outside, in a state of any type, whether the file's part can be built, and the text of a
-- status.
pub record Services (S : Type 0) : Type 0 where
  pub build_client : S → S × Http ⊤
  pub post : S → Upload → S × Http Pinned
  pub build_part : Http ⊤
  pub status_text : ℕ → String

abbrev pub max_retries : ℕ
max_retries = 3

abbrev pub base_backoff_ms : ℕ
base_backoff_ms = 500

-- The sleep before an attempt that is not the first.
abbrev pub backoff : ℕ → ℕ
backoff attempt = base_backoff_ms * 2 ^ (attempt - 1)

abbrev pub sleeps_before : ℕ → List ℕ
sleeps_before attempt = if ltb 0 attempt then backoff attempt ∷ [] else []

abbrev pub no_credentials : OracleError
no_credentials =
    config
      "No IPFS pinning credentials configured. Set PINATA_API_KEY/PINATA_API_SECRET or WEB3_STORAGE_TOKEN"

abbrev is_some : Option String → Bool
is_some none = false
is_some (some s) = true

module _ {S : Type 0} (services : Services S) where
  -- The state afterwards, what was uploaded with the answers, the clients that were built or failed to be,
  -- the sleeps in milliseconds, and the result.
  pub record Pinning : Type 0 where
    pub state : S
    pub uploads : List Upload
    pub answers : List (Http Pinned)
    pub clients : List (Http ⊤)
    pub sleeps : List ℕ
    pub result : Result String

  abbrev pub quiet : S → Result String → Pinning
  quiet s result = record {
    state = s;
    uploads = [];
    answers = [];
    clients = [];
    sleeps = [];
    result = result;
  }

  abbrev pub read_status : String → Pinned → Result String
  read_status service a =
      if is_success a.status
      then network_error (String.◌++◌ "Failed to parse " (String.◌++◌ service " response: ")) a.cid
      else err (
          network (
            String.◌++◌ service (
              String.◌++◌ " returned "
                (String.◌++◌ (services.status_text a.status) (String.◌++◌ ": " a.text)))))

  abbrev pub read_answer : String → Http Pinned → Result String
  read_answer service reply =
      network_error (String.◌++◌ service " request failed: ") reply >>= read_status service

  abbrev pub upload : String → Upload → S → Pinning
  upload service u s =
      let (s', reply) = services.post s u in
      record {
        state = s';
        uploads = u ∷ [];
        answers = reply ∷ [];
        clients = [];
        sleeps = [];
        result = read_answer service reply;
      }

  abbrev pub send_part : String → String → List ℕ → Http ⊤ → S → Pinning
  send_part key secret file (failed e) s =
      quiet s (err (network (String.◌++◌ "Failed to build multipart part: " e)))
  send_part key secret file (got _) s = upload "Pinata" (pinata key secret file) s

  abbrev pub with_credentials : Option String → Option String → List ℕ → S → Pinning
  with_credentials none secret file s = quiet s (err (config "PINATA_API_KEY not set"))
  with_credentials (some key) none file s = quiet s (err (config "PINATA_API_SECRET not set"))
  with_credentials (some key) (some secret) file s = send_part key secret file services.build_part s

  unfoldable pub pin_via_pinata : List ℕ → IpfsConfig → S → Pinning
  pin_via_pinata file settings s =
      with_credentials settings.pinata_api_key settings.pinata_api_secret file s

  abbrev pub with_token : Option String → List ℕ → S → Pinning
  with_token none file s = quiet s (err (config "WEB3_STORAGE_TOKEN not set"))
  with_token (some token) file s = upload "Web3.Storage" (web3_storage token file) s

  unfoldable pub pin_via_web3_storage : List ℕ → IpfsConfig → S → Pinning
  pin_via_web3_storage file settings s = with_token settings.web3_storage_token file s

  -- One run and then another, with the state and the result of the latter.
  abbrev pub then_run : Pinning → Pinning → Pinning
  then_run first rest = record {
    state = rest.state;
    uploads = first.uploads ++ rest.uploads;
    answers = first.answers ++ rest.answers;
    clients = first.clients ++ rest.clients;
    sleeps = first.sleeps ++ rest.sleeps;
    result = rest.result;
  }

  -- The sleep and the client of an attempt, and what comes then.
  abbrev pub begun : ℕ → Http ⊤ → Pinning → Pinning
  begun attempt client rest = record rest {
    clients = client ∷ rest.clients;
    sleeps = sleeps_before attempt ++ rest.sleeps;
  }

  -- The rounds of the loop that are left, from an attempt on.
  unfoldable pub attempts : (S → Pinning) → ℕ → ℕ → OracleError → S → Pinning
  attempts pin_fn zero attempt last_err s = quiet s (err last_err)
  attempts pin_fn (suc left) attempt last_err s =
      let (s', client) = services.build_client s in
      elim client [
        | failed e ↦
            begun attempt (failed e)
              (quiet s' (err (network (String.◌++◌ "Failed to build HTTP client: " e))))
        | got u ↦
            let p = pin_fn s' in
            elim p.result [
              | ok cid ↦ begun attempt (got u) p
              | err e ↦
                  begun attempt (got u) (then_run p (attempts pin_fn left (attempt + 1) e p.state))
            ]
      ]

  unfoldable pub pin_with_retry :
      List ℕ → IpfsConfig → (List ℕ → IpfsConfig → S → Pinning) → S → Pinning
  pin_with_retry file settings pin_fn s =
      attempts (pin_fn file settings) max_retries 0 (network "No attempts made") s

  -- `pin_file` from Web3.Storage on.
  abbrev pub fall_back : List ℕ → IpfsConfig → S → Pinning
  fall_back file settings s =
      if is_some settings.web3_storage_token
      then pin_with_retry file settings pin_via_web3_storage s
      else quiet s (err no_credentials)

  abbrev pub or_fall_back : List ℕ → IpfsConfig → Pinning → Pinning
  or_fall_back file settings first = elim first.result [
    | ok cid ↦ first
    | err e ↦ then_run first (fall_back file settings first.state)
  ]

  unfoldable pub pin_file : List ℕ → IpfsConfig → S → Pinning
  pin_file file settings s =
      if is_some settings.pinata_api_key && is_some settings.pinata_api_secret
      then or_fall_back file settings (pin_with_retry file settings pin_via_pinata s)
      else fall_back file settings s
