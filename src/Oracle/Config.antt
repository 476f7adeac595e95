-- ===== src/Oracle/Config.antt =====
-- backend/oracle/src/config.rs.
pub mod Valid
use Prim.Native.String
use Prim.Native.String.{String}
use pifp_stellar.Base.{⊤, ℕ, ◌^◌, Bool, Option, get_or, if◌then◌else◌}
use pifp_stellar.Base.Environment.{Environment, ok_or, env_number}
use pifp_stellar.Base.Result.{ok, err, ◌>>=◌, ◌>>◌}
use pifp_stellar.Base.Text.{starts_with}
use pifp_stellar.Oracle.Errors.{config, Result}

pub record Config : Type 0 where
  pub rpc_url : String
  pub horizon_url : String
  pub contract_id : String
  pub oracle_secret_key : String
  pub ipfs_gateway : String
  pub network_passphrase : String
  pub timeout_secs : ℕ
  pub sentry_dsn : Option String
  pub metrics_port : ℕ

abbrev pub env_var : Environment → String → Result String
env_var env key =
    ok_or (config (String.◌++◌ "Missing required environment variable: " key)) (env key)

unfoldable pub from_env : Environment → Result Config
from_env env = do
  contract_id ← env_var env "CONTRACT_ID"
  oracle_secret_key ← env_var env "ORACLE_SECRET_KEY"
  timeout_secs ← env_number env "TIMEOUT_SECS" "30" (2 ^ 64) (config "Invalid TIMEOUT_SECS")
  metrics_port ← env_number env "METRICS_PORT" "9090" (2 ^ 16) (config "Invalid METRICS_PORT")
  ok (record {
    rpc_url = get_or "https://soroban-testnet.stellar.org" (env "RPC_URL");
    horizon_url = get_or "https://horizon-testnet.stellar.org" (env "HORIZON_URL");
    contract_id = contract_id;
    oracle_secret_key = oracle_secret_key;
    ipfs_gateway = get_or "https://ipfs.io" (env "IPFS_GATEWAY");
    network_passphrase = get_or "Test SDF Network ; September 2015" (env "NETWORK_PASSPHRASE");
    timeout_secs = timeout_secs;
    sentry_dsn = env "SENTRY_DSN";
    metrics_port = metrics_port;
  })

abbrev pub check_start : String → String → String → Result ⊤
check_start text start message = if starts_with text start then ok tt else err (config message)

unfoldable pub validate : Config → Result ⊤
validate c = do
  check_start c.contract_id "C"
      "CONTRACT_ID must be a valid Stellar contract address (starts with 'C')"
  check_start c.oracle_secret_key "S"
      "ORACLE_SECRET_KEY must be a valid Stellar secret key (starts with 'S')"
  check_start c.rpc_url "http" "RPC_URL must be a valid HTTP(S) URL"
  check_start c.horizon_url "http" "HORIZON_URL must be a valid HTTP(S) URL"
  check_start c.ipfs_gateway "http" "IPFS_GATEWAY must be a valid HTTP(S) URL"
