-- ===== src/Indexer/Config.antt =====
-- backend/indexer/src/config.rs, and the one error of backend/indexer/src/errors.rs that it uses.
pub mod Started
use Prim.Native.String
use Prim.Native.String.{String}
use text.Mathlib.Text.{◌==◌}
use pifp_stellar.Base.{ℕ, ◌^◌, Option, none, some, List, [], ◌∷◌, get_or, if◌then◌else◌}
use pifp_stellar.Base.Environment.{Environment, ok_or, env_number}
use pifp_stellar.Base.Parts.{split}
use pifp_stellar.Base.Result.{Fallible, ok, err, ◌>>=◌}
use pifp_stellar.Base.Text.{trim, parse_uint}

pub data IndexerError : Type 0 where
  config_error : String → IndexerError

pub record Config : Type 0 where
  pub rpc_url : String
  pub contract_ids : List String
  pub database_url : String
  pub api_port : ℕ
  pub poll_interval_secs : ℕ
  pub events_per_page : ℕ
  pub start_ledger : ℕ
  pub backfill_start_ledger : Option ℕ
  pub backfill_cursor : Option String
  pub redis_url : Option String
  pub cache_ttl_top_projects_secs : ℕ
  pub cache_ttl_active_projects_count_secs : ℕ

abbrev pub env_var : Environment → String → Fallible IndexerError String
env_var env key = ok_or (config_error (String.◌++◌ "Missing env var: " key)) (env key)

-- `.filter(|v| !v.trim().is_empty())`.
abbrev pub not_blank : Option String → Option String
not_blank none = none
not_blank (some v) = if trim v == "" then none else some v

-- The parts, trimmed, that are not empty.
abbrev pub ids_in : List String → List String
ids_in [] = []
ids_in (part ∷ parts) =
    let rest = ids_in parts in if trim part == "" then rest else trim part ∷ rest

abbrev pub single_id : Environment → Fallible IndexerError (List String)
single_id env = elim (env "CONTRACT_ID") [
  | none ↦ err (config_error "Set CONTRACT_ID (single) or CONTRACT_IDS (comma-separated)")
  | some id ↦ ok (id ∷ [])
]

abbrev pub or_single : Environment → List String → Fallible IndexerError (List String)
or_single env [] = single_id env
or_single env (id ∷ ids) = ok (id ∷ ids)

unfoldable pub parse_contract_ids : Environment → Fallible IndexerError (List String)
parse_contract_ids env = elim (env "CONTRACT_IDS") [
  | none ↦ single_id env
  | some ids ↦ or_single env (ids_in (split b',' ids))
]

-- `.map(parse).transpose()`.
abbrev pub optional_ledger : Option String → Fallible IndexerError (Option ℕ)
optional_ledger none = ok none
optional_ledger (some v) = elim (parse_uint (2 ^ 32) v) [
  | none ↦ err (config_error "Invalid BACKFILL_START_LEDGER")
  | some n ↦ ok (some n)
]

abbrev invalid : String → IndexerError
invalid key = config_error (String.◌++◌ "Invalid " key)

abbrev pub number_in : Environment → String → String → ℕ → Fallible IndexerError ℕ
number_in env key default bound = env_number env key default bound (invalid key)

unfoldable pub from_env : Environment → Fallible IndexerError Config
from_env env = do
  contract_ids ← parse_contract_ids env
  api_port ← number_in env "API_PORT" "3001" (2 ^ 16)
  poll_interval_secs ← number_in env "POLL_INTERVAL_SECS" "5" (2 ^ 64)
  events_per_page ← number_in env "EVENTS_PER_PAGE" "100" (2 ^ 32)
  start_ledger ← number_in env "START_LEDGER" "0" (2 ^ 32)
  backfill_start_ledger ← optional_ledger (not_blank (env "BACKFILL_START_LEDGER"))
  top_ttl ← number_in env "CACHE_TTL_TOP_PROJECTS_SECS" "30" (2 ^ 64)
  count_ttl ← number_in env "CACHE_TTL_ACTIVE_PROJECTS_COUNT_SECS" "15" (2 ^ 64)
  ok (record {
    rpc_url = get_or "https://soroban-testnet.stellar.org" (env "RPC_URL");
    contract_ids = contract_ids;
    database_url = get_or "sqlite:./pifp_events.db" (env "DATABASE_URL");
    api_port = api_port;
    poll_interval_secs = poll_interval_secs;
    events_per_page = events_per_page;
    start_ledger = start_ledger;
    backfill_start_ledger = backfill_start_ledger;
    backfill_cursor = not_blank (env "BACKFILL_CURSOR");
    redis_url = not_blank (env "REDIS_URL");
    cache_ttl_top_projects_secs = top_ttl;
    cache_ttl_active_projects_count_secs = count_ttl;
  })
