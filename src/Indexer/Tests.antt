-- ===== src/Indexer/Tests.antt =====
-- Concrete inputs for the polling of backend/indexer/src/indexer.rs.
mod Services
use Prim.Native.Char.{code}
use Prim.Native.String
use Prim.Native.String.{String}
use text.Mathlib.Text.{◌==◌}
use pifp_stellar.Base.{
  ℕ, ◌≡◌, ◌≤◌, ◌+◌, ◌-◌, ◌<◌, ◌↔◌, refl, arith, Bool, true, false, not, List, [], ◌∷◌, none, some,
  Option, length, if◌then◌else◌, ◌&&◌, ◌||◌, eqb_ℕ,
}
use pifp_stellar.Base.Int.{ℤ, pos, negsuc, ◌+ℤ◌, in_i128, ◌-ℤ◌}
use pifp_stellar.Base.Text.{parse_i128, trim, starts_with, member}
use pifp_stellar.Base.Words.{i64_of_u64, u32_of_int}
use pifp_stellar.Indexer.Json
use pifp_stellar.Indexer.Json.{Value, null, string, object, end}
use mathlib.Core.List.{reverse}
use pifp_stellar.Base.Pages.{pages_from}
use pifp_stellar.Indexer.Reads.{HistoryQuery, get_events_for_project, get_project_history_paged}
use pifp_stellar.Indexer.Reads.History.{get_project_history_paged_pages}
use pifp_stellar.Indexer.Kinds
use pifp_stellar.Indexer.Kinds.{PifpEvent, from_topic, of_name}
use pifp_stellar.Indexer.Decode.{
  RawEvent, Parsers, decode_events, decode_single, decode_data, extract_symbol, extract_field,
  value_to_string, find_nested, extract_u64_or_raw,
}
use pifp_stellar.Indexer.Decode.Published.{
  Happened, created, funded, refunded, other, silent, Published,
}
use pifp_stellar.Indexer.Decode
use pifp_stellar.Indexer.Fetch.{
  EventsResult, RpcResponse, Reply, request_failed, too_many_requests, body, fetched, fetch_events,
  fetch_from,
}
use pifp_stellar.Indexer.Fetch.Waits.{first_answer, schedule, fetch_events_lem}
use pifp_stellar.Indexer.Store
use pifp_stellar.Indexer.Store.{Store, insert_events_with_new, parsed_amount}
use pifp_stellar.Indexer.Store.Counts.{Counted, fits}
use pifp_stellar.Indexer.Store.Insert.{insert_events-Counted, migrated-Counted, rev_append}
use text.Mathlib.Text.{◌==◌}
use pifp_stellar.Base.Environment.{Environment}
use pifp_stellar.Base.Parts.{join_parts, split}
use pifp_stellar.Base.Text.{
  parse_uint, is_whitespace, trim, trim_start, trim_end, digits, digits_from,
}
use pifp_stellar.Indexer.Config.{Config, from_env, parse_contract_ids}
use pifp_stellar.Indexer.Poll.Restart.{resume-from_env}
use pifp_stellar.Indexer.Poll.{Position, Poll, resume, poll_once, run, next_position, stored}
use pifp_stellar.Indexer.Poll.Resume.{
  Stores, decoded, poll_once-Stores, resume-Stores, stored-Stores, Rises, run-Rises,
}

-- Parsers that know no text.
abbrev parsers : Parsers
parsers = record {
  from_str = λ s. none;
  parse_from_rfc3339 = λ s. none;
  u64_to_string = λ n. "0";
  i64_to_string = λ n. "0";
}

abbrev raw_event : String → Value → RawEvent
raw_event topic value = record {
  topic = topic ∷ "7" ∷ [];
  value = value;
  contract_id = some "CA";
  tx_hash = some "ab";
  ledger = some 90;
  ledger_closed_at = none;
}

abbrev funded_value : Value
funded_value = object (Json.member "donator" (string "GA") (Json.member "amount" (string "50") end))

abbrev raw_events : List RawEvent
raw_events =
    raw_event "created" null ∷ raw_event "funded" funded_value ∷ raw_event "reclaim" null ∷ []

abbrev page : EventsResult
page = record { events = raw_events; cursor = some "90-1"; latest_ledger = some 95 }

abbrev replies : List Reply
replies =
    request_failed ∷ too_many_requests ∷ body (record { result = some page; error = none }) ∷ []

abbrev config : Config
config = record {
  rpc_url = "http://localhost";
  contract_ids = "CA" ∷ [];
  database_url = "sqlite:./a.db";
  api_port = 3001;
  poll_interval_secs = 5;
  start_ledger = 80;
  events_per_page = 100;
  backfill_start_ledger = none;
  backfill_cursor = none;
  redis_url = none;
  cache_ttl_top_projects_secs = 30;
  cache_ttl_active_projects_count_secs = 15;
}

abbrev start : Position
start = record { current_ledger = 80; cursor = none }

-- A parser of topics that are written with one letter before their text.
abbrev quoting : Parsers
quoting = record {
  from_str = λ s. elim s [
    | String.[] ↦ none
    | String.◌∷◌ c text ↦ some (
        object (
          Json.member "type" (string (if eqb_ℕ (code c) b's' then "symbol" else "u64"))
            (Json.member "value" (string text) end)))
  ];
  parse_from_rfc3339 = λ s. some (pos 60);
  u64_to_string = λ n. "0";
  i64_to_string = λ n. "0";
}

abbrev publish : Happened → Option String → Published
publish what contract_id = record {
  what = what;
  project_id = "7";
  contract_id = contract_id;
  tx_hash = some "ab";
  ledger = 90;
  closed_at = "2024-01-01T00:00:00Z";
}

abbrev happenings : List Published
happenings =
    publish (created "GA" "500" "CT") (some "CA")
    ∷ publish (funded "GB" "50") none
    ∷ publish (other "reclaim") (some "CA")
    ∷ publish (refunded "GB" "50") (some "CX")
    ∷ publish silent (some "CA")
    ∷ []

fetch_events_lem_example :
    let r = fetch_events parsers ("CA" ∷ []) 80 none 100 replies in
    (r.answer ≡ some (fetched page))
    × (r.waits ≡ schedule 0 (length r.waits))
    × (length r.requests ≤ length r.waits + 2)
fetch_events_lem_example = fetch_events_lem parsers ("CA" ∷ []) 80 none 100 replies

abbrev events : List PifpEvent
events = decode_events parsers raw_events ("CA" ∷ [])

insert_events-Counted_example :
    let r = insert_events_with_new Store.migrated events in
    (r.inserted ≡ some events) × (r.store.events ≡ rev_append events []) × Counted r.store
unfolding decode_events decode_single decode_data extract_symbol parsed_amount parse_i128 of_name
    from_topic Kinds.as_str ◌+ℤ◌ extract_field
insert_events-Counted_example = insert_events-Counted events Store.migrated migrated-Counted refl

poll_once-Stores_example :
    (p : Poll) × (poll_once parsers config Store.migrated start replies ≡ some p)
    × Stores
        (record { current_ledger = 95; cursor = some "90-1" })
        Store.migrated
        (decoded parsers config raw_events)
        p
unfolding decode_events decode_single decode_data extract_symbol parsed_amount parse_i128 of_name
    from_topic Kinds.as_str ◌+ℤ◌ extract_field
poll_once-Stores_example =
    poll_once-Stores parsers config Store.migrated start replies page migrated-Counted refl refl

abbrev next : Position
next = record { current_ledger = 95; cursor = some "90-1" }

abbrev variables : Environment
variables key =
    if key == "CONTRACT_IDS"
    then some (join_parts "," ("CA" ∷ "CB" ∷ []))
    else (if key == "START_LEDGER" then some "80" else none)

abbrev configured : Config
configured = record {
  rpc_url = "https://soroban-testnet.stellar.org";
  contract_ids = "CA" ∷ "CB" ∷ [];
  database_url = "sqlite:./pifp_events.db";
  api_port = 3001;
  poll_interval_secs = 5;
  events_per_page = 100;
  start_ledger = 80;
  backfill_start_ledger = none;
  backfill_cursor = none;
  redis_url = none;
  cache_ttl_top_projects_secs = 30;
  cache_ttl_active_projects_count_secs = 15;
}

resume-from_env_example :
    (configured.contract_ids ≡ "CA" ∷ "CB" ∷ [])
    × (resume configured (stored next Store.migrated []).store ≡ next)
unfolding from_env parse_contract_ids parse_uint is_whitespace split trim trim_start trim_end digits
    digits_from
resume-from_env_example =
    resume-from_env variables configured "CA" ("CB" ∷ []) next Store.migrated []
      (stored next Store.migrated []) (refl, refl, refl, (refl, refl, refl, tt)) refl refl refl refl
      (omega arith) (omega arith)
      (stored-Stores next Store.migrated Store.migrated [] refl migrated-Counted)

abbrev project_event : ℕ → PifpEvent
project_event ledger = record {
  event_type = "project_funded";
  project_id = some "7";
  actor = none;
  amount = none;
  ledger = pos ledger;
  timestamp = pos 0;
  contract_id = "CA";
  tx_hash = none;
  extra_data = none;
}

-- Two pages of two hold the three events of project 7.
get_project_history_paged_pages_example :
    let st = record Store.migrated {
      events = project_event 92 ∷ project_event 90 ∷ project_event 91 ∷ [];
    } in
    pages_from
      (λ n at.
        (get_project_history_paged st "7"
          (record { limit = some (pos n); offset = some (pos at) })).events)
      2
      0
      2
    ≡ reverse (get_events_for_project st "7")
unfolding get_events_for_project
get_project_history_paged_pages_example =
    get_project_history_paged_pages
      (record Store.migrated {
        events = project_event 92 ∷ project_event 90 ∷ project_event 91 ∷ [];
      })
      "7" 2 2 (omega arith)
