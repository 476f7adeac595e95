-- ===== src/Indexer/Decode/Told.antt =====
-- What `decode_events` of backend/indexer/src/rpc.rs makes of events that are written the way the RPC
-- node hands them out: topics as JSON objects with a type and a value, data as the contract's fields.
use Prim.Native.String.{String}
use pifp_stellar.Base.{◌≡◌, List, [], ◌∷◌, Option, none, some, get_or}
use pifp_stellar.Base.Int.{pos}
use pifp_stellar.Base.Text.{member}
use pifp_stellar.Base.Words.{i64_of_u64}
use pifp_stellar.Indexer.Json
use pifp_stellar.Indexer.Json.{Value, string, array, object, nil, cons, end, and_then, or_else}
use pifp_stellar.Indexer.Kinds
use pifp_stellar.Indexer.Kinds.{PifpEvent}
use pifp_stellar.Indexer.Decode.Published.{Published, symbol_of, data_of, Told, told_of, tracked}
use pifp_stellar.Indexer.Decode.{RawEvent, Parsers}

module _ (parsers : Parsers) where
  abbrev pub stored : Published → Told → String → PifpEvent
  stored e t contract_id = record {
    event_type = t.event_type;
    project_id = some e.project_id;
    actor = t.actor;
    amount = t.amount;
    ledger = i64_of_u64 e.ledger;
    timestamp = get_or (pos 0) (parsers.parse_from_rfc3339 e.closed_at);
    contract_id = contract_id;
    tx_hash = e.tx_hash;
    extra_data = t.extra_data;
  }

  abbrev stored_if : List String → Option Told → Published → Option PifpEvent
  stored_if ids t e =
      and_then t λ told. and_then (tracked ids e.contract_id) λ c. some (stored e told c)

  abbrev pub stored_of : List String → Published → Option PifpEvent
  stored_of ids e = stored_if ids (told_of e.what) e

  abbrev pub and_more : Option PifpEvent → List PifpEvent → List PifpEvent
  and_more none events = events
  and_more (some event) events = event ∷ events

  abbrev pub all_stored : List String → List Published → List PifpEvent
  all_stored ids [] = []
  all_stored ids (e ∷ es) = and_more (stored_of ids e) (all_stored ids es)

  -- A topic that the parser reads as an object with a type and a text.
  abbrev pub Quotes : (String → String) → String → Type 0
  Quotes quote type =
      (s : String)
      → parsers.from_str (quote s)
        ≡ some (object (Json.member "type" (string type) (Json.member "value" (string s) end)))

  module _ (symbol_topic u64_topic : String → String) where
    abbrev topics_of : String → Option String → List String
    topics_of id none = []
    topics_of id (some symbol) = symbol_topic symbol ∷ u64_topic id ∷ []

    abbrev raw_event : Option String → Value → Published → RawEvent
    raw_event symbol value e = record {
      topic = topics_of e.project_id symbol;
      value = value;
      contract_id = e.contract_id;
      tx_hash = e.tx_hash;
      ledger = some e.ledger;
      ledger_closed_at = some e.closed_at;
    }

    abbrev pub raw_of : Published → RawEvent
    raw_of e = raw_event (symbol_of e.what) (data_of e.project_id e.what) e
