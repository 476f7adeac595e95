-- ===== src/Indexer/Decode.antt =====
-- The decoding of raw RPC events, backend/indexer/src/rpc.rs.
pub mod Published
pub mod Told
use Prim.Native.String.{String}
use text.Mathlib.Text.{◌==◌}
use pifp_stellar.Base.{
  ℕ, Bool, true, false, not, List, [], ◌∷◌, Option, none, some, get_or, if◌then◌else◌,
}
use pifp_stellar.Base.Int.{ℤ, pos}
use pifp_stellar.Base.Text.{member}
use pifp_stellar.Base.Words.{i64_of_u64}
use pifp_stellar.Indexer.Json
use pifp_stellar.Indexer.Json.{
  Value, Items, Members, null, bool, number, string, array, object, nil, cons, end, get, as_str,
  as_u64, as_i64, first_item, second_item, and_then, or_else,
}
use pifp_stellar.Indexer.Kinds
use pifp_stellar.Indexer.Kinds.{
  EventKind, project_created, project_funded, project_active, project_verified, project_expired,
  project_cancelled, funds_released, donator_refunded, role_set, role_del, protocol_paused,
  protocol_unpaused, unknown, from_topic, topic_symbols, is_unknown, PifpEvent,
}

-- The fields of `RawEvent` that are read.
pub record RawEvent : Type 0 where
  pub topic : List String
  pub value : Value
  pub contract_id : Option String
  pub tx_hash : Option String
  pub ledger : Option ℕ
  pub ledger_closed_at : Option String

-- `serde_json::from_str`, `chrono`'s RFC 3339 parser with `timestamp`, and the decimal text of a
-- number.
pub record Parsers : Type 0 where
  pub from_str : String → Option Value
  pub parse_from_rfc3339 : String → Option ℤ
  pub u64_to_string : ℕ → String
  pub i64_to_string : ℤ → String

-- The text of a string or a number.
abbrev scalar : Value → Option String
scalar (string s) = some s
scalar (number n) = some n.text
scalar null = none
scalar (bool b) = none
scalar (array xs) = none
scalar (object ms) = none

unfoldable pub extract_field : Value → List String → Option String
extract_field value [] = none
extract_field value (key ∷ keys) =
    or_else (and_then (get value key) scalar) (extract_field value keys)

unfoldable mutual
  pub value_to_string : Value → Option String
  value_to_string (string s) = some s
  value_to_string (number n) = some n.text
  value_to_string (object ms) = or_else (field_to_string ms "value") (field_to_string ms "address")
  value_to_string null = none
  value_to_string (bool b) = none
  value_to_string (array xs) = none

  -- `obj.get(key).and_then(value_to_string)`.
  pub field_to_string : Members → String → Option String
  field_to_string end key = none
  field_to_string (Json.member k v ms) key =
      if k == key then value_to_string v else field_to_string ms key

unfoldable mutual
  pub find_nested : Value → String → Option String
  find_nested (object ms) key = find_in ms key
  find_nested null key = none
  find_nested (bool b) key = none
  find_nested (number n) key = none
  find_nested (string s) key = none
  find_nested (array xs) key = none

  -- The loop over the members.
  pub find_in : Members → String → Option String
  find_in end key = none
  find_in (Json.member k v ms) key =
      if k == key then as_str v else or_else (find_nested v key) (find_in ms key)

-- Actor, amount and extra data.
pub record Decoded : Type 0 where
  pub actor : Option String
  pub amount : Option String
  pub extra_data : Option String

module _ (parsers : Parsers) where
  unfoldable pub decode_data : Value → EventKind → Decoded
  unfolding get as_str as_i64 first_item second_item
  decode_data value project_created = record {
    actor =
        or_else (and_then (or_else (get value "creator") (get value "address")) as_str)
          (find_nested value "creator");
    amount =
        and_then (get value "goal")
          λ v. or_else (as_str v) (and_then (as_i64 v) λ n. some (parsers.i64_to_string n));
    extra_data = and_then (get value "token") value_to_string;
  }
  decode_data value project_funded = record {
    actor = extract_field value ("donator" ∷ "funder" ∷ "address" ∷ []);
    amount = extract_field value ("amount" ∷ []);
    extra_data = none;
  }
  decode_data value project_active = record { actor = none; amount = none; extra_data = none }
  decode_data value project_expired = record { actor = none; amount = none; extra_data = none }
  decode_data value project_cancelled = record {
    actor = extract_field value ("cancelled_by" ∷ "address" ∷ []);
    amount = none;
    extra_data = none;
  }
  decode_data value project_verified = record {
    actor = extract_field value ("oracle" ∷ "verifier" ∷ "address" ∷ []);
    amount = none;
    extra_data = extract_field value ("proof_hash" ∷ "hash" ∷ "data" ∷ []);
  }
  decode_data value funds_released = record {
    actor = none;
    amount = extract_field value ("amount" ∷ []);
    extra_data = extract_field value ("token" ∷ []);
  }
  decode_data value donator_refunded = record {
    actor =
        or_else (extract_field value ("donator" ∷ "address" ∷ []))
          (and_then (first_item value) value_to_string);
    amount =
        or_else (extract_field value ("amount" ∷ []))
          (and_then (second_item value) value_to_string);
    extra_data = none;
  }
  decode_data value role_set = record {
    actor = or_else (as_str value) (extract_field value ("address" ∷ "caller" ∷ "by" ∷ []));
    amount = none;
    extra_data = none;
  }
  decode_data value role_del = record {
    actor = or_else (as_str value) (extract_field value ("address" ∷ "caller" ∷ "by" ∷ []));
    amount = none;
    extra_data = none;
  }
  decode_data value protocol_paused = record {
    actor = or_else (as_str value) (extract_field value ("address" ∷ []));
    amount = none;
    extra_data = none;
  }
  decode_data value protocol_unpaused = record {
    actor = or_else (as_str value) (extract_field value ("address" ∷ []));
    amount = none;
    extra_data = none;
  }
  decode_data value unknown = record { actor = none; amount = none; extra_data = none }

  unfoldable pub extract_symbol : String → String
  unfolding get as_str
  extract_symbol raw =
      get_or raw (and_then (parsers.from_str raw) λ v. and_then (get v "value") as_str)

  unfoldable pub extract_u64_or_raw : String → String
  unfolding get as_str as_u64
  extract_u64_or_raw raw = get_or raw (
      and_then (parsers.from_str raw) λ v.
        or_else (and_then (and_then (get v "value") as_u64) λ n. some (parsers.u64_to_string n))
          (and_then (get v "value") as_str))

  abbrev first_topic : List String → Option String
  first_topic [] = none
  first_topic (t ∷ ts) = some t

  abbrev second_topic : List String → Option String
  second_topic [] = none
  second_topic (t ∷ []) = none
  second_topic (t ∷ u ∷ ts) = some u

  -- The contract is one of the configured ones, or the event names none.
  abbrev in_scope : Option String → List String → Bool
  in_scope none contract_ids = true
  in_scope (some cid) contract_ids = member cid contract_ids

  abbrev first_id : List String → String
  first_id [] = ""
  first_id (c ∷ cs) = c

  abbrev contract_of : Option String → List String → String
  contract_of none contract_ids = first_id contract_ids
  contract_of (some cid) contract_ids = cid

  -- The event that `decode_single` builds once its checks have passed.
  abbrev pub build_event : RawEvent → List String → EventKind → PifpEvent
  build_event raw contract_ids kind = record {
    event_type = Kinds.as_str kind;
    project_id = and_then (second_topic raw.topic) λ t. some (extract_u64_or_raw t);
    actor = (decode_data raw.value kind).actor;
    amount = (decode_data raw.value kind).amount;
    extra_data = (decode_data raw.value kind).extra_data;
    ledger = i64_of_u64 (get_or 0 raw.ledger);
    timestamp = get_or (pos 0) (and_then raw.ledger_closed_at parsers.parse_from_rfc3339);
    contract_id = contract_of raw.contract_id contract_ids;
    tx_hash = raw.tx_hash;
  }

  unfoldable pub decode_single : RawEvent → List String → Option PifpEvent
  unfolding extract_symbol from_topic
  decode_single raw contract_ids = elim (first_topic raw.topic) [
    | none ↦ none
    | some t ↦
        let symbol = extract_symbol t in
        if not (member symbol topic_symbols)
        then none
        else if is_unknown (from_topic symbol)
        then none
        else if not (in_scope raw.contract_id contract_ids)
        then none
        else some (build_event raw contract_ids (from_topic symbol))
  ]

  unfoldable pub decode_events : List RawEvent → List String → List PifpEvent
  decode_events [] contract_ids = []
  decode_events (raw ∷ raws) contract_ids = elim (decode_single raw contract_ids) [
    | none ↦ decode_events raws contract_ids
    | some event ↦ event ∷ decode_events raws contract_ids
  ]
