-- ===== src/Indexer/Fetch.antt =====
-- `fetch_events` and `build_params` of backend/indexer/src/rpc.rs, against the replies that the RPC
-- node gives to one request after another.
pub mod Waits
use Prim.Native.String.{String}
use pifp_stellar.Base.{
  ℕ, ◌*◌, Bool, true, false, List, [], ◌∷◌, ◌++◌, Option, none, some, ◌&&◌, ◌||◌, leb,
  if◌then◌else◌,
}
use pifp_stellar.Base.Int.{ℤ, pos, negsuc, eqb_ℤ}
use pifp_stellar.Indexer.Json
use pifp_stellar.Indexer.Json.{Value, Items, Members, number, string, array, object, nil, cons, end}
use pifp_stellar.Indexer.Kinds.{topic_symbols}
use pifp_stellar.Indexer.Decode.{RawEvent, Parsers}

abbrev pub max_backoff_secs : ℕ
max_backoff_secs = 60

abbrev pub initial_backoff_secs : ℕ
initial_backoff_secs = 2

pub record RpcError : Type 0 where
  pub code : ℤ
  pub message : String

pub record EventsResult : Type 0 where
  pub events : List RawEvent
  pub cursor : Option String
  pub latest_ledger : Option ℕ

pub record RpcResponse : Type 0 where
  pub result : Option EventsResult
  pub error : Option RpcError

-- What a request can bring back: no response, status 429, a body that is no `RpcResponse`, or one.
pub data Reply : Type 0 where
  request_failed : Reply
  too_many_requests : Reply
  bad_body : Reply
  body : RpcResponse → Reply

-- The results of `fetch_events`: `Ok`, or `Err` with the body's error, a hard RPC error or an empty
-- result.
pub data Answer : Type 0 where
  fetched : EventsResult → Answer
  http_error : Answer
  hard_error : RpcError → Answer
  empty_result : Answer

module _ (parsers : Parsers) where
  abbrev json_u32 : ℕ → Value
  json_u32 n = number (record { text = parsers.u64_to_string n; u64 = some n; i64 = some (pos n) })

  abbrev strings : List String → Items
  strings [] = nil
  strings (s ∷ ss) = cons (string s) (strings ss)

  -- `json!([{"type":"symbol","value": s}])` for each symbol.
  abbrev topic_items : List String → Items
  topic_items [] = nil
  topic_items (s ∷ ss) =
      cons
        (array (
          cons (object (Json.member "type" (string "symbol") (Json.member "value" (string s) end)))
            nil))
        (topic_items ss)

  abbrev with_topics : Option (List String) → Members
  with_topics none = end
  with_topics (some symbols) = Json.member "topics" (array (topic_items symbols)) end

  abbrev with_cursor : Option String → Members
  with_cursor none = end
  with_cursor (some cur) = Json.member "cursor" (string cur) end

  abbrev with_start : Option String → ℕ → Members
  with_start none start_ledger = Json.member "startLedger" (json_u32 start_ledger) end
  with_start (some cur) start_ledger = end

  unfoldable pub build_params : List String → ℕ → Option String → ℕ → Option (List String) → Value
  build_params contract_ids start_ledger cursor limit topics =
      let filter : Value = object (
        Json.member "type" (string "contract")
          (Json.member "contractIds" (array (strings contract_ids)) (with_topics topics))) in
      let pagination : Value = object (Json.member "limit" (json_u32 limit) (with_cursor cursor)) in
      object (
        Json.member "filters" (array (cons filter nil))
          (Json.member "pagination" pagination (with_start cursor start_ledger)))

pub record FetchState : Type 0 where
  pub backoff : ℕ
  pub use_topic_filter : Bool

abbrev pub initial_state : FetchState
initial_state = record { backoff = initial_backoff_secs; use_topic_filter = true }

-- One round of the loop: another round after waiting, another at once, or the end.
pub data Next : Type 0 where
  wait : ℕ → FetchState → Next
  retry : FetchState → Next
  done : Answer → Next

abbrev pub min : ℕ → ℕ → ℕ
min a b = if leb a b then a else b

abbrev pub backed_off : FetchState → FetchState
backed_off st = record st { backoff = min (st.backoff * 2) max_backoff_secs }

abbrev pub back_off : FetchState → Next
back_off st = wait st.backoff (backed_off st)

abbrev pub on_error : FetchState → RpcError → Next
on_error st err =
    if eqb_ℤ err.code (negsuc 32601) && st.use_topic_filter
    then retry (record st { use_topic_filter = false })
    else if eqb_ℤ err.code (negsuc 32599) || eqb_ℤ err.code (negsuc 32600)
    then done (hard_error err)
    else back_off st

abbrev pub on_result : Option EventsResult → Next
on_result none = done empty_result
on_result (some r) = done (fetched r)

abbrev pub on_body : FetchState → Option RpcError → Option EventsResult → Next
on_body st (some err) result = on_error st err
on_body st none result = on_result result

unfoldable pub on_reply : FetchState → Reply → Next
on_reply st request_failed = back_off st
on_reply st too_many_requests = back_off st
on_reply st bad_body = done http_error
on_reply st (body b) = on_body st b.error b.result

-- The requests sent, the waits in seconds, and the result, if the replies suffice for one.
pub record Run : Type 0 where
  pub requests : List Value
  pub waits : List ℕ
  pub answer : Option Answer

abbrev pub add_wait : Value → ℕ → Run → Run
add_wait p n r = record { requests = p ∷ r.requests; waits = n ∷ r.waits; answer = r.answer }

abbrev pub add_request : Value → Run → Run
add_request p r = record r { requests = p ∷ r.requests }

module _ (parsers : Parsers) (contract_ids : List String) (start_ledger : ℕ)
    (cursor : Option String) (limit : ℕ) where
  abbrev pub request : FetchState → Value
  request st =
      build_params parsers contract_ids start_ledger cursor limit
        (if st.use_topic_filter then some topic_symbols else none)

  unfoldable pub fetch_from : FetchState → List Reply → Run
  unfolding on_reply
  fetch_from st [] = record { requests = []; waits = []; answer = none }
  fetch_from st (reply ∷ replies) = elim (on_reply st reply) [
    | wait n st' ↦ add_wait (request st) n (fetch_from st' replies)
    | retry st' ↦ add_request (request st) (fetch_from st' replies)
    | done answer ↦ record { requests = request st ∷ []; waits = []; answer = some answer }
  ]

  unfoldable pub fetch_events : List Reply → Run
  unfolding fetch_from
  fetch_events replies = fetch_from initial_state replies
