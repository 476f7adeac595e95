-- ===== src/Indexer/Webhooks/Delivery.antt =====
-- The delivery of an event, backend/indexer/src/webhook.rs, with the log of its attempts in
-- backend/indexer/src/db.rs. The HTTP client, the clock, HMAC and the JSON serialiser are parameters.
pub mod Attempts
pub mod Dispatched
use Prim.Native.String
use Prim.Native.String.{String}
use pifp_stellar.Base.{
  ℕ, ◌+◌, ◌*◌, ◌-◌, ◌^◌, Bool, true, false, List, [], ◌∷◌, ◌++◌, Option, none, some, if◌then◌else◌,
  leb, ltb, ◌&&◌, zero, suc,
}
use pifp_stellar.Base.Int.{ℤ}
use pifp_stellar.Indexer.Kinds.{PifpEvent}
use pifp_stellar.Indexer.Webhooks.{Tables, WebhookTarget, get_webhooks_for_event}

abbrev pub max_retries : ℕ
max_retries = 4

abbrev pub base_backoff_ms : ℕ
base_backoff_ms = 500

pub record Request : Type 0 where
  pub url : String
  pub signature : String
  pub event_type : String
  pub body : String

-- What `post` brings back, and how long it took.
pub data Posted : Type 0 where
  status : ℕ → Posted
  failed : String → Posted

pub record Reply : Type 0 where
  pub posted : Posted
  pub elapsed_ms : ℤ

-- A row of `webhook_deliveries`.
pub record Delivery : Type 0 where
  pub webhook_id : ℕ
  pub event_type : String
  pub payload : String
  pub status_code : Option ℕ
  pub success : Bool
  pub attempt : ℕ
  pub error : Option String
  pub latency_ms : ℤ

-- What the attempts send, log and sleep, in milliseconds.
pub record Delivered : Type 0 where
  pub requests : List Request
  pub deliveries : List Delivery
  pub sleeps : List ℕ

abbrev pub is_success : Posted → Bool
is_success (status n) = leb 200 n && ltb n 300
is_success (failed _) = false

-- The parameters: `post` at an attempt of a request, `to_string` of a number, `to_json` of an event,
-- and `hmac`, the hexadecimal HMAC-SHA256 of a text under a key.
pub record World : Type 0 where
  pub post : ℕ → Request → Reply
  pub to_string : ℕ → String
  pub to_json : PifpEvent → Option String
  pub hmac : String → String → String

abbrev pub status_code : Posted → Option ℕ
status_code (status n) = some n
status_code (failed _) = none

abbrev pub error_text : World → Posted → Option String
error_text world (status n) =
    if is_success (status n)
    then none
    else some (String.◌++◌ "Non-success HTTP status: " (world.to_string n))
error_text world (failed err) = some err

module _ (world : World) where
  unfoldable pub sign_payload : String → String → String
  sign_payload secret payload = String.◌++◌ "sha256=" (world.hmac secret payload)

  module _ (target : WebhookTarget) (payload : String) (signature : String) where
    abbrev pub request : Request
    request = record {
      url = target.url;
      signature = signature;
      event_type = target.event_type;
      body = payload;
    }

    abbrev pub reply_at : ℕ → Reply
    reply_at attempt = world.post attempt request

    abbrev pub log_webhook_delivery_attempt : ℕ → Reply → Delivery
    log_webhook_delivery_attempt attempt reply = record {
      webhook_id = target.webhook_id;
      event_type = target.event_type;
      payload = payload;
      status_code = status_code reply.posted;
      success = is_success reply.posted;
      attempt = attempt;
      error = error_text world reply.posted;
      latency_ms = reply.elapsed_ms;
    }

    abbrev add_attempt : Delivery → List ℕ → Delivered → Delivered
    add_attempt row sleep r = record {
      requests = request ∷ r.requests;
      deliveries = row ∷ r.deliveries;
      sleeps = sleep ++ r.sleeps;
    }

    abbrev nothing : Delivered
    nothing = record { requests = []; deliveries = []; sleeps = [] }

    -- `n` attempts from `attempt` on.
    unfoldable pub attempts_from : ℕ → ℕ → Delivered
    attempts_from zero attempt = nothing
    attempts_from (suc n) attempt =
        let reply = reply_at attempt in
        let row = log_webhook_delivery_attempt attempt reply in
        let rest = attempts_from n (attempt + 1) in
        if is_success reply.posted
        then add_attempt row [] nothing
        else if ltb attempt max_retries
        then add_attempt row (base_backoff_ms * 2 ^ (attempt - 1) ∷ []) rest
        else add_attempt row [] rest

    unfoldable pub deliver_with_retry : Delivered
    deliver_with_retry = attempts_from max_retries 1

  abbrev pub deliver_all : String → List WebhookTarget → List Delivered
  deliver_all payload [] = []
  deliver_all payload (t ∷ ts) =
      deliver_with_retry t payload (sign_payload t.secret payload) ∷ deliver_all payload ts

  abbrev deliver_json : Option String → List WebhookTarget → List Delivered
  deliver_json none ts = []
  deliver_json (some payload) ts = deliver_all payload ts

  -- One `Delivered` for each target; without targets nothing is serialised.
  abbrev pub dispatch_to : PifpEvent → List WebhookTarget → List Delivered
  dispatch_to event [] = []
  dispatch_to event (t ∷ ts) = deliver_json (world.to_json event) (t ∷ ts)

  unfoldable pub dispatch_event : Tables → PifpEvent → List Delivered
  dispatch_event st event = dispatch_to event (get_webhooks_for_event event.event_type st)
