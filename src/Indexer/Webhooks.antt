-- ===== src/Indexer/Webhooks.antt =====
-- The webhooks: the tables `webhooks` and `webhook_subscriptions` with their functions in
-- backend/indexer/src/db.rs, and the handler of `POST /webhooks` in backend/indexer/src/api.rs. Rows
-- stand latest first, ids are those of AUTOINCREMENT, and every query succeeds.
pub mod Targets
pub mod Groups
pub mod Delivery
use Prim.Native.String.{String}
use text.Mathlib.Text.{◌==◌}
use pifp_stellar.Base.{
  ℕ, eqb_ℕ, ◌+◌, Bool, true, false, not, List, [], ◌∷◌, Option, none, some, if◌then◌else◌, ◌&&◌,
  ◌||◌,
}
use pifp_stellar.Base.Text.{trim, starts_with}

pub record Webhook : Type 0 where
  pub id : ℕ
  pub url : String
  pub secret : String
  pub enabled : Bool

-- Unique in both columns.
pub record Subscription : Type 0 where
  pub webhook_id : ℕ
  pub event_type : String

pub record Tables : Type 0 where
  pub next_id : ℕ
  pub webhooks : List Webhook
  pub webhook_subscriptions : List Subscription

abbrev pub migrated : Tables
migrated = record { next_id = 1; webhooks = []; webhook_subscriptions = [] }

pub record WebhookTarget : Type 0 where
  pub webhook_id : ℕ
  pub url : String
  pub secret : String
  pub event_type : String

pub record NewWebhookRegistration : Type 0 where
  pub url : String
  pub secret : String
  pub event_types : List String

pub record WebhookRegistration : Type 0 where
  pub id : ℕ
  pub url : String
  pub event_types : List String
  pub enabled : Bool

abbrev pub trimmed : List String → List String
trimmed [] = []
trimmed (v ∷ vs) = let rest = trimmed vs in if trim v == "" then rest else trim v ∷ rest

abbrev pub or_all : List String → List String
or_all [] = "*" ∷ []
or_all (v ∷ vs) = v ∷ vs

-- The types subscribed to.
abbrev pub wanted : List String → List String
wanted event_types = or_all (trimmed event_types)

abbrev pub has_subscription : ℕ → String → List Subscription → Bool
has_subscription id event_type [] = false
has_subscription id event_type (s ∷ ss) =
    ((eqb_ℕ id s.webhook_id) && (s.event_type == event_type)) || has_subscription id event_type ss

-- `INSERT OR IGNORE` of a subscription for each type, in their order.
abbrev pub subscribe : ℕ → List String → List Subscription → List Subscription
subscribe id [] subs = subs
subscribe id (v ∷ vs) subs =
    subscribe id vs (
      if has_subscription id v subs
      then subs
      else record { webhook_id = id; event_type = v } ∷ subs)

unfoldable pub create_webhook : NewWebhookRegistration → Tables → Tables × WebhookRegistration
create_webhook input st =
    let webhook : Webhook = record {
      id = st.next_id;
      url = input.url;
      secret = input.secret;
      enabled = true;
    } in
    let event_types = wanted input.event_types in
    (
      record {
        next_id = st.next_id + 1;
        webhooks = webhook ∷ st.webhooks;
        webhook_subscriptions = subscribe st.next_id event_types st.webhook_subscriptions;
      },
      record { id = st.next_id; url = input.url; event_types = event_types; enabled = true },
    )

abbrev pub find_webhook : ℕ → List Webhook → Option Webhook
find_webhook id [] = none
find_webhook id (w ∷ ws) = if eqb_ℕ id w.id then some w else find_webhook id ws

abbrev pub target : Subscription → Webhook → WebhookTarget
target s w = record { webhook_id = w.id; url = w.url; secret = w.secret; event_type = s.event_type }

abbrev pub add_target : Subscription → Option Webhook → List WebhookTarget → List WebhookTarget
add_target s none ts = ts
add_target s (some w) ts = if w.enabled then target s w ∷ ts else ts

-- The rows of the join, in the order of the subscriptions.
abbrev pub target_rows : String → List Webhook → List Subscription → List WebhookTarget
target_rows event_type ws [] = []
target_rows event_type ws (s ∷ ss) =
    let rest = target_rows event_type ws ss in
    if (s.event_type == event_type) || (s.event_type == "*")
    then add_target s (find_webhook s.webhook_id ws) rest
    else rest

unfoldable pub get_webhooks_for_event : String → Tables → List WebhookTarget
get_webhooks_for_event event_type st = target_rows event_type st.webhooks st.webhook_subscriptions

-- The response to a registration.
pub data Registered : Type 0 where
  bad_request : String → Registered
  created : WebhookRegistration → Registered

unfoldable pub register_webhook : NewWebhookRegistration → Tables → Tables × Registered
register_webhook payload st =
    if not (starts_with payload.url "http://" || starts_with payload.url "https://")
    then (st, bad_request "Webhook URL must start with http:// or https://")
    else if trim payload.secret == ""
    then (st, bad_request "Webhook secret cannot be empty")
    else (let (st', webhook) = create_webhook payload st in (st', created webhook))
