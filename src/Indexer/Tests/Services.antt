-- ===== src/Indexer/Tests/Services.antt =====
-- Concrete inputs for the votes, profiles, webhooks and the cache of backend/indexer/src/.
use Prim.Native.String.{String}
use text.Mathlib.Text.{◌==◌}
use pifp_stellar.Base.{
  ℕ, ◌≡◌, ◌≤◌, ◌↔◌, refl, arith, true, not, List, [], ◌∷◌, none, some, if◌then◌else◌, ◌&&◌, eqb_ℕ,
}
use pifp_stellar.Base.Int.{pos}
use pifp_stellar.Base.Text.{starts_with, trim}
use pifp_stellar.Indexer.Kinds.{PifpEvent}
use pifp_stellar.Indexer.Quorum.{VoteRequest, submit_vote}
use pifp_stellar.Indexer.Quorum.Consensus.{
  Submission, submit_all, voted, first_votes, status_after, submit_all-status_after,
}
use pifp_stellar.Indexer.Profiles.{Crypto, ProfileRequest, upsert}
use pifp_stellar.Indexer.Profiles.Changes.{Changes, handle-Changes}
use pifp_stellar.Indexer.Webhooks
use pifp_stellar.Indexer.Webhooks.{
  NewWebhookRegistration, WebhookTarget, Tables, wanted, register_webhook, get_webhooks_for_event,
}
use pifp_stellar.Indexer.Webhooks.Targets.{
  notified, is_told, Below, is_created, acceptable, register_webhook-notified,
}
use pifp_stellar.Indexer.Webhooks.Delivery.{World, status, deliver_with_retry, dispatch_event}
use pifp_stellar.Indexer.Webhooks.Delivery.Attempts.{
  repeat, row, request_of, deliver_with_retry_lem,
}
use pifp_stellar.Indexer.Webhooks.Delivery.Dispatched.{requests, sent, dispatch_event-requests}
use pifp_stellar.Indexer.Cache.{
  Endpoint, top_projects, Action, insert, act, get_json, get_version, set_json, invalidate_all,
}
use pifp_stellar.Indexer.Cache
use pifp_stellar.Indexer.Cache.Fresh.{IsFrom, cached-IsFrom}
use pifp_stellar.Indexer.Webhooks.Groups
use pifp_stellar.Indexer.Webhooks.Groups.{list_webhooks, ungroup, list_webhooks-ungroup}

abbrev vote : String → String → Submission
vote oracle hash = record { project = "7"; request = record { oracle = oracle; proof_hash = hash } }

abbrev votes : List Submission
votes = vote "GC" "aa" ∷ vote "GB" "aa" ∷ vote "GB" "bb" ∷ vote "GA" "aa" ∷ []

submit_all-status_after_example :
    let status = status_after 2 "7" votes in
    (status.threshold ≡ 2)
    × ((request : VoteRequest)
        → (submit_vote "7" request (submit_all votes)).1.accepted
          ≡ not (voted "7" request.oracle votes))
    × ((status.consensus_reached ≡ true)
        ↔ ((hash : String) × (1 ≤ first_votes "7" hash votes) × (2 ≤ first_votes "7" hash votes)))
submit_all-status_after_example = submit_all-status_after 2 "7" votes (omega arith) (omega arith)

-- A check that accepts one key and one signature.
abbrev crypto : Crypto
crypto = record {
  from_string = λ s. some (7 ∷ []);
  base64_decode = λ s. if s == "sig" then some (repeat 64 1) else none;
  is_verifying_key = λ key. true;
  verify = λ key message sig. message == "pifp-profile:GA";
}

abbrev rename : ProfileRequest
rename = record {
  address = "GA";
  signature = "sig";
  update = record { nickname = some "ann"; bio = none; avatar_url = none };
}

handle-Changes_example : Changes crypto [] "GA" (upsert rename)
handle-Changes_example = handle-Changes crypto [] "GA" (upsert rename)

abbrev registration : NewWebhookRegistration
registration = record {
  url = "https://a.io";
  secret = "s";
  event_types = " project_funded " ∷ "" ∷ [];
}

register_webhook-notified_example :
    let (st, answer) = register_webhook registration Webhooks.migrated in
    (is_created answer ≡ acceptable registration)
    × ((id : ℕ) (event_type : String)
        → notified id event_type st ≡ (
            if acceptable registration && eqb_ℕ id 1
            then is_told event_type registration.event_types
            else notified id event_type Webhooks.migrated))
    × Below st.next_id st.webhook_subscriptions
register_webhook-notified_example = register_webhook-notified registration Webhooks.migrated tt

abbrev tables : Tables
tables = (register_webhook registration Webhooks.migrated).0

-- The first attempt fails with status 500, the second succeeds.
abbrev world : World
world = record {
  post = λ attempt request. record {
    posted = if eqb_ℕ attempt 1 then status 500 else status 200;
    elapsed_ms = pos 12;
  };
  to_string = λ n. "500";
  to_json = λ event. some "{}";
  hmac = λ secret payload. "00";
}

abbrev funded_event : PifpEvent
funded_event = record {
  event_type = "project_funded";
  project_id = some "7";
  actor = some "GA";
  amount = some "50";
  ledger = pos 90;
  timestamp = pos 0;
  contract_id = "CA";
  tx_hash = none;
  extra_data = none;
}

dispatch_event-requests_example :
    requests (dispatch_event world tables funded_event)
    ≡ sent world "{}" "project_funded" tables.webhooks tables.webhook_subscriptions
unfolding register_webhook starts_with trim Webhooks.create_webhook
dispatch_event-requests_example =
    dispatch_event-requests world tables funded_event "{}" (tt, tt) refl

abbrev target : WebhookTarget
target = record { webhook_id = 1; url = "https://a.io"; secret = "s"; event_type = "*" }

deliver_with_retry_lem_example :
    let run = deliver_with_retry world target "{}" "sha256=00" in
    (run.requests ≡ repeat 2 (request_of world target "{}" "sha256=00"))
    × (run.deliveries
        ≡ row world target "{}" "sha256=00" 1 ∷ row world target "{}" "sha256=00" 2 ∷ [])
    × (run.sleeps ≡ 500 ∷ [])
deliver_with_retry_lem_example = deliver_with_retry_lem world target "{}" "sha256=00"

abbrev registrations : List Groups.WebhookRegistration
registrations =
    record {
      id = 1;
      url = "https://a.io";
      event_types = "project_active" ∷ "project_funded" ∷ [];
      enabled = true;
      created_at = 5;
    }
    ∷ record {
      id = 2;
      url = "https://b.io";
      event_types = "*" ∷ [];
      enabled = true;
      created_at = 6;
    }
    ∷ []

list_webhooks-ungroup_example : list_webhooks (ungroup registrations) ≡ registrations
list_webhooks-ungroup_example = list_webhooks-ungroup registrations (refl, refl, refl)

-- A request starts, a poll inserts and has not invalidated yet, the request queries, another poll
-- inserts, and the request stores its answer.
abbrev actions : List (Action ℕ)
actions =
    Cache.request (top_projects 10) true
    ∷ insert 5
    ∷ Cache.answer 0
    ∷ insert 6
    ∷ Cache.write 0 true
    ∷ []

abbrev query : ℕ → Endpoint → ℕ
query tables endpoint = tables

cached-IsFrom_example : IsFrom query 5 (top_projects 10) (6 ∷ 5 ∷ 0 ∷ [])
unfolding act get_json get_version set_json invalidate_all
cached-IsFrom_example = cached-IsFrom query 0 actions (top_projects 10) true 5 refl
