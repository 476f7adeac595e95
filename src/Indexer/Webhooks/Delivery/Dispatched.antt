-- ===== src/Indexer/Webhooks/Delivery/Dispatched.antt =====
-- What `dispatch_event` of backend/indexer/src/webhook.rs sends.
use Prim.Native.String
use Prim.Native.String.{String}
use text.Mathlib.Text.{◌==◌}
use mathlib.Core.List.{append-nil}
use pifp_stellar.Base.{
  ℕ, eqb_ℕ, ◌≡◌, arith, refl, sym, subst, ap, ◌∙◌, inl, inr, false, ◌&&◌, ◌||◌, Option, none, some,
  List, [], ◌∷◌, ◌++◌, if◌then◌else◌, Bool-cases,
}
use pifp_stellar.Indexer.Kinds.{PifpEvent}
use pifp_stellar.Indexer.Webhooks.{
  Webhook, Subscription, Tables, WebhookTarget, find_webhook, target, add_target, target_rows,
  get_webhooks_for_event,
}
use pifp_stellar.Indexer.Webhooks.Delivery.{
  World, Request, Delivered, sign_payload, dispatch_event, dispatch_to, deliver_all,
}
use pifp_stellar.Indexer.Webhooks.Delivery.Attempts.{
  repeat, request_of, last_attempt, deliver_with_retry_lem,
}

abbrev pub requests : List Delivered → List Request
requests [] = []
requests (d ∷ ds) = d.requests ++ requests ds

abbrev pub signature_of : World → String → String → String
signature_of world secret payload = String.◌++◌ "sha256=" (world.hmac secret payload)

-- The tries of a delivery to a target, each with the same request.
abbrev pub tries : World → String → WebhookTarget → List Request
tries world payload t =
    repeat (last_attempt world t payload (signature_of world t.secret payload))
      (request_of world t payload (signature_of world t.secret payload))

abbrev all_tries : World → String → List WebhookTarget → List Request
all_tries world payload [] = []
all_tries world payload (t ∷ ts) = tries world payload t ++ all_tries world payload ts

deliver_all-requests :
    (world : World) (payload : String) (ts : List WebhookTarget)
    → requests (deliver_all world payload ts) ≡ all_tries world payload ts
unfolding sign_payload
deliver_all-requests world payload [] = refl
deliver_all-requests world payload (t ∷ ts) =
    let (e, _, _) = deliver_with_retry_lem world t payload (signature_of world t.secret payload) in
    rw (e, deliver_all-requests world payload ts) refl

dispatch_to-requests :
    (world : World) (event : PifpEvent) (payload : String) (ts : List WebhookTarget)
    → world.to_json event ≡ some payload
    → requests (dispatch_to world event ts) ≡ all_tries world payload ts
dispatch_to-requests world event payload [] h = refl
dispatch_to-requests world event payload (t ∷ ts) h =
    rw (dispatch_to, h) (deliver_all-requests world payload (t ∷ ts))

-- No webhook has the id; no two have one.
abbrev pub Absent : ℕ → List Webhook → Type 0
Absent id [] = Unit
Absent id (w ∷ ws) = (eqb_ℕ id w.id ≡ false) × Absent id ws

abbrev pub DistinctIds : List Webhook → Type 0
DistinctIds [] = Unit
DistinctIds (w ∷ ws) = Absent w.id ws × DistinctIds ws

module _ (world : World) (payload : String) where
  -- What one subscription makes the dispatch send: the tries to each enabled webhook with its id, at the
  -- webhook's URL and with its secret.
  abbrev pub sent_to : Subscription → List Webhook → List Request
  sent_to s [] = []
  sent_to s (w ∷ ws) =
      let rest = sent_to s ws in
      if eqb_ℕ s.webhook_id w.id && w.enabled
      then tries world payload
          (record { webhook_id = w.id; url = w.url; secret = w.secret; event_type = s.event_type })
        ++ rest
      else rest

  -- The subscriptions to the type and to `*`, in turn.
  abbrev pub sent : String → List Webhook → List Subscription → List Request
  sent event_type ws [] = []
  sent event_type ws (s ∷ ss) =
      let rest = sent event_type ws ss in
      if (s.event_type == event_type) || (s.event_type == "*") then sent_to s ws ++ rest else rest

  Absent-sent_to :
      (s : Subscription) (ws : List Webhook) → Absent s.webhook_id ws → sent_to s ws ≡ []
  Absent-sent_to s [] h = refl
  Absent-sent_to s (w ∷ ws) (other, h) = rw other (Absent-sent_to s ws h)

  add_target-tries :
      (s : Subscription) (o : Option Webhook) (ts : List WebhookTarget)
      → all_tries world payload (add_target s o ts)
        ≡ all_tries world payload (add_target s o []) ++ all_tries world payload ts
  add_target-tries s none ts = refl
  add_target-tries s (some w) ts = elim (Bool-cases w.enabled) [
    | inl e ↦ rw e (
        ap (λ l. l ++ all_tries world payload ts)
          (sym (append-nil (tries world payload (target s w)))))
    | inr e ↦ rw e refl
  ]

  found-sent_to :
      (s : Subscription) (ws : List Webhook)
      → DistinctIds ws
      → all_tries world payload (add_target s (find_webhook s.webhook_id ws) []) ≡ sent_to s ws
  found-sent_to s [] h = refl
  found-sent_to s (w ∷ ws) (absent, h) = elim (Bool-cases (eqb_ℕ s.webhook_id w.id)) [
    | inl e ↦
        let id_is : w.id ≡ s.webhook_id = ground (arith, e) in
        let none_left = Absent-sent_to s ws (subst (λ n. Absent n ws) id_is absent) in
        elim (Bool-cases w.enabled) [
          | inl on ↦ rw (e, on, none_left) refl
          | inr off ↦ rw (e, off, none_left) refl
        ]
    | inr e ↦ rw e (found-sent_to s ws h)
  ]

  target_rows-sent :
      (event_type : String) (ws : List Webhook) (ss : List Subscription)
      → DistinctIds ws
      → all_tries world payload (target_rows event_type ws ss) ≡ sent event_type ws ss
  target_rows-sent event_type ws [] h = refl
  target_rows-sent event_type ws (s ∷ ss) h =
      elim (Bool-cases ((s.event_type == event_type) || (s.event_type == "*"))) [
        | inl e ↦ rw e (
            add_target-tries s (find_webhook s.webhook_id ws) (target_rows event_type ws ss)
            ∙ rw (found-sent_to s ws h, target_rows-sent event_type ws ss h) refl)
        | inr e ↦ rw e (target_rows-sent event_type ws ss h)
      ]

-- If no two webhooks have one id, an event that serialises is sent, as that text, for each subscription
-- to its type or to `*` in turn, to the enabled webhook with its id, at that webhook's URL and signed
-- with its secret, once and again after each failure up to four times; nothing else is sent.
pub dispatch_event-requests :
    (world : World) (st : Tables) (event : PifpEvent) (payload : String)
    → DistinctIds st.webhooks
    → world.to_json event ≡ some payload
    → requests (dispatch_event world st event)
      ≡ sent world payload event.event_type st.webhooks st.webhook_subscriptions
unfolding dispatch_event get_webhooks_for_event
dispatch_event-requests world st event payload distinct h =
    dispatch_to-requests world event payload (get_webhooks_for_event event.event_type st) h
    ∙ target_rows-sent world payload event.event_type st.webhooks st.webhook_subscriptions distinct
