-- ===== src/Indexer/Webhooks/Targets.antt =====
-- Who is told of which events after `POST /webhooks` of backend/indexer/src/api.rs.
use Prim.Native.String.{String}
use text.Mathlib.Text.{◌==◌}
use text.Mathlib.TextEquality.{eq_iff}
use pifp_stellar.Base.{
  ℕ, ◌+◌, ◌≡◌, ◌<◌, arith, refl, inl, inr, Bool, true, false, not, List, [], ◌∷◌, some, none,
  if◌then◌else◌, ◌&&◌, ◌||◌, ◌∙◌, Bool-cases, Option-cases, eqb_ℕ,
}
use pifp_stellar.Base.Text.{member, trim, starts_with}
use pifp_stellar.Indexer.Webhooks.{
  Webhook, Subscription, Tables, WebhookTarget, NewWebhookRegistration, wanted, trimmed, or_all,
  has_subscription, subscribe, create_webhook, find_webhook, target_rows, get_webhooks_for_event,
  Registered, bad_request, created, register_webhook,
}

abbrev pub is_among : ℕ → List WebhookTarget → Bool
is_among id [] = false
is_among id (t ∷ ts) = (eqb_ℕ id t.webhook_id) || is_among id ts

-- Whether an event of a type is sent to a webhook.
abbrev pub notified : ℕ → String → Tables → Bool
notified id event_type st = is_among id (get_webhooks_for_event event_type st)

-- The subscriptions are of webhooks with an id below the next one.
abbrev pub Below : ℕ → List Subscription → Type 0
Below n [] = Unit
Below n (s ∷ ss) = (s.webhook_id < n) × Below n ss

-- An enabled webhook's id.
abbrev is_enabled : ℕ → List Webhook → Bool
is_enabled id ws = elim (find_webhook id ws) [ none ↦ false | some w ↦ w.enabled ]

find_webhook-id :
    (id : ℕ) (ws : List Webhook) (w : Webhook) → find_webhook id ws ≡ some w → w.id ≡ id
find_webhook-id id [] w h = absurd (ground (arith, h))
find_webhook-id id (x ∷ xs) w h = elim (Bool-cases (eqb_ℕ id x.id)) [
  | inl e ↦ let same : x ≡ w = ground (arith, e, h) in ground (arith, same, e)
  | inr e ↦ find_webhook-id id xs w (ground (arith, e, h))
]

-- The target_rows, seen from one webhook.
target_rows-is_among :
    (id : ℕ) (event_type : String) (ws : List Webhook) (ss : List Subscription)
    → is_among id (target_rows event_type ws ss)
      ≡ (is_enabled id ws && (has_subscription id event_type ss || has_subscription id "*" ss))
target_rows-is_among id event_type ws [] = ground arith
target_rows-is_among id event_type ws (s ∷ ss) = elim (Bool-cases (eqb_ℕ id s.webhook_id)) [
  | inl f ↦
      let same : id ≡ s.webhook_id = ground (arith, f) in
      elim (Option-cases (find_webhook s.webhook_id ws)) [
        | inl e ↦ ground (arith, e, same, target_rows-is_among id event_type ws ss)
        | inr (w, e) ↦ ground (
          arith,
          e,
          same,
          find_webhook-id s.webhook_id ws w e,
          target_rows-is_among id event_type ws ss,
        )
      ]
  | inr f ↦ elim (Option-cases (find_webhook s.webhook_id ws)) [
    | inl e ↦ ground (arith, e, f, target_rows-is_among id event_type ws ss)
    | inr (w, e) ↦
        ground (
          arith,
          e,
          f,
          find_webhook-id s.webhook_id ws w e,
          target_rows-is_among id event_type ws ss,
        )
  ]
]

has-subscribe :
    (id other : ℕ) (event_type : String) (vs : List String) (ss : List Subscription)
    → has_subscription id event_type (subscribe other vs ss)
      ≡ (has_subscription id event_type ss || (eqb_ℕ id other && member event_type vs))
has-subscribe id other event_type [] ss = ground arith
has-subscribe id other event_type (v ∷ vs) ss = ground (
  arith,
  has-subscribe id other event_type vs ss,
  has-subscribe id other event_type vs (record { webhook_id = other; event_type = v } ∷ ss),
  eq_iff event_type v,
  eq_iff v event_type,
)

has-Below :
    (n : ℕ) (event_type : String) (ss : List Subscription)
    → Below n ss
    → has_subscription n event_type ss ≡ false
has-Below n event_type [] b = refl
has-Below n event_type (s ∷ ss) (lt, b) = ground (arith, has-Below n event_type ss b, lt)

weaken-Below : (n : ℕ) (ss : List Subscription) → Below n ss → Below (n + 1) ss
weaken-Below n [] b = tt
weaken-Below n (s ∷ ss) (lt, b) = (ground arith, weaken-Below n ss b)

subscribe-Below :
    (n id : ℕ) (vs : List String) (ss : List Subscription)
    → id < n
    → Below n ss
    → Below n (subscribe id vs ss)
subscribe-Below n id [] ss lt b = b
subscribe-Below n id (v ∷ vs) ss lt b = elim (Bool-cases (has_subscription id v ss)) [
  | inl e ↦ rw (subscribe, e) (subscribe-Below n id vs ss lt b)
  | inr e ↦
      let s : Subscription = record { webhook_id = id; event_type = v } in
      rw (subscribe, e) (subscribe-Below n id vs (s ∷ ss) lt (lt, b))
]

-- A type is asked for by an entry that is it but for white space around it, and is not blank.
abbrev pub asks_for : String → List String → Bool
asks_for event_type [] = false
asks_for event_type (v ∷ vs) =
    (not (trim v == "") && (trim v == event_type)) || asks_for event_type vs

abbrev pub all_blank : List String → Bool
all_blank [] = true
all_blank (v ∷ vs) = (trim v == "") && all_blank vs

-- The types that a registration is told of: those asked for, or all if `*` is asked for or nothing is.
abbrev pub is_told : String → List String → Bool
is_told event_type vs = asks_for event_type vs || asks_for "*" vs || all_blank vs

member-trimmed :
    (event_type : String) (vs : List String)
    → member event_type (trimmed vs) ≡ asks_for event_type vs
member-trimmed event_type [] = refl
member-trimmed event_type (v ∷ vs) = elim (Bool-cases (trim v == "")) [
  | inl e ↦ ground (arith, e, member-trimmed event_type vs)
  | inr e ↦ ground (
    arith,
    e,
    member-trimmed event_type vs,
    eq_iff event_type (trim v),
    eq_iff (trim v) event_type,
  )
]

is_empty : List String → Bool
is_empty [] = true
is_empty (v ∷ vs) = false

trimmed-all_blank : (vs : List String) → is_empty (trimmed vs) ≡ all_blank vs
unfolding is_empty
trimmed-all_blank [] = refl
trimmed-all_blank (v ∷ vs) = elim (Bool-cases (trim v == "")) [
  | inl e ↦ ground (arith, e, trimmed-all_blank vs)
  | inr e ↦ ground (arith, e)
]

told_by :
    (event_type : String) (vs : List String)
    → (member event_type (or_all vs) || member "*" (or_all vs))
      ≡ (member event_type vs || member "*" vs || is_empty vs)
unfolding is_empty
told_by event_type [] = ground arith
told_by event_type (v ∷ vs) = ground arith

wanted-is_told :
    (event_type : String) (vs : List String)
    → (member event_type (wanted vs) || member "*" (wanted vs)) ≡ is_told event_type vs
wanted-is_told event_type vs =
    told_by event_type (trimmed vs)
    ∙ rw (member-trimmed event_type vs, member-trimmed "*" vs, trimmed-all_blank vs) refl

create-notified :
    (input : NewWebhookRegistration) (st : Tables) (id : ℕ) (event_type : String)
    → Below st.next_id st.webhook_subscriptions
    → notified id event_type (create_webhook input st).0 ≡ (
        if eqb_ℕ id st.next_id
        then is_told event_type input.event_types
        else notified id event_type st)
unfolding create_webhook get_webhooks_for_event
create-notified input st id event_type b =
    let ws = (create_webhook input st).0.webhooks in
    let ss = (create_webhook input st).0.webhook_subscriptions in
    ground (
      arith,
      wanted-is_told event_type input.event_types,
      target_rows-is_among id event_type ws ss,
      target_rows-is_among id event_type st.webhooks st.webhook_subscriptions,
      has-subscribe id st.next_id event_type (wanted input.event_types) st.webhook_subscriptions,
      has-subscribe id st.next_id "*" (wanted input.event_types) st.webhook_subscriptions,
      has-Below st.next_id event_type st.webhook_subscriptions b,
      has-Below st.next_id "*" st.webhook_subscriptions b,
    )

abbrev pub is_created : Registered → Bool
is_created (bad_request _) = false
is_created (created _) = true

-- A request that the API accepts.
abbrev pub acceptable : NewWebhookRegistration → Bool
acceptable p =
    (starts_with p.url "http://" || starts_with p.url "https://") && not (trim p.secret == "")

-- If the subscriptions are of webhooks with an id below the next one, then a registration is accepted
-- exactly when the URL has an HTTP scheme and the secret is not blank. If so, the new webhook, and no
-- other one but those that were before, is told of the events whose type is among the trimmed types
-- that are not blank, and of all events if `*` is among these or there are none; a refused one
-- changes nothing. The subscriptions are again of webhooks with an id below the next one.
pub register_webhook-notified :
    (payload : NewWebhookRegistration) (st : Tables)
    → Below st.next_id st.webhook_subscriptions
    → let (st', answer) = register_webhook payload st in
      (is_created answer ≡ acceptable payload)
      × ((id : ℕ) (event_type : String)
          → notified id event_type st' ≡ (
              if acceptable payload && eqb_ℕ id st.next_id
              then is_told event_type payload.event_types
              else notified id event_type st))
      × Below st'.next_id st'.webhook_subscriptions
unfolding register_webhook create_webhook
register_webhook-notified p st b =
    elim (Bool-cases (starts_with p.url "http://" || starts_with p.url "https://")) [
      | inl url ↦ elim (Bool-cases (trim p.secret == "")) [
        | inl blank ↦ rw (register_webhook, url, blank) (refl, λ id event_type. refl, b)
        | inr secret ↦
            rw (register_webhook, url, secret)
              (
                refl,
                λ id event_type. create-notified p st id event_type b,
                subscribe-Below (st.next_id + 1) st.next_id (wanted p.event_types)
                    st.webhook_subscriptions (ground arith)
                    (weaken-Below st.next_id st.webhook_subscriptions b),
              )
      ]
      | inr url ↦ rw (register_webhook, url) (refl, λ id event_type. refl, b)
    ]
