-- ===== src/Indexer/Webhooks/Delivery/Attempts.antt =====
-- How often `deliver_with_retry` of backend/indexer/src/webhook.rs tries, and what `dispatch_event` sends.
use Prim.Native.String
use Prim.Native.String.{String}
use pifp_stellar.Base.{
  none, not, ltb, ◌||◌, false, ℕ, ◌-◌, ◌≡◌, arith, refl, inl, inr, Bool, List, [], ◌∷◌, some,
  if◌then◌else◌, Bool-cases, zero, suc,
}
use pifp_stellar.Indexer.Webhooks.{WebhookTarget}
use pifp_stellar.Indexer.Webhooks.Delivery.{
  World, Posted, status, failed, Reply, status_code, error_text, Request, Delivery, is_success,
  reply_at, log_webhook_delivery_attempt, attempts_from, deliver_with_retry,
}

abbrev pub take {ℓ} : {A : Type ℓ} → ℕ → List A → List A
take zero xs = []
take (suc n) [] = []
take (suc n) (x ∷ xs) = x ∷ take n xs

abbrev pub repeat {ℓ} : {A : Type ℓ} → ℕ → A → List A
repeat zero x = []
repeat (suc n) x = x ∷ repeat n x

-- A status from 200 to 299.
abbrev pub accepted : Posted → Bool
accepted (status n) = not (ltb n 200 || ltb 299 n)
accepted (failed err) = false

accepted-is_success : (posted : Posted) → is_success posted ≡ accepted posted
accepted-is_success (status n) = ground arith
accepted-is_success (failed err) = refl

-- The row of an attempt.
abbrev pub row_of : World → WebhookTarget → String → ℕ → Reply → Delivery
row_of world target payload attempt reply = record {
  webhook_id = target.webhook_id;
  event_type = target.event_type;
  payload = payload;
  status_code = elim reply.posted [ status n ↦ some n | failed err ↦ none ];
  success = accepted reply.posted;
  attempt = attempt;
  error = elim reply.posted [
    | status n ↦
        if accepted (status n)
        then none
        else some (String.◌++◌ "Non-success HTTP status: " (world.to_string n))
    | failed err ↦ some err
  ];
  latency_ms = reply.elapsed_ms;
}

error_text-posted :
    (world : World) (posted : Posted)
    → error_text world posted ≡ (elim posted [
      | status n ↦
          if accepted (status n)
          then none
          else some (String.◌++◌ "Non-success HTTP status: " (world.to_string n))
      | failed err ↦ some err
    ])
error_text-posted world (status n) = rw (accepted-is_success (status n)) refl
error_text-posted world (failed err) = refl

status_code-posted :
    (posted : Posted) → status_code posted ≡ (elim posted [ status n ↦ some n | failed err ↦ none ])
status_code-posted (status n) = refl
status_code-posted (failed err) = refl

log-row_of :
    (world : World) (target : WebhookTarget) (payload signature : String) (attempt : ℕ)
    (reply : Reply)
    → log_webhook_delivery_attempt world target payload signature attempt reply
      ≡ row_of world target payload attempt reply
log-row_of world target payload signature attempt reply = λ i. record {
  webhook_id = target.webhook_id;
  event_type = target.event_type;
  payload = payload;
  status_code = status_code-posted reply.posted i;
  success = accepted-is_success reply.posted i;
  attempt = attempt;
  error = error_text-posted world reply.posted i;
  latency_ms = reply.elapsed_ms;
}

module _ (world : World) (target : WebhookTarget) (payload signature : String) where
  -- The request of every attempt, and the reply to one.
  abbrev pub request_of : Request
  request_of = record {
    url = target.url;
    signature = signature;
    event_type = target.event_type;
    body = payload;
  }

  abbrev pub reply_to : ℕ → Reply
  reply_to attempt = world.post attempt request_of

  abbrev pub succeeds : ℕ → Bool
  succeeds attempt = accepted (reply_to attempt).posted

  -- The first attempt that succeeds, or the fourth.
  abbrev pub last_attempt : ℕ
  last_attempt = if succeeds 1 then 1 else if succeeds 2 then 2 else if succeeds 3 then 3 else 4

  abbrev pub row : ℕ → Delivery
  row attempt = row_of world target payload attempt (reply_to attempt)

  accepted_at : (n : ℕ) → is_success (reply_at world target payload signature n).posted ≡ succeeds n
  accepted_at n = accepted-is_success (reply_to n).posted

  logged :
      (n : ℕ)
      → log_webhook_delivery_attempt world target payload signature n
          (reply_at world target payload signature n)
        ≡ row n
  logged n = log-row_of world target payload signature n (reply_to n)

  -- A delivery tries once more after each reply that is not a status from 200 to 299, at most four
  -- times, logs one row for each attempt, numbered from 1 on, with its status, error and time, and
  -- sleeps half a second, one and two between them.
  pub deliver_with_retry_lem :
      let n = last_attempt in
      let run = deliver_with_retry world target payload signature in
      (run.requests ≡ repeat n request_of)
      × (run.deliveries ≡ take n (row 1 ∷ row 2 ∷ row 3 ∷ row 4 ∷ []))
      × (run.sleeps ≡ take (n - 1) (500 ∷ 1000 ∷ 2000 ∷ []))
  unfolding deliver_with_retry attempts_from
  deliver_with_retry_lem = elim (Bool-cases (succeeds 1)) [
    | inl a ↦ rw (logged 1, accepted_at 1, a) (refl, refl, refl)
    | inr a ↦ elim (Bool-cases (succeeds 2)) [
      | inl b ↦ rw (logged 1, logged 2, accepted_at 1, accepted_at 2, a, b) (refl, refl, refl)
      | inr b ↦ elim (Bool-cases (succeeds 3)) [
        | inl c ↦
            rw (logged 1, logged 2, logged 3, accepted_at 1, accepted_at 2, accepted_at 3, a, b, c)
              (refl, refl, refl)
        | inr c ↦ elim (Bool-cases (succeeds 4)) [
          | inl d ↦
              rw
                (
                  logged 1,
                  logged 2,
                  logged 3,
                  logged 4,
                  accepted_at 1,
                  accepted_at 2,
                  accepted_at 3,
                  accepted_at 4,
                  a,
                  b,
                  c,
                  d,
                )
                (refl, refl, refl)
          | inr d ↦
              rw
                (
                  logged 1,
                  logged 2,
                  logged 3,
                  logged 4,
                  accepted_at 1,
                  accepted_at 2,
                  accepted_at 3,
                  accepted_at 4,
                  a,
                  b,
                  c,
                  d,
                )
                (refl, refl, refl)
        ]
      ]
    ]
  ]
