-- ===== src/Indexer/Fetch/Waits.antt =====
-- The end, the waits and the requests of `fetch_events` of backend/indexer/src/rpc.rs.
use Prim.Native.String.{String}
use pifp_stellar.Indexer.Json.{Value}
use native.Mathlib.Nat.{pow-succ'}
use pifp_stellar.Base.{
  ℕ, zero, suc, ◌+◌, ◌*◌, ◌^◌, ◌≤◌, ◌≡◌, arith, refl, Bool, true, false, List, [], ◌∷◌, Option,
  none, some, if◌then◌else◌, length, ◌||◌, ap, ◌∙◌,
}
use pifp_stellar.Base.Int.{negsuc, eqb_ℤ}
use pifp_stellar.Indexer.Json.{or_else}
use pifp_stellar.Indexer.Decode.{Parsers}
use pifp_stellar.Indexer.Fetch.{
  RpcError, EventsResult, add_wait, backed_off, Reply, request_failed, too_many_requests, bad_body,
  body, Answer, fetched, http_error, hard_error, empty_result, FetchState, initial_state, min, Run,
  fetch_from, fetch_events, request,
}

-- A reply that ends the loop, with the result that it gives.
abbrev error_answer : RpcError → Option Answer
error_answer err =
    if eqb_ℤ err.code (negsuc 32599) || eqb_ℤ err.code (negsuc 32600)
    then some (hard_error err)
    else none

abbrev body_answer : Option RpcError → Option EventsResult → Option Answer
body_answer (some err) result = error_answer err
body_answer none none = some empty_result
body_answer none (some r) = some (fetched r)

abbrev pub answer_of : Reply → Option Answer
answer_of request_failed = none
answer_of too_many_requests = none
answer_of bad_body = some http_error
answer_of (body b) = body_answer b.error b.result

abbrev pub first_answer : List Reply → Option Answer
first_answer [] = none
first_answer (r ∷ rs) = or_else (answer_of r) (first_answer rs)

-- The wait before the next try after `k` others, and the first `n` of them from there.
abbrev pub nth_wait : ℕ → ℕ
nth_wait k = min (2 ^ suc k) 60

abbrev pub schedule : ℕ → ℕ → List ℕ
schedule k zero = []
schedule k (suc n) = nth_wait k ∷ schedule (suc k) n

doubled : (k : ℕ) → min (nth_wait k * 2) 60 ≡ nth_wait (suc k)
doubled k = let e : 2 ^ suc (suc k) ≡ 2 * 2 ^ suc k = pow-succ' 2 (suc k) in ground (arith, e)

-- The requests over the waits: one more, and another while the topics are still sent.
abbrev pub tries : Bool → ℕ
tries true = 2
tries false = 1

-- A run whose waits are those from the `k`th on, and that sends at most `t` requests more than it waits.
abbrev pub Paced : ℕ → ℕ → Run → Type 0
Paced k t run =
    (run.waits ≡ schedule k (length run.waits)) × (length run.requests ≤ length run.waits + t)

waited :
    (k t n : ℕ) (p : Value) (run : Run)
    → n ≡ nth_wait k
    → Paced (suc k) t run
    → Paced k t (add_wait p n run)
waited k t n p run h (a, b) = (ground (arith, h, a), ground (arith, b))

next_wait : (k n : ℕ) → n ≡ nth_wait k → min (n * 2) 60 ≡ nth_wait (suc k)
next_wait k n h = ap (λ x. min (x * 2) 60) h ∙ doubled k

module _ (parsers : Parsers) (ids : List String) (start : ℕ) (cursor : Option String)
    (limit : ℕ) where
  answer_lem :
      (st : FetchState) (replies : List Reply)
      → (fetch_from parsers ids start cursor limit st replies).answer ≡ first_answer replies
  unfolding fetch_from
  answer_lem st [] = refl
  answer_lem st (request_failed ∷ rs) = answer_lem _ rs
  answer_lem st (too_many_requests ∷ rs) = answer_lem _ rs
  answer_lem st (bad_body ∷ rs) = refl
  answer_lem st (body b ∷ rs) = ground (
    arith,
    answer_lem (record st { use_topic_filter = false }) rs,
    answer_lem (record st { backoff = min (st.backoff * 2) 60 }) rs,
  )

  again :
      (k : ℕ) (st : FetchState) (replies : List Reply)
      → st.backoff ≡ nth_wait k
      → Paced
          (suc k)
          (tries st.use_topic_filter)
          (fetch_from parsers ids start cursor limit (backed_off st) replies)
      → Paced k (tries st.use_topic_filter) (
          add_wait
            (request parsers ids start cursor limit st)
            st.backoff
            (fetch_from parsers ids start cursor limit (backed_off st) replies))
  again k st replies h p =
      waited k (tries st.use_topic_filter) st.backoff (request parsers ids start cursor limit st)
        (fetch_from parsers ids start cursor limit (backed_off st) replies) h p

  waits_lem :
      (k : ℕ) (st : FetchState) (replies : List Reply)
      → st.backoff ≡ nth_wait k
      → Paced k (tries st.use_topic_filter) (fetch_from parsers ids start cursor limit st replies)
  unfolding fetch_from
  waits_lem k st [] h = (refl, ground arith)
  waits_lem k st (request_failed ∷ rs) h =
      again k st rs h (waits_lem (suc k) (backed_off st) rs (next_wait k st.backoff h))
  waits_lem k st (too_many_requests ∷ rs) h =
      again k st rs h (waits_lem (suc k) (backed_off st) rs (next_wait k st.backoff h))
  waits_lem k st (bad_body ∷ rs) h = (refl, ground arith)
  waits_lem k st (body b ∷ rs) h = ground (
    arith,
    again k st rs h (waits_lem (suc k) (backed_off st) rs (next_wait k st.backoff h)),
    waits_lem k (record st { use_topic_filter = false }) rs h,
  )

  -- Whatever the node replies, `fetch_events` gives the result of the first reply that ends it (a
  -- page, a body that does not parse or has neither page nor error, or a hard RPC error); its waits are 2, 4, 8, 16, 32
  -- seconds and then 60 each; and it sends at most two requests more than it waits.
  pub fetch_events_lem :
      (replies : List Reply)
      → let run = fetch_events parsers ids start cursor limit replies in
        (run.answer ≡ first_answer replies)
        × (run.waits ≡ schedule 0 (length run.waits))
        × (length run.requests ≤ length run.waits + 2)
  unfolding fetch_events
  fetch_events_lem replies =
      let (waits, requests) = waits_lem 0 initial_state replies refl in
      (answer_lem initial_state replies, waits, requests)
