-- ===== src/Indexer/Poll/Resume.antt =====
-- What a poll of backend/indexer/src/indexer.rs stores, and where the polling goes on, also after a restart.
use pifp_stellar.Base.{
  ℕ, ◌≡◌, ◌<◌, ◌≤◌, ◌^◌, arith, refl, inl, inr, true, List, [], ◌∷◌, none, some, ◌⊎◌, subst,
  Option-cases, inl, ◌%◌, Option,
}
use pifp_stellar.Base.Int.{pos}
use Prim.Native.Nat.{max}
use pifp_stellar.Base.Words.{u32_of_int, u32_of_u64}
use pifp_stellar.Indexer.Kinds.{PifpEvent}
use pifp_stellar.Indexer.Decode.{RawEvent, Parsers, decode_events}
use pifp_stellar.Indexer.Fetch.{EventsResult, Reply, Answer, fetched, fetch_events}
use pifp_stellar.Indexer.Fetch.Waits.{first_answer, fetch_events_lem}
use pifp_stellar.Indexer.Store.{
  Store, get_last_ledger, get_cursor_string, save_cursor, insert_events_with_new,
}
use pifp_stellar.Indexer.Store.Counts.{Counted, fits}
use pifp_stellar.Indexer.Store.Insert.{save_cursor-Counted, insert_events-Counted, rev_append}
use pifp_stellar.Indexer.Config.{Config}
use pifp_stellar.Indexer.Poll.{
  Position, next_ledger, resume, Poll, PollResult, polled, poll_error, aborted, next_position,
  poll_once, run_from, run, stored, after_insertion, store_events, after_fetch,
}

-- The higher of a ledger and a page's latest one, as a u32.
abbrev pub highest : ℕ → Option ℕ → ℕ
highest start none = start
highest start (some latest) = max start (latest % 2 ^ 32)

next_ledger-highest :
    (start : ℕ) (latest : Option ℕ) → next_ledger start latest ≡ highest start latest
unfolding u32_of_u64
next_ledger-highest start none = refl
next_ledger-highest start (some latest) = ground arith

-- That a poll ends at a position, with the events added, handed on and counted.
pub record Stores (at : Position) (st : Store) (evs : List PifpEvent) (p : Poll) : Type 0 where
  pub ends : p.result ≡ polled at
  pub hands_on : p.dispatched ≡ evs
  pub rows : p.store.events ≡ rev_append evs st.events
  pub counted : Counted p.store
  pub ledger : get_last_ledger p.store ≡ pos at.current_ledger
  pub cursor : get_cursor_string p.store ≡ at.cursor

pub stored-Stores :
    (at : Position) (st old : Store) (evs : List PifpEvent)
    → st.events ≡ rev_append evs old.events
    → Counted st
    → Stores at old evs (stored at st evs)
unfolding get_last_ledger get_cursor_string save_cursor
stored-Stores at st old evs h c = record {
  ends = refl;
  hands_on = refl;
  rows = h;
  counted = save_cursor-Counted (pos at.current_ledger) at.cursor st c;
  ledger = refl;
  cursor = refl;
}

after_insertion-Stores :
    (at : Position) (st : Store) (evs : List PifpEvent)
    → Counted st
    → fits st.project_stats.total_tvl evs ≡ true
    → Stores at st evs (after_insertion at (insert_events_with_new st evs))
after_insertion-Stores at st evs c h =
    let (all, rows, counted) = insert_events-Counted evs st c h in
    rw (after_insertion, all)
      (stored-Stores at (insert_events_with_new st evs).store st evs rows counted)

-- Without a backfill, a restart on tables that a poll left goes on where that poll would have: at
-- its next ledger, when this is not 0, and its cursor.
pub resume-Stores :
    (config : Config) (next : Position) (st : Store) (evs : List PifpEvent) (p : Poll)
    → config.backfill_start_ledger ≡ none
    → config.backfill_cursor ≡ none
    → 0 < next.current_ledger
    → next.current_ledger < 2 ^ 32
    → Stores next st evs p
    → resume config p.store ≡ next
unfolding resume u32_of_int
resume-Stores config next st evs p no_start no_cursor above below stores =
    ground (arith, no_start, no_cursor, stores.ledger, stores.cursor)

-- No poll starts at a lower ledger than the one before.
abbrev pub Rises : ℕ → List Position → Type 0
Rises l [] = Unit
Rises l (at ∷ ats) = (l ≤ at.current_ledger) × Rises at.current_ledger ats

abbrev Goes : ℕ → PollResult → Type 0
Goes l (polled at) = l ≤ at.current_ledger
Goes l _ = Unit

result-cases :
    (r : PollResult) → ((at : Position) × (r ≡ polled at)) ⊎ ((r ≡ poll_error) ⊎ (r ≡ aborted))
result-cases (polled at) = inl (at, refl)
result-cases poll_error = inr (inl refl)
result-cases aborted = inr (inr refl)

module _ (parsers : Parsers) (config : Config) where
  -- The events of a page; none for an empty page, for which nothing is decoded.
  abbrev pub decoded : List RawEvent → List PifpEvent
  decoded raws = decode_events parsers raws config.contract_ids

  store_events-Stores :
      (at : Position) (st : Store) (raws : List RawEvent)
      → Counted st
      → fits st.project_stats.total_tvl (decoded raws) ≡ true
      → Stores at st (decoded raws) (store_events parsers config at st raws)
  unfolding decode_events
  store_events-Stores at st [] c h = stored-Stores at st st [] refl c
  store_events-Stores at st (raw ∷ raws) c h =
      after_insertion-Stores at st (decoded (raw ∷ raws)) c h

  -- If the tables are those that the stored events make, and the first reply that ends the fetch is a
  -- page whose events keep the running sums of the value locked in the range of i128, then the poll
  -- ends, and adds, counts and hands to the webhooks the events that the page decodes to; it goes on,
  -- and the saved cursor says so, at the page's cursor and the page's latest ledger, or at the
  -- ledger that it started from where that is higher or the page gives none.
  pub poll_once-Stores :
      (st : Store) (at : Position) (replies : List Reply) (page : EventsResult)
      → Counted st
      → first_answer replies ≡ some (fetched page)
      → fits st.project_stats.total_tvl (decoded page.events) ≡ true
      → (p : Poll) × (poll_once parsers config st at replies ≡ some p)
        × Stores
            (record {
              current_ledger = highest at.current_ledger page.latest_ledger;
              cursor = page.cursor;
            })
            st
            (decoded page.events)
            p
  unfolding poll_once
  poll_once-Stores st at replies page c e h =
      let (answer, _, _) =
        fetch_events_lem parsers config.contract_ids at.current_ledger at.cursor
          config.events_per_page replies in
      let next = next_position at.current_ledger page in
      (
        store_events parsers config next st page.events,
        rw (poll_once, answer, e) refl,
        subst
            (λ l.
              Stores (record { current_ledger = l; cursor = page.cursor }) st (decoded page.events)
                (store_events parsers config next st page.events))
            (next_ledger-highest at.current_ledger page.latest_ledger)
            (store_events-Stores next st page.events c h),
      )

  store_events-Goes :
      (l : ℕ) (at : Position) (st : Store) (raws : List RawEvent)
      → l ≤ at.current_ledger
      → Goes l (store_events parsers config at st raws).result
  store_events-Goes l at st [] h = h
  store_events-Goes l at st (raw ∷ raws) h =
      elim (Option-cases (insert_events_with_new st (decoded (raw ∷ raws))).inserted) [
        | inl e ↦ rw (after_insertion, e) tt
        | inr (new, e) ↦ rw (after_insertion, e) h
      ]

  after_fetch-Goes :
      (start : ℕ) (st : Store) (answer : Answer)
      → Goes start (after_fetch parsers config start st answer).result
  after_fetch-Goes start st (fetched page) =
      store_events-Goes start (next_position start page) st page.events (ground arith)
  after_fetch-Goes start st _ = tt

  poll_once-Goes :
      (st : Store) (at : Position) (replies : List Reply) (p : Poll)
      → poll_once parsers config st at replies ≡ some p
      → Goes at.current_ledger p.result
  unfolding poll_once
  poll_once-Goes st at replies p h =
      elim (Option-cases (
        (fetch_events parsers config.contract_ids at.current_ledger at.cursor config.events_per_page
          replies).answer)) [
            | inl e ↦ absurd (ground (arith, e, h))
            | inr (a, e) ↦
                let q = after_fetch parsers config at.current_ledger st a in
                let same : q ≡ p = ground (arith, e, h) in
                subst (λ r. Goes at.current_ledger r.result) same
                  (after_fetch-Goes at.current_ledger st a)
          ]

  run_from-Rises :
      (st : Store) (l : ℕ) (at : Position) (polls : List (List Reply))
      → l ≤ at.current_ledger
      → Rises l (run_from parsers config st at polls).positions
  unfolding run_from
  run_from-Rises st l at [] h = (h, tt)
  run_from-Rises st l at (replies ∷ polls) h =
      elim (Option-cases (poll_once parsers config st at replies)) [
        | inl e ↦ rw (run_from, e) (h, tt)
        | inr (p, e) ↦ elim (result-cases p.result) [
          | inl (next, f) ↦
              let goes : Goes at.current_ledger (polled next) =
                subst (Goes at.current_ledger) f (poll_once-Goes st at replies p e) in
              rw (run_from, e, f) (h, run_from-Rises p.store at.current_ledger next polls goes)
          | inr (inl f) ↦
              rw (run_from, e, f)
                (h, run_from-Rises p.store at.current_ledger at polls (ground arith))
          | inr (inr f) ↦ rw (run_from, e, f) (h, tt)
        ]
      ]

  -- From the start of `run` on, whatever the node replies, no poll starts at a lower ledger than the
  -- one before it.
  pub run-Rises :
      (st : Store) (polls : List (List Reply))
      → Rises (resume config st).current_ledger (run parsers config st polls).positions
  unfolding run
  run-Rises st polls =
      run_from-Rises st (resume config st).current_ledger (resume config st) polls (ground arith)
