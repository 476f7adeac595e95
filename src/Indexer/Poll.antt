-- ===== src/Indexer/Poll.antt =====
-- The polling task, backend/indexer/src/indexer.rs: where it resumes, one poll, and poll after poll.
pub mod Resume
pub mod Restart
use Prim.Native.String.{String}
use pifp_stellar.Base.{ℕ, Bool, true, false, List, [], ◌∷◌, Option, none, some, if◌then◌else◌, leb}
use pifp_stellar.Base.Int.{pos, ltb_ℤ}
use pifp_stellar.Base.Words.{u32_of_int, u32_of_u64}
use pifp_stellar.Indexer.Config.{Config}
use pifp_stellar.Indexer.Kinds.{PifpEvent}
use pifp_stellar.Indexer.Decode.{RawEvent, Parsers, decode_events}
use pifp_stellar.Indexer.Fetch.{
  EventsResult, Reply, Answer, fetched, http_error, hard_error, empty_result, fetch_events,
}
use pifp_stellar.Indexer.Store.{
  Store, get_last_ledger, get_cursor_string, save_cursor, Insertion, insert_events_with_new,
}

-- Where the next poll starts.
pub record Position : Type 0 where
  pub current_ledger : ℕ
  pub cursor : Option String

abbrev pub persisted_ledger : Config → Store → ℕ
persisted_ledger config st =
    if ltb_ℤ (pos 0) (get_last_ledger st)
    then u32_of_int (get_last_ledger st)
    else config.start_ledger

abbrev start_cursor : Option ℕ → Option String → Option String → Option String
start_cursor none none saved = saved
start_cursor _ backfill saved = backfill

-- The start of `run`.
unfoldable pub resume : Config → Store → Position
resume config st = record {
  current_ledger = elim config.backfill_start_ledger [
    | none ↦ persisted_ledger config st
    | some l ↦ l
  ];
  cursor = start_cursor config.backfill_start_ledger config.backfill_cursor (get_cursor_string st);
}

-- How a poll ends: `Ok`, `Err`, or the process aborts.
pub data PollResult : Type 0 where
  polled : Position → PollResult
  poll_error : PollResult
  aborted : PollResult

-- The tables after a poll, its result, whether the cache is invalidated, and the events that tasks
-- are spawned for.
pub record Poll : Type 0 where
  pub store : Store
  pub result : PollResult
  pub invalidated : Bool
  pub dispatched : List PifpEvent

abbrev pub next_ledger : ℕ → Option ℕ → ℕ
next_ledger start none = start
next_ledger start (some l) = if leb (u32_of_u64 l) start then start else u32_of_u64 l

abbrev pub next_position : ℕ → EventsResult → Position
next_position start page = record {
  current_ledger = next_ledger start page.latest_ledger;
  cursor = page.cursor;
}

abbrev save : Position → Store → Store
save at st = save_cursor (pos at.current_ledger) at.cursor st

abbrev is_some_event : List PifpEvent → Bool
is_some_event [] = false
is_some_event (_ ∷ _) = true

abbrev pub stored : Position → Store → List PifpEvent → Poll
stored at st new = record {
  store = save at st;
  result = polled at;
  invalidated = is_some_event new;
  dispatched = new;
}

abbrev pub after_insertion : Position → Insertion → Poll
after_insertion at r = elim r.inserted [
  | none ↦ record { store = r.store; result = aborted; invalidated = false; dispatched = [] }
  | some new ↦ stored at r.store new
]

-- The positions of the polls, and the tables at the end.
pub record Session : Type 0 where
  pub store : Store
  pub positions : List Position

abbrev then_from : Position → Session → Session
then_from at s = record s { positions = at ∷ s.positions }

abbrev stay : Store → Position → Session
stay st at = record { store = st; positions = at ∷ [] }

module _ (parsers : Parsers) (config : Config) where
  abbrev pub store_events : Position → Store → List RawEvent → Poll
  store_events at st [] = stored at st []
  store_events at st (raw ∷ raws) =
      after_insertion at
        (insert_events_with_new st (decode_events parsers (raw ∷ raws) config.contract_ids))

  abbrev pub after_fetch : ℕ → Store → Answer → Poll
  after_fetch start st (fetched page) = store_events (next_position start page) st page.events
  after_fetch start st _ = record {
    store = st;
    result = poll_error;
    invalidated = false;
    dispatched = [];
  }

  -- One poll, against the replies of the RPC node; `none` while these do not suffice.
  unfoldable pub poll_once : Store → Position → List Reply → Option Poll
  poll_once st at replies =
      elim ((fetch_events parsers config.contract_ids at.current_ledger at.cursor
        config.events_per_page replies).answer) [
          | none ↦ none
          | some answer ↦ some (after_fetch at.current_ledger st answer)
        ]

  -- The loop of `run`, a list of replies for each poll; an abort and a list that does not suffice end
  -- it.
  unfoldable pub run_from : Store → Position → List (List Reply) → Session
  run_from st at [] = stay st at
  run_from st at (replies ∷ polls) = elim (poll_once st at replies) [
    | none ↦ stay st at
    | some p ↦ elim p.result [
      | polled next ↦ then_from at (run_from p.store next polls)
      | poll_error ↦ then_from at (run_from p.store at polls)
      | aborted ↦ stay p.store at
    ]
  ]

  unfoldable pub run : Store → List (List Reply) → Session
  run st polls = run_from st (resume config st) polls
