-- ===== src/Indexer/Reads.antt =====
-- The reads of events in backend/indexer/src/db.rs, and their handlers in backend/indexer/src/api.rs.
pub mod History
use Prim.Native.String.{String}
use pifp_stellar.Base.{
  ℕ, Bool, not, ◌&&◌, ◌||◌, Option, none, some, List, [], ◌∷◌, suc, length, ltb, get_or,
  if◌then◌else◌,
}
use pifp_stellar.Base.Int.{ℤ, pos, ltb_ℤ}
use pifp_stellar.Base.Order.{sort_by}
use pifp_stellar.Base.Pages.{limit_offset}
use pifp_stellar.Base.Text.{same_option}
use pifp_stellar.Indexer.Kinds.{PifpEvent}
use pifp_stellar.Indexer.Store.{Store}

-- A row of `events`: the latest one stands first in the table, and the ids count from 1.
pub record EventRecord : Type 0 where
  pub id : ℕ
  pub event : PifpEvent

abbrev pub next_row : PifpEvent → List PifpEvent → EventRecord
next_row ev evs = record { id = suc (length evs); event = ev }

abbrev pub numbered : List PifpEvent → List EventRecord
numbered [] = []
numbered (ev ∷ evs) = next_row ev evs ∷ numbered evs

-- `WHERE project_id = ?1`.
abbrev pub of_project : String → List EventRecord → List EventRecord
of_project id [] = []
of_project id (r ∷ rs) =
    let rest = of_project id rs in if same_option r.event.project_id id then r ∷ rest else rest

-- `ledger ASC, id ASC` and `ledger DESC, id DESC`.
abbrev pub earlier : EventRecord → EventRecord → Bool
earlier a b =
    ltb_ℤ a.event.ledger b.event.ledger
    || (not (ltb_ℤ b.event.ledger a.event.ledger) && ltb a.id b.id)

abbrev pub later : EventRecord → EventRecord → Bool
later a b =
    ltb_ℤ b.event.ledger a.event.ledger
    || (not (ltb_ℤ a.event.ledger b.event.ledger) && ltb b.id a.id)

unfoldable pub get_events_for_project : Store → String → List EventRecord
get_events_for_project st project_id = sort_by earlier (of_project project_id (numbered st.events))

unfoldable pub get_all_events : Store → List EventRecord
get_all_events st = sort_by earlier (numbered st.events)

unfoldable pub get_project_history : Store → String → ℤ → ℤ → List EventRecord
get_project_history st project_id limit offset =
    limit_offset limit offset (sort_by later (of_project project_id (numbered st.events)))

pub record HistoryQuery : Type 0 where
  pub limit : Option ℤ
  pub offset : Option ℤ

pub record EventsResponse : Type 0 where
  pub project_id : String
  pub count : ℕ
  pub events : List EventRecord

-- The handler's answer when the query succeeds.
unfoldable pub get_project_history_paged : Store → String → HistoryQuery → EventsResponse
get_project_history_paged st project_id query =
    let events =
      get_project_history st project_id (get_or (pos 20) query.limit)
        (get_or (pos 0) query.offset) in
    record { project_id = project_id; count = length events; events = events }
