-- ===== src/Indexer/Store/Counts.antt =====
-- The statistics, the donors and the project registry of backend/indexer/src/db.rs, counted again from the
-- stored events.
use Prim.Native.String.{String}
use text.Mathlib.Text.{◌==◌}
use pifp_stellar.Base.{
  ℕ, ◌+◌, ◌≡◌, Bool, true, false, List, [], ◌∷◌, Option, none, some, if◌then◌else◌, ◌&&◌, length,
}
use pifp_stellar.Base.Int.{ℤ, pos, ◌+ℤ◌, in_i128}
use pifp_stellar.Base.Text.{member}
use pifp_stellar.Indexer.Kinds.{
  EventKind, project_created, project_funded, project_active, project_verified, project_expired,
  project_cancelled, of_name, PifpEvent,
}
use pifp_stellar.Indexer.Store.{Store, ProjectRow, find_project, new_project, parsed_amount}

abbrev pub kind : PifpEvent → EventKind
kind ev = of_name ev.event_type

abbrev pub is_created : EventKind → Bool
is_created project_created = true
is_created _ = false

abbrev pub is_funded : EventKind → Bool
is_funded project_funded = true
is_funded _ = false

abbrev pub is_verified : EventKind → Bool
is_verified project_verified = true
is_verified _ = false

abbrev pub is_failed : EventKind → Bool
is_failed project_expired = true
is_failed project_cancelled = true
is_failed _ = false

abbrev pub count : (EventKind → Bool) → List PifpEvent → ℕ
count p [] = 0
count p (ev ∷ evs) = if p (kind ev) then count p evs + 1 else count p evs

-- What an event adds to the value locked.
abbrev pub amount_of : Option String → ℤ
amount_of none = pos 0
amount_of (some text) = parsed_amount text

abbrev pub lock : PifpEvent → EventKind → ℤ → ℤ
lock ev k x = if is_funded k then x +ℤ amount_of ev.amount else x

abbrev pub locked : PifpEvent → ℤ → ℤ
locked ev x = lock ev (kind ev) x

abbrev pub tvl : List PifpEvent → ℤ
tvl [] = pos 0
tvl (ev ∷ evs) = locked ev (tvl evs)

-- The running sums of the value locked, from `x` on, stay in the range of i128.
abbrev pub fits : ℤ → List PifpEvent → Bool
fits x [] = true
fits x (ev ∷ evs) = in_i128 (locked ev x) && fits (locked ev x) evs

abbrev pub add_new : Option String → List String → List String
add_new none ds = ds
add_new (some d) ds = if member d ds then ds else d ∷ ds

abbrev pub donors : List PifpEvent → List String
donors [] = []
donors (ev ∷ evs) = if is_funded (kind ev) then add_new ev.actor (donors evs) else donors evs

-- The row of one project, from the events, the latest first: its creation fixes all but the status,
-- which is that of the latest event that sets one.
abbrev pub with_status : String → Option ProjectRow → Option ProjectRow
with_status status none = none
with_status status (some p) = some (record p { status = status })

abbrev pub or_new : String → PifpEvent → Option ProjectRow → Option ProjectRow
or_new id ev none = some (new_project id ev)
or_new id ev (some p) = some p

abbrev pub after_event : String → PifpEvent → EventKind → Option ProjectRow → Option ProjectRow
after_event id ev project_created row = or_new id ev row
after_event id ev project_active row = with_status "Active" row
after_event id ev project_verified row = with_status "Completed" row
after_event id ev project_expired row = with_status "Expired" row
after_event id ev _ row = row

abbrev pub about : String → Option String → Bool
about id none = false
about id (some id') = id == id'

abbrev pub row_of : String → List PifpEvent → Option ProjectRow
row_of id [] = none
row_of id (ev ∷ evs) =
    if about id ev.project_id then after_event id ev (kind ev) (row_of id evs) else row_of id evs

-- The tables are those that the stored events make.
pub record Counted (st : Store) : Type 0 where
  pub projects_count : st.project_stats.total_projects ≡ count is_created st.events
  pub tvl_sum : st.project_stats.total_tvl ≡ tvl st.events
  pub donors_list : st.unique_donors ≡ donors st.events
  pub donors_count : st.project_stats.total_donors ≡ length (donors st.events)
  pub verified_count : st.project_stats.completed_projects ≡ count is_verified st.events
  pub failed_count : st.project_stats.failed_projects ≡ count is_failed st.events
  pub rows : (id : String) → find_project id st.projects ≡ row_of id st.events
