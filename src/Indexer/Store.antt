-- ===== src/Indexer/Store.antt =====
-- The tables of the indexer's database that events change, of the migrations, with the cursor and the
-- writes of backend/indexer/src/db.rs. Rows stand latest first; columns that hold the clock are left
-- out, `total_tvl` is the number that its text stands for, and every query succeeds.
pub mod Counts
pub mod Insert
use Prim.Native.String.{String}
use text.Mathlib.Text.{◌==◌}
use pifp_stellar.Base.{ℕ, ◌+◌, Bool, true, false, List, [], ◌∷◌, Option, none, some, if◌then◌else◌}
use pifp_stellar.Base.Int.{ℤ, pos, ◌+ℤ◌, in_i128}
use pifp_stellar.Base.Text.{member, parse_i128}
use pifp_stellar.Indexer.Kinds.{
  EventKind, project_created, project_funded, project_active, project_verified, project_expired,
  project_cancelled, of_name, PifpEvent,
}

pub record GlobalStats : Type 0 where
  pub total_projects : ℕ
  pub total_tvl : ℤ
  pub total_donors : ℕ
  pub completed_projects : ℕ
  pub failed_projects : ℕ

-- A row of `projects`, whose primary key is `project_id`.
pub record ProjectRow : Type 0 where
  pub project_id : String
  pub creator : String
  pub status : String
  pub goal : String
  pub primary_token : String
  pub created_ledger : ℤ

-- The row of `indexer_cursor`.
pub record Cursor : Type 0 where
  pub last_ledger : ℤ
  pub last_cursor : Option String

pub record Store : Type 0 where
  pub events : List PifpEvent
  pub projects : List ProjectRow
  pub project_stats : GlobalStats
  pub unique_donors : List String
  pub indexer_cursor : Cursor

-- What the migrations leave.
abbrev pub migrated : Store
migrated = record {
  events = [];
  projects = [];
  project_stats = record {
    total_projects = 0;
    total_tvl = pos 0;
    total_donors = 0;
    completed_projects = 0;
    failed_projects = 0;
  };
  unique_donors = [];
  indexer_cursor = record { last_ledger = pos 0; last_cursor = none };
}

unfoldable pub get_last_ledger : Store → ℤ
get_last_ledger st = st.indexer_cursor.last_ledger

unfoldable pub get_cursor_string : Store → Option String
get_cursor_string st = st.indexer_cursor.last_cursor

unfoldable pub save_cursor : ℤ → Option String → Store → Store
save_cursor ledger cursor st = record st {
  indexer_cursor = record { last_ledger = ledger; last_cursor = cursor };
}

abbrev pub unwrap_or : {A : Type 0} → A → Option A → A
unwrap_or d none = d
unwrap_or d (some a) = a

-- `SELECT … WHERE project_id = id`.
abbrev pub find_project : String → List ProjectRow → Option ProjectRow
find_project id [] = none
find_project id (p ∷ ps) = if id == p.project_id then some p else find_project id ps

-- `INSERT OR IGNORE` against the primary key.
abbrev pub insert_project : ProjectRow → List ProjectRow → List ProjectRow
insert_project p ps = elim (find_project p.project_id ps) [ none ↦ p ∷ ps | some _ ↦ ps ]

abbrev pub set_status : String → String → List ProjectRow → List ProjectRow
set_status id status [] = []
set_status id status (p ∷ ps) =
    (if id == p.project_id then record p { status = status } else p) ∷ set_status id status ps

abbrev pub new_project : String → PifpEvent → ProjectRow
new_project id ev = record {
  project_id = id;
  creator = unwrap_or "unknown" ev.actor;
  status = "Funding";
  goal = unwrap_or "0" ev.amount;
  primary_token = unwrap_or "unknown" ev.extra_data;
  created_ledger = ev.ledger;
}

abbrev pub registry_arm : String → PifpEvent → List ProjectRow → EventKind → List ProjectRow
registry_arm id ev ps project_created = insert_project (new_project id ev) ps
registry_arm id ev ps project_active = set_status id "Active" ps
registry_arm id ev ps project_verified = set_status id "Completed" ps
registry_arm id ev ps project_expired = set_status id "Expired" ps
registry_arm id ev ps _ = ps

-- The `if let Some(id)` of the insertion.
unfoldable pub update_registry : PifpEvent → List ProjectRow → List ProjectRow
update_registry ev ps = elim ev.project_id [
  | none ↦ ps
  | some id ↦ registry_arm id ev ps (of_name ev.event_type)
]

-- `amt_str.parse::<i128>().unwrap_or(0)`.
unfoldable pub parsed_amount : String → ℤ
parsed_amount text = unwrap_or (pos 0) (parse_i128 text)

abbrev pub map_stats : (GlobalStats → GlobalStats) → Store → Store
map_stats f st = record st { project_stats = f st.project_stats }

-- The addition is checked: past the range of i128 the process aborts.
abbrev pub add_tvl : Option String → Store → Option Store
add_tvl none st = some st
add_tvl (some text) st =
    let new_tvl = st.project_stats.total_tvl +ℤ parsed_amount text in
    if in_i128 new_tvl then some (map_stats (λ s. record s { total_tvl = new_tvl }) st) else none

abbrev pub add_donor : Option String → Store → Store
add_donor none st = st
add_donor (some actor) st =
    if member actor st.unique_donors
    then st
    else map_stats (λ s. record s { total_donors = s.total_donors + 1 })
        (record st { unique_donors = actor ∷ st.unique_donors })

abbrev pub fail_project : Store → Store
fail_project st = map_stats (λ s. record s { failed_projects = s.failed_projects + 1 }) st

abbrev pub stats_arm : PifpEvent → Store → EventKind → Option Store
stats_arm ev st project_created =
    some (map_stats (λ s. record s { total_projects = s.total_projects + 1 }) st)
stats_arm ev st project_funded = elim (add_tvl ev.amount st) [
  | none ↦ none
  | some st' ↦ some (add_donor ev.actor st')
]
stats_arm ev st project_verified =
    some (map_stats (λ s. record s { completed_projects = s.completed_projects + 1 }) st)
stats_arm ev st project_expired = some (fail_project st)
stats_arm ev st project_cancelled = some (fail_project st)
stats_arm ev st _ = some st

unfoldable pub update_global_stats : PifpEvent → Store → Option Store
update_global_stats ev st = stats_arm ev st (of_name ev.event_type)

-- The tables afterwards, and the events inserted unless the process aborts.
pub record Insertion : Type 0 where
  pub store : Store
  pub inserted : Option (List PifpEvent)

abbrev pub also_inserted : PifpEvent → Insertion → Insertion
also_inserted ev r = record r {
  inserted = elim r.inserted [ none ↦ none | some evs ↦ some (ev ∷ evs) ];
}

-- The row and the registry, which the event changes before the statistics.
abbrev pub add_event : PifpEvent → Store → Store
add_event ev st = record st { events = ev ∷ st.events; projects = update_registry ev st.projects }

-- No constraint on `events` can fail, so that `INSERT OR IGNORE` ignores none of them.
unfoldable pub insert_events_with_new : Store → List PifpEvent → Insertion
insert_events_with_new st [] = record { store = st; inserted = some [] }
insert_events_with_new st (ev ∷ evs) =
    let added = add_event ev st in
    elim (update_global_stats ev added) [
      | none ↦ record { store = added; inserted = none }
      | some st' ↦ also_inserted ev (insert_events_with_new st' evs)
    ]
