-- ===== src/Indexer/Store/Insert.antt =====
-- Insertions of backend/indexer/src/db.rs against the tables that their events make.
use Prim.Native.String.{String}
use text.Mathlib.Text.{◌==◌}
use text.Mathlib.TextEquality.{eq_iff}
use pifp_stellar.Base.{
  ℕ, ◌+◌, ◌≡◌, arith, not, refl, ap, inl, inr, Bool, true, false, List, [], ◌∷◌, Option, none, some,
  if◌then◌else◌, Bool-cases, Option-cases, ◌&&◌, length,
}
use pifp_stellar.Base.Int.{ℤ, pos, ◌+ℤ◌, in_i128, int_laws}
use pifp_stellar.Base.Text.{member}
use pifp_stellar.Indexer.Kinds.{EventKind, project_funded, PifpEvent}
use pifp_stellar.Indexer.Store.{
  migrated, save_cursor, Store, ProjectRow, find_project, insert_project, set_status, new_project,
  registry_arm, update_registry, stats_arm, update_global_stats, add_event, insert_events_with_new,
  also_inserted,
}
use pifp_stellar.Indexer.Store.Counts.{
  kind, is_created, is_funded, is_verified, is_failed, lock, locked, fits, add_new, with_status,
  or_new, after_event, about, Counted, donors,
}

find-set :
    (id other status : String) (ps : List ProjectRow)
    → find_project id (set_status other status ps)
      ≡ (if id == other then with_status status (find_project id ps) else find_project id ps)
find-set id other status [] = ground arith
find-set id other status (p ∷ ps) = ground (
  arith,
  find-set id other status ps,
  eq_iff id other,
  eq_iff other p.project_id,
  eq_iff id p.project_id,
)

find-insert :
    (id other : String) (ev : PifpEvent) (ps : List ProjectRow)
    → find_project id (insert_project (new_project other ev) ps)
      ≡ (if id == other then or_new id ev (find_project id ps) else find_project id ps)
find-insert id other ev ps = elim (Bool-cases (id == other)) [
  | inl e ↦ let same : id ≡ other = ground (arith, eq_iff id other) in ground (arith, same, e)
  | inr e ↦ ground (arith, e)
]

find-registry :
    (id other : String) (ev : PifpEvent) (ps : List ProjectRow) (k : EventKind)
    → find_project id (registry_arm other ev ps k)
      ≡ (if id == other then after_event id ev k (find_project id ps) else find_project id ps)
find-registry id other ev ps k = ground (
  arith,
  find-insert id other ev ps,
  find-set id other "Active" ps,
  find-set id other "Completed" ps,
  find-set id other "Expired" ps,
)

find-update :
    (id : String) (ev : PifpEvent) (ps : List ProjectRow)
    → find_project id (update_registry ev ps) ≡ (
        if about id ev.project_id
        then after_event id ev (kind ev) (find_project id ps)
        else find_project id ps)
unfolding update_registry
find-update id ev ps = elim (Option-cases ev.project_id) [
  | inl e ↦ ground (arith, e)
  | inr (other, e) ↦ ground (arith, e, find-registry id other ev ps (kind ev))
]

-- The tables after an event of a kind.
abbrev plus : Bool → ℕ → ℕ
plus b n = if b then n + 1 else n

abbrev is_new : Option String → List String → Bool
is_new none ds = false
is_new (some d) ds = not (member d ds)

abbrev arm_result : PifpEvent → Store → EventKind → Store
arm_result ev st k =
    let ds = if is_funded k then add_new ev.actor st.unique_donors else st.unique_donors in
    record st {
      project_stats = record {
        total_projects = plus (is_created k) st.project_stats.total_projects;
        total_tvl = lock ev k st.project_stats.total_tvl;
        total_donors =
            plus (is_funded k && is_new ev.actor st.unique_donors) st.project_stats.total_donors;
        completed_projects = plus (is_verified k) st.project_stats.completed_projects;
        failed_projects = plus (is_failed k) st.project_stats.failed_projects;
      };
      unique_donors = ds;
    }

arm_lem :
    (ev : PifpEvent) (st : Store) (k : EventKind)
    → in_i128 (lock ev k st.project_stats.total_tvl) ≡ true
    → stats_arm ev st k ≡ some (arm_result ev st k)
arm_lem ev st project_funded h =
    let zero_amount : st.project_stats.total_tvl +ℤ pos 0 ≡ st.project_stats.total_tvl =
      omega int_laws in
    ground (arith, zero_amount)
arm_lem ev st k h = ground arith

new-length :
    (actor : Option String) (ds : List String)
    → length (add_new actor ds) ≡ plus (is_new actor ds) (length ds)
new-length none ds = refl
new-length (some d) ds = ground arith

step-Counted :
    (ev : PifpEvent) (st : Store) → Counted st → Counted (arm_result ev (add_event ev st) (kind ev))
step-Counted ev st c = record {
  projects_count = ground (arith, c.projects_count);
  tvl_sum = ap (lock ev (kind ev)) c.tvl_sum;
  donors_list = rw c.donors_list refl;
  donors_count =
      rw (c.donors_list, c.donors_count) (ground (arith, new-length ev.actor (donors st.events)));
  verified_count = ground (arith, c.verified_count);
  failed_count = ground (arith, c.failed_count);
  rows = λ id. rw (find-update id ev st.projects, c.rows id) refl;
}

abbrev pub rev_append : List PifpEvent → List PifpEvent → List PifpEvent
rev_append [] old = old
rev_append (ev ∷ evs) old = rev_append evs (ev ∷ old)

insert_one :
    (ev : PifpEvent) (evs : List PifpEvent) (st : Store)
    → in_i128 (locked ev st.project_stats.total_tvl) ≡ true
    → insert_events_with_new st (ev ∷ evs)
      ≡ also_inserted ev (insert_events_with_new (arm_result ev (add_event ev st) (kind ev)) evs)
unfolding insert_events_with_new update_global_stats
insert_one ev evs st h = rw (insert_events_with_new, arm_lem ev (add_event ev st) (kind ev) h) refl

-- If the tables are those that the stored events make, and the running sums of the value locked stay
-- in the range of i128, then inserting a batch inserts and returns all of its events, and leaves the
-- tables that the old and the new events make: the numbers of projects, of completions and of
-- failures, the value locked, the donors and their number, and the row of each project.
pub insert_events-Counted :
    (evs : List PifpEvent) (st : Store)
    → Counted st
    → fits st.project_stats.total_tvl evs ≡ true
    → let r = insert_events_with_new st evs in
      (r.inserted ≡ some evs) × (r.store.events ≡ rev_append evs st.events) × Counted r.store
unfolding insert_events_with_new
insert_events-Counted [] st c h = (refl, refl, c)
insert_events-Counted (ev ∷ evs) st c h =
    let now : in_i128 (locked ev st.project_stats.total_tvl) ≡ true = ground (arith, h) in
    let rest : fits (locked ev st.project_stats.total_tvl) evs ≡ true = ground (arith, h) in
    let next = arm_result ev (add_event ev st) (kind ev) in
    let (all, rows, counted) = insert_events-Counted evs next (step-Counted ev st c) rest in
    rw (insert_one ev evs st now) (rw (also_inserted, all) refl, rows, counted)

pub migrated-Counted : Counted migrated
migrated-Counted = record {
  projects_count = refl;
  tvl_sum = refl;
  donors_list = refl;
  donors_count = refl;
  verified_count = refl;
  failed_count = refl;
  rows = λ id. refl;
}

pub save_cursor-Counted :
    (ledger : ℤ) (cursor : Option String) (st : Store)
    → Counted st
    → Counted (save_cursor ledger cursor st)
unfolding save_cursor
save_cursor-Counted ledger cursor st c = record {
  projects_count = c.projects_count;
  tvl_sum = c.tvl_sum;
  donors_list = c.donors_list;
  donors_count = c.donors_count;
  verified_count = c.verified_count;
  failed_count = c.failed_count;
  rows = c.rows;
}
