-- ===== src/Indexer/Reads/History.antt =====
-- The pages of a project's history.
use Prim.Native.String.{String}
use mathlib.Core.List.{reverse}
use pifp_stellar.Base.{
  ℕ, ◌*◌, ◌≡◌, ◌<◌, ◌≤◌, sym, ◌∙◌, arith, inl, inr, true, not, some, List, [], ◌∷◌, length,
  Bool-cases,
}
use pifp_stellar.Base.Int.{pos}
use pifp_stellar.Base.Order.{sort_by, Apart, AllApart, reverse-sort_by, length-sort_by}
use pifp_stellar.Base.Pages.{pages_from, pages_from-take, take_all}
use pifp_stellar.Base.Text.{same_option}
use pifp_stellar.Indexer.Kinds.{PifpEvent}
use pifp_stellar.Indexer.Store.{Store}
use pifp_stellar.Indexer.Reads.{
  EventRecord, next_row, numbered, of_project, earlier, later, get_events_for_project,
  get_project_history, get_project_history_paged,
}

earlier_transitive :
    (a b c : EventRecord) → earlier a b ≡ true → earlier b c ≡ true → earlier a c ≡ true
earlier_transitive a b c h k = ground (arith, h, k)

earlier_total : (a b : EventRecord) → b.id < a.id → earlier a b ≡ not (earlier b a)
earlier_total a b h = ground (arith, h)

of_project-Apart :
    (w : EventRecord) (id : String) (evs : List PifpEvent)
    → length evs < w.id
    → Apart earlier w (of_project id (numbered evs))
of_project-Apart w id [] h = tt
of_project-Apart w id (ev ∷ evs) h = elim (Bool-cases (same_option ev.project_id id)) [
  | inl e ↦ rw e (earlier_total w (next_row ev evs) h, of_project-Apart w id evs (omega (arith, h)))
  | inr e ↦ rw e (of_project-Apart w id evs (omega (arith, h)))
]

of_project-AllApart :
    (id : String) (evs : List PifpEvent) → AllApart earlier (of_project id (numbered evs))
of_project-AllApart id [] = tt
of_project-AllApart id (ev ∷ evs) = elim (Bool-cases (same_option ev.project_id id)) [
  | inl e ↦
      rw e (of_project-Apart (next_row ev evs) id evs (omega arith), of_project-AllApart id evs)
  | inr e ↦ rw e (of_project-AllApart id evs)
]

-- Pages of one size, asked for one after the other until they can hold all of a project's events, make up
-- together the events of the project from the last to the first, each once.
pub get_project_history_paged_pages :
    (st : Store) (id : String) (size count : ℕ)
    → length (get_events_for_project st id) ≤ count * size
    → pages_from
        (λ n at.
          (get_project_history_paged st id
            (record { limit = some (pos n); offset = some (pos at) })).events)
        size
        0
        count
      ≡ reverse (get_events_for_project st id)
unfolding get_project_history_paged get_project_history get_events_for_project
get_project_history_paged_pages st id size count fits =
    let found = of_project id (numbered st.events) in
    let enough : length (sort_by later found) ≤ count * size =
      rw (length-sort_by later found) (rw (length-sort_by earlier found) at fits) in
    pages_from-take (sort_by later found) size 0 count
    ∙ take_all (count * size) (sort_by later found) enough
    ∙ sym (reverse-sort_by earlier earlier_transitive found (of_project-AllApart id st.events))
