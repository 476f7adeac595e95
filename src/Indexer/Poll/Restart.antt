-- ===== src/Indexer/Poll/Restart.antt =====
-- A restart of the indexer, from the variables of backend/indexer/src/config.rs.
use Prim.Native.String.{String}
use pifp_stellar.Base.{◌≡◌, ◌<◌, ◌^◌, sym, ◌∙◌, none, some, List, ◌∷◌}
use pifp_stellar.Base.Environment.{Environment}
use pifp_stellar.Base.Parts.{join_parts}
use pifp_stellar.Base.Result.{ok, ok_injective}
use pifp_stellar.Indexer.Config.{Config, not_blank, optional_ledger, from_env}
use pifp_stellar.Indexer.Config.Started.{Plain, parse_contract_ids-join_parts, from_env-IsRead}
use pifp_stellar.Indexer.Kinds.{PifpEvent}
use pifp_stellar.Indexer.Poll.{Position, Poll, resume}
use pifp_stellar.Indexer.Poll.Resume.{Stores, resume-Stores}
use pifp_stellar.Indexer.Store.{Store}

-- If the contracts' ids, which are not empty and have neither white space nor a comma, are set with
-- commas between them, the two backfill variables are not set or blank, and the configuration is read, then
-- it has those ids, and a restart on the tables that a poll left goes on at the poll's next ledger, which is
-- not 0 and a u32, and its cursor.
pub resume-from_env :
    (env : Environment) (config : Config) (id : String) (ids : List String) (next : Position)
    (st : Store) (evs : List PifpEvent) (p : Poll)
    → Plain (id ∷ ids)
    → env "CONTRACT_IDS" ≡ some (join_parts "," (id ∷ ids))
    → not_blank (env "BACKFILL_START_LEDGER") ≡ none
    → not_blank (env "BACKFILL_CURSOR") ≡ none
    → from_env env ≡ ok config
    → 0 < next.current_ledger
    → next.current_ledger < 2 ^ 32
    → Stores next st evs p
    → (config.contract_ids ≡ id ∷ ids) × (resume config p.store ≡ next)
resume-from_env env config id ids next st evs p plain set no_start no_cursor read above below
      stores =
    let facts = from_env-IsRead env config read in
    let start : optional_ledger none ≡ ok config.backfill_start_ledger =
      rw no_start at facts.start in
    (
      ok_injective config.contract_ids (id ∷ ids)
          (sym facts.ids ∙ parse_contract_ids-join_parts env id ids plain set),
      resume-Stores config next st evs p
          (sym (ok_injective none config.backfill_start_ledger start)) (facts.cursor ∙ no_cursor)
          above below stores,
    )
