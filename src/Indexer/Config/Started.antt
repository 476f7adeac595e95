-- ===== src/Indexer/Config/Started.antt =====
-- What `from_env` of backend/indexer/src/config.rs has read.
use Prim.Native.String.{String}
use text.Mathlib.Text.{◌==◌}
use pifp_stellar.Base.{◌≡◌, ◌^◌, refl, ap, sym, ◌∙◌, true, false, some, List, [], ◌∷◌}
use pifp_stellar.Base.Environment.{Environment}
use pifp_stellar.Base.Parts.{join_parts, Lack, has_code, is_solid, split-join_parts, trim_solid}
use pifp_stellar.Base.Result.{ok, bind-ok, ok_injective}
use pifp_stellar.Indexer.Config.{
  Config, not_blank, ids_in, parse_contract_ids, optional_ledger, number_in, from_env,
}

-- The configuration against the variables that restarts and requests depend on.
pub record IsRead (env : Environment) (config : Config) : Type 0 where
  pub ids : parse_contract_ids env ≡ ok config.contract_ids
  pub start :
      optional_ledger (not_blank (env "BACKFILL_START_LEDGER")) ≡ ok config.backfill_start_ledger
  pub cursor : config.backfill_cursor ≡ not_blank (env "BACKFILL_CURSOR")

pub from_env-IsRead :
    (env : Environment) (config : Config) → from_env env ≡ ok config → IsRead env config
unfolding from_env
from_env-IsRead env config h =
    let (ids, ids_are, h₁) = bind-ok (parse_contract_ids env) _ config h in
    let (port, port_is, h₂) = bind-ok (number_in env "API_PORT" "3001" (2 ^ 16)) _ config h₁ in
    let (poll, poll_is, h₃) =
      bind-ok (number_in env "POLL_INTERVAL_SECS" "5" (2 ^ 64)) _ config h₂ in
    let (page, page_is, h₄) =
      bind-ok (number_in env "EVENTS_PER_PAGE" "100" (2 ^ 32)) _ config h₃ in
    let (ledger, ledger_is, h₅) = bind-ok (number_in env "START_LEDGER" "0" (2 ^ 32)) _ config h₄ in
    let (start, start_is, h₆) =
      bind-ok (optional_ledger (not_blank (env "BACKFILL_START_LEDGER"))) _ config h₅ in
    let (top, top_is, h₇) =
      bind-ok (number_in env "CACHE_TTL_TOP_PROJECTS_SECS" "30" (2 ^ 64)) _ config h₆ in
    let (count, count_is, h₈) =
      bind-ok (number_in env "CACHE_TTL_ACTIVE_PROJECTS_COUNT_SECS" "15" (2 ^ 64)) _ config h₇ in
    let made = ok_injective _ config h₈ in
    record {
      ids = ids_are ∙ ap (λ c. ok c.contract_ids) made;
      start = start_is ∙ ap (λ c. ok c.backfill_start_ledger) made;
      cursor = sym (ap (λ c. c.backfill_cursor) made);
    }

-- Ids that are not empty and have neither white space nor a comma.
abbrev pub Plain : List String → Type 0
Plain [] = Unit
Plain (id ∷ ids) =
    ((id == "") ≡ false) × (is_solid id ≡ true) × (has_code b',' id ≡ false) × Plain ids

Plain-Lack : (ids : List String) → Plain ids → Lack b',' ids
Plain-Lack [] h = tt
Plain-Lack (id ∷ ids) (some_text, solid, lacks, rest) = (lacks, Plain-Lack ids rest)

ids_in-Plain : (ids : List String) → Plain ids → ids_in ids ≡ ids
ids_in-Plain [] h = refl
ids_in-Plain (id ∷ ids) (some_text, solid, lacks, rest) =
    rw (trim_solid id solid, some_text) (ap (id ∷◌) (ids_in-Plain ids rest))

pub parse_contract_ids-join_parts :
    (env : Environment) (id : String) (ids : List String)
    → Plain (id ∷ ids)
    → env "CONTRACT_IDS" ≡ some (join_parts "," (id ∷ ids))
    → parse_contract_ids env ≡ ok (id ∷ ids)
unfolding parse_contract_ids
parse_contract_ids-join_parts env id ids plain set =
    rw
      (
        parse_contract_ids,
        set,
        split-join_parts "," id ids (Plain-Lack (id ∷ ids) plain),
        ids_in-Plain (id ∷ ids) plain,
      )
      refl
