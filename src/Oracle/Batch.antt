-- ===== src/Oracle/Batch.antt =====
-- `build_task_list` of backend/oracle/src/main.rs.
pub mod Read
use Prim.Native.String
use Prim.Native.String.{String}
use text.Mathlib.Text.{◌==◌}
use pifp_stellar.Base.{ℕ, ◌^◌, Option, none, some, List, [], ◌∷◌, get_or, if◌then◌else◌}
use pifp_stellar.Base.Text.{trim, parse_uint}
use pifp_stellar.Base.Parts.{split, split_once}
use pifp_stellar.Base.Result.{ok, err}
use pifp_stellar.Oracle.Errors.{OracleError, config, Result}

pub record ProofTask : Type 0 where
  pub project_id : ℕ
  pub proof_cid : String

-- The options that are read.
pub record Cli : Type 0 where
  pub project_id : Option ℕ
  pub proof_cid : Option String
  pub batch : Option String

-- One round of the loop over the entries: `continue`, an early return, or a task.
pub data Entry : Type 0 where
  skip : Entry
  fault : OracleError → Entry
  task : ProofTask → Entry

abbrev pub about_entry : String → String → OracleError
about_entry what entry = config (String.◌++◌ what (String.◌++◌ entry "'"))

abbrev check_cid : String → ℕ → String → Entry
check_cid entry id cid =
    if cid == ""
    then fault (about_entry "Missing proof_cid in batch entry: '" entry)
    else task (record { project_id = id; proof_cid = cid })

abbrev read_id : String → Option ℕ → String → Entry
read_id entry none cid = fault (about_entry "Invalid project_id in batch entry: '" entry)
read_id entry (some id) cid = check_cid entry id cid

unfoldable pub read_entry : String → Entry
read_entry raw =
    let entry = trim raw in
    let (id_str, cid) = split_once b':' entry in
    if entry == ""
    then skip
    else read_id entry (parse_uint (2 ^ 64) (trim id_str)) (trim (get_or "" cid))

abbrev add_task : ProofTask → Result (List ProofTask) → Result (List ProofTask)
add_task t (ok ts) = ok (t ∷ ts)
add_task t (err e) = err e

unfoldable pub read_entries : List String → Result (List ProofTask)
read_entries [] = ok []
read_entries (raw ∷ raws) = elim (read_entry raw) [
  | skip ↦ read_entries raws
  | fault e ↦ err e
  | task t ↦ add_task t (read_entries raws)
]

abbrev single : Option ℕ → Option String → List ProofTask
single (some id) (some cid) = record { project_id = id; proof_cid = cid } ∷ []
single _ _ = []

unfoldable pub build_task_list : Cli → Result (List ProofTask)
build_task_list cli = elim cli.batch [
  | none ↦ ok (single cli.project_id cli.proof_cid)
  | some batch ↦ read_entries (split b',' batch)
]
