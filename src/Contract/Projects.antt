-- ===== src/Contract/Projects.antt =====
-- The entry points of contracts/pifp_protocol/src/lib.rs that make a project, change its
-- configuration or its whitelist, and read it.
pub mod Registered
pub mod Listed
pub mod Distinct
use pifp_stellar.Base.{
  ℕ, suc, ◌+◌, Bool, true, false, Option, none, some, List, [], ◌∷◌, ⊤, not, ◌||◌, ltb, leb, ◌==◌,
  length, if◌then◌else◌,
}
use pifp_stellar.Base.Int.{ℤ, pos, leb_ℤ, ltb_ℤ}
use pifp_stellar.Contract.Errors.{
  contract_error, empty_accepted_tokens, too_many_tokens, duplicate_token, invalid_goal,
  metadata_cid_invalid, invalid_deadline, project_not_active, project_expired, deadline_too_long,
  project_not_found,
}
use pifp_stellar.Contract.Types.{
  Address, Hash, Project, ProjectConfig, ProjectBalances, ProjectStatus, funding, is_open,
}
use pifp_stellar.Contract.Env.{
  Storage, Env, Ctx, Action, ok, panic, ◌>>=◌, ◌>>◌, pure, skip, gets, or_panic, panic_if,
  require_auth, when, add_u64,
}
use pifp_stellar.Contract.Emit.{
  emit_project_created, emit_deadline_extended, emit_whitelist_added, emit_whitelist_removed,
}
use pifp_stellar.Contract.Storage
use pifp_stellar.Contract.Storage.{
  get_and_increment_project_id, save_project, save_project_config, load_project_pair, load_project,
  load_project_config, maybe_load_project, get_all_balances, get_token_balance,
}
use pifp_stellar.Contract.Rbac.{require_can_register, require_admin_or_above}
use pifp_stellar.Contract.Admin.{require_not_paused}

-- `Vec::last_index_of`, from position `i` on.
unfoldable pub last_index_from : ℕ → List Address → Address → Option ℕ
last_index_from i [] a = none
last_index_from i (x ∷ xs) a = elim (last_index_from (suc i) xs a) [
  | some j ↦ some j
  | none ↦ if x == a then some i else none
]

abbrev pub is_index : Option ℕ → ℕ → Bool
is_index none i = false
is_index (some j) i = j == i

-- The duplicate check: `accepted_tokens.last_index_of(&t_i) != Some(i)` for the entries `rest`,
-- which begin at position `i` of `tokens`.
unfoldable pub has_duplicate : List Address → ℕ → List Address → Bool
unfolding last_index_from
has_duplicate tokens i [] = false
has_duplicate tokens i (t ∷ rest) =
    if is_index (last_index_from 0 tokens t) i then has_duplicate tokens (suc i) rest else true

abbrev pub max_goal : ℤ
max_goal = pos 1_000_000_000_000_000_000_000_000_000_000

abbrev pub max_metadata_uri_len : ℕ
max_metadata_uri_len = 64

module _ {W : Type 0} where
  abbrev emit_created : ℕ → Address → List Address → ℤ → Action W ⊤
  emit_created id creator [] goal = skip
  emit_created id creator (token ∷ _) goal = emit_project_created id creator token goal

  unfoldable pub register_project :
      Ctx → Address → List Address → ℤ → Hash → List ℕ → ℕ → Bool → Action W Project
  unfolding require_can_register has_duplicate
  register_project ctx creator accepted_tokens goal proof_hash metadata_uri deadline is_private = do
    require_not_paused
    require_auth ctx creator
    require_can_register creator
    panic_if (length accepted_tokens == 0) empty_accepted_tokens
    panic_if (ltb 10 (length accepted_tokens)) too_many_tokens
    panic_if (has_duplicate accepted_tokens 0 accepted_tokens) duplicate_token
    panic_if (leb_ℤ goal (pos 0) || ltb_ℤ max_goal goal) invalid_goal
    let now = ctx.timestamp
    panic_if (length metadata_uri == 0 || ltb max_metadata_uri_len (length metadata_uri))
        metadata_cid_invalid
    max_deadline ← add_u64 now 157_680_000
    panic_if (leb deadline now || ltb max_deadline deadline) invalid_deadline
    id ← get_and_increment_project_id
    let project : Project = record {
      id = id;
      creator = creator;
      accepted_tokens = accepted_tokens;
      goal = goal;
      proof_hash = proof_hash;
      metadata_uri = metadata_uri;
      deadline = deadline;
      status = funding;
      donation_count = 0;
      is_private = is_private;
      refund_expiry = 0;
    }
    save_project project
    emit_created id creator accepted_tokens goal
    pure project

  unfoldable pub extend_deadline : Ctx → Address → ℕ → ℕ → Action W ⊤
  unfolding require_can_register
  extend_deadline ctx caller project_id new_deadline = do
    require_not_paused
    require_auth ctx caller
    require_can_register caller
    (config, state) ← load_project_pair project_id
    panic_if (not (is_open state.status)) project_not_active
    let now = ctx.timestamp
    panic_if (leb config.deadline now) project_expired
    panic_if (leb new_deadline config.deadline) invalid_deadline
    one_year_from_now ← add_u64 now 31_536_000
    panic_if (ltb one_year_from_now new_deadline) deadline_too_long
    let old_deadline = config.deadline
    save_project_config project_id (record config { deadline = new_deadline })
    emit_deadline_extended project_id old_deadline new_deadline

  unfoldable pub add_to_whitelist : Ctx → Address → ℕ → Address → Action W ⊤
  unfolding require_admin_or_above
  add_to_whitelist ctx caller project_id address = do
    require_auth ctx caller
    config ← load_project_config project_id
    when (not (caller == config.creator)) (require_admin_or_above caller)
    Storage.add_to_whitelist project_id address
    emit_whitelist_added project_id address

  unfoldable pub remove_from_whitelist : Ctx → Address → ℕ → Address → Action W ⊤
  unfolding require_admin_or_above
  remove_from_whitelist ctx caller project_id address = do
    require_auth ctx caller
    config ← load_project_config project_id
    when (not (caller == config.creator)) (require_admin_or_above caller)
    Storage.remove_from_whitelist project_id address
    emit_whitelist_removed project_id address

  unfoldable pub get_project : ℕ → Action W Project
  get_project id = load_project id

  unfoldable pub get_project_metadata : ℕ → Action W (List ℕ)
  get_project_metadata project_id = do
    config ← load_project_config project_id
    pure config.metadata_uri

  unfoldable pub get_balance : ℕ → Address → Action W ℤ
  get_balance project_id token = get_token_balance project_id token

  unfoldable pub get_project_balances : ℕ → Action W ProjectBalances
  get_project_balances project_id = do
    found ← maybe_load_project project_id
    project ← or_panic found (contract_error project_not_found)
    get_all_balances project
