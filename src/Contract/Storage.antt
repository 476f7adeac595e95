-- ===== src/Contract/Storage.antt =====
-- contracts/pifp_protocol/src/storage.rs: typed access to the contract's storage. `extend_ttl`
-- changes when the host archives an entry and no value, so the bumps have no counterpart.
use pifp_stellar.Base.{
  ℕ, ◌≡◌, ◌≢◌, some_of, Bool, true, false, Option, none, some, List, [], ◌∷◌, ⊤, get_or, is_some,
}
use pifp_stellar.Base.Int.{ℤ, pos, ltb_ℤ, checked_add}
use pifp_stellar.Base.Maps.{update, update₂, update₃}
use pifp_stellar.Contract.Errors.{contract_error, missing_value, project_not_found, overflow}
use pifp_stellar.Contract.Types.{
  Address, ProjectConfig, ProjectState, Project, ProjectBalances, TokenBalance, ProtocolConfig,
}
use pifp_stellar.Contract.Env.{
  Storage, Action, ◌>>=◌, ◌>>◌, pure, gets, modify, or_panic, when, add_u64,
}

-- The literal that `load_project` and `maybe_load_project` both build.
abbrev pub join : ProjectConfig → ProjectState → Project
join config state = record {
  id = config.id;
  creator = config.creator;
  accepted_tokens = config.accepted_tokens;
  goal = config.goal;
  proof_hash = config.proof_hash;
  metadata_uri = config.metadata_uri;
  deadline = config.deadline;
  status = state.status;
  donation_count = state.donation_count;
  is_private = config.is_private;
  refund_expiry = state.refund_expiry;
}

module _ {W : Type 0} where
  abbrev pub get_and_increment_project_id : Action W ℕ
  get_and_increment_project_id = do
    current ← gets (λ s. get_or 0 s.project_count)
    next ← add_u64 current 1
    modify (λ s. record s { project_count = some next })
    pure current

  abbrev pub is_paused : Action W Bool
  is_paused = gets λ s. get_or false s.paused

  abbrev pub set_paused : Bool → Action W ⊤
  set_paused b = modify λ s. record s { paused = some b }

  abbrev pub get_protocol_config : Action W (Option ProtocolConfig)
  get_protocol_config = gets λ s. s.protocol_config

  abbrev pub set_protocol_config : ProtocolConfig → Action W ⊤
  set_protocol_config c = modify λ s. record s { protocol_config = some c }

  abbrev pub save_project_config : ℕ → ProjectConfig → Action W ⊤
  save_project_config id c = modify λ s. record s { proj_config = update s.proj_config id (some c) }

  abbrev pub save_project_state : ℕ → ProjectState → Action W ⊤
  save_project_state id p = modify λ s. record s { proj_state = update s.proj_state id (some p) }

  abbrev pub save_project : Project → Action W ⊤
  save_project p = do
    save_project_config p.id (record {
      id = p.id;
      creator = p.creator;
      accepted_tokens = p.accepted_tokens;
      goal = p.goal;
      proof_hash = p.proof_hash;
      deadline = p.deadline;
      is_private = p.is_private;
      metadata_uri = p.metadata_uri;
    })
    save_project_state p.id (record {
      status = p.status;
      donation_count = p.donation_count;
      refund_expiry = p.refund_expiry;
    })

  abbrev pub project_exists : ℕ → Action W Bool
  project_exists id = gets λ s. is_some (s.proj_config id)

  abbrev pub maybe_load_project_config : ℕ → Action W (Option ProjectConfig)
  maybe_load_project_config id = gets λ s. s.proj_config id

  abbrev pub maybe_load_project_state : ℕ → Action W (Option ProjectState)
  maybe_load_project_state id = gets λ s. s.proj_state id

  abbrev pub load_project_config : ℕ → Action W ProjectConfig
  load_project_config id = do
    c ← maybe_load_project_config id
    or_panic c (contract_error project_not_found)

  abbrev pub load_project_state : ℕ → Action W ProjectState
  load_project_state id = do
    p ← maybe_load_project_state id
    or_panic p (contract_error project_not_found)

  abbrev pub load_project_pair : ℕ → Action W (ProjectConfig × ProjectState)
  load_project_pair id = do
    config ← gets (λ s. s.proj_config id)
    config' ← or_panic config (contract_error project_not_found)
    state ← gets (λ s. s.proj_state id)
    state' ← or_panic state (contract_error project_not_found)
    pure (config', state')

  abbrev pub load_project : ℕ → Action W Project
  load_project id = do (config, state) ← load_project_pair id; pure (join config state)

  -- The state is read behind `expect`, which traps.
  abbrev join_loaded : ℕ → Option ProjectConfig → Action W (Option Project)
  join_loaded id none = pure none
  join_loaded id (some config) = do
    found ← gets (λ s. s.proj_state id)
    state ← or_panic found missing_value
    pure (some (join config state))

  abbrev pub maybe_load_project : ℕ → Action W (Option Project)
  maybe_load_project id = do config ← maybe_load_project_config id; join_loaded id config

  abbrev pub get_token_balance : ℕ → Address → Action W ℤ
  get_token_balance id token = gets λ s. get_or (pos 0) (s.token_balance id token)

  abbrev pub set_token_balance : ℕ → Address → ℤ → Action W ⊤
  set_token_balance id token balance =
      modify λ s. record s { token_balance = update₂ s.token_balance id token (some balance) }

  abbrev pub add_to_token_balance : ℕ → Address → ℤ → Action W ℤ
  add_to_token_balance id token amount = do
    current ← get_token_balance id token
    new_balance ← or_panic (checked_add current amount) (contract_error overflow)
    set_token_balance id token new_balance
    pure new_balance

  abbrev pub drain_token_balance : ℕ → Address → Action W ℤ
  drain_token_balance id token = do
    balance ← get_token_balance id token
    when (ltb_ℤ (pos 0) balance) (set_token_balance id token (pos 0))
    pure balance

  -- The loop of `get_all_balances`.
  pub balances_of : ℕ → List Address → Action W (List TokenBalance)
  balances_of id [] = pure []
  balances_of id (token ∷ ts) = do
    balance ← get_token_balance id token
    rest ← balances_of id ts
    pure (record { token = token; balance = balance } ∷ rest)

  abbrev pub get_all_balances : Project → Action W ProjectBalances
  get_all_balances p = do
    balances ← balances_of p.id p.accepted_tokens
    pure (record { project_id = p.id; balances = balances })

  abbrev pub get_donator_balance : ℕ → Address → Address → Action W ℤ
  get_donator_balance id token donator =
      gets λ s. get_or (pos 0) (s.donator_balance id token donator)

  abbrev pub set_donator_balance : ℕ → Address → Address → ℤ → Action W ⊤
  set_donator_balance id token donator balance =
      modify λ s. record s {
        donator_balance = update₃ s.donator_balance id token donator (some balance);
      }

  abbrev pub add_to_donator_balance : ℕ → Address → Address → ℤ → Action W ℤ
  add_to_donator_balance id token donator amount = do
    current ← get_donator_balance id token donator
    new_balance ← or_panic (checked_add current amount) (contract_error overflow)
    set_donator_balance id token donator new_balance
    pure new_balance

  abbrev pub is_whitelisted : ℕ → Address → Action W Bool
  is_whitelisted id address = gets λ s. s.whitelist id address

  abbrev pub add_to_whitelist : ℕ → Address → Action W ⊤
  add_to_whitelist id address =
      modify λ s. record s { whitelist = update₂ s.whitelist id address true }

  abbrev pub remove_from_whitelist : ℕ → Address → Action W ⊤
  remove_from_whitelist id address =
      modify λ s. record s { whitelist = update₂ s.whitelist id address false }

-- What `load_project_pair` finds.
pub record Loaded (s : Storage) (id : ℕ) : Type 0 where
  pub config : ProjectConfig
  pub state : ProjectState
  pub has_config : s.proj_config id ≡ some config
  pub has_state : s.proj_state id ≡ some state

pub loaded : (s : Storage) (id : ℕ) → s.proj_config id ≢ none → s.proj_state id ≢ none → Loaded s id
loaded s id c p =
    let (config, hc) = some_of (s.proj_config id) c in
    let (state, hs) = some_of (s.proj_state id) p in
    record { config = config; state = state; has_config = hc; has_state = hs }
