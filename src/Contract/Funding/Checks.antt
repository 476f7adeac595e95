-- ===== src/Contract/Funding/Checks.antt =====
-- What the checks of `deposit` and `refund` have established when they pass.
use pifp_stellar.Base.{
  ℕ, ◌<◌, ◌≡◌, ◌⊎◌, Bool, true, false, some, arith, get_or, some_of, ◌+◌, leb, ◌&&◌, ◌==◌,
  if◌then◌else◌,
}
use pifp_stellar.Base.Int.{ℤ, pos, ◌<ℤ◌}
use pifp_stellar.Contract.Types.{
  Address, ProjectConfig, ProjectState, accepts, is_open, is_refundable, expired,
}
use pifp_stellar.Contract.Env.{Env, Ctx, ok}
use pifp_stellar.Contract.Funding.{check_deposit, check_refund, refund_window}

-- What holds of a deposit that the checks let through.
pub record DepositChecked {W : Type 0} (ctx : Ctx) (id : ℕ) (donator token : Address) (amount : ℤ)
    (env : Env W) (config : ProjectConfig) (state : ProjectState) : Type 0 where
  pub not_paused : get_or false env.store.paused ≡ false
  pub authorized : ctx.authorized donator ≡ true
  pub positive : pos 0 <ℤ amount
  pub has_config : env.store.proj_config id ≡ some config
  pub has_state : env.store.proj_state id ≡ some state
  pub in_time : ctx.timestamp < config.deadline
  pub open_status : is_open state.status ≡ true
  pub listed : config.is_private ≡ true → env.store.whitelist id donator ≡ true
  pub accepted : accepts config.accepted_tokens token ≡ true

pub check_deposit-ok :
    {W : Type 0} (ctx : Ctx) (id : ℕ) (donator token : Address) (amount : ℤ) (env e : Env W)
    {config : ProjectConfig} {state : ProjectState}
    → check_deposit ctx id donator token amount env ≡ ok (config, state) e
    → (e ≡ env) × DepositChecked ctx id donator token amount env config state
unfolding check_deposit
check_deposit-ok ctx id donator token amount env e h = ground arith

-- The project's state once a due expiry is written.
abbrev pub expired_state : Ctx → ProjectState → ProjectState
expired_state ctx s = record s { status = expired; refund_expiry = ctx.timestamp + refund_window }

abbrev pub is_due : Ctx → ProjectConfig → ProjectState → Bool
is_due ctx c s = leb c.deadline ctx.timestamp && is_open s.status

abbrev pub settled : Ctx → ProjectConfig → ProjectState → ProjectState
settled ctx c s = if is_due ctx c s then expired_state ctx s else s

-- What holds of a refund that the checks let through: `state` is the stored state, and the state
-- written is `settled ctx config state`.
pub record RefundChecked {W : Type 0} (ctx : Ctx) (donator : Address) (id : ℕ) (env d : Env W)
    (config : ProjectConfig) (state : ProjectState) : Type 0 where
  pub authorized : ctx.authorized donator ≡ true
  pub has_config : env.store.proj_config id ≡ some config
  pub has_state : env.store.proj_state id ≡ some state
  pub refundable : is_refundable (settled ctx config state).status ≡ true
  pub window :
      ((settled ctx config state).refund_expiry ≡ 0)
      ⊎ (ctx.timestamp < (settled ctx config state).refund_expiry)
  pub written :
      (j : ℕ)
      → d.store.proj_state j
        ≡ (if j == id then some (settled ctx config state) else env.store.proj_state j)
  pub rest : d ≡ record env { store = record (env.store) { proj_state = d.store.proj_state } }

pub check_refund-ok :
    {W : Type 0} (ctx : Ctx) (donator : Address) (id : ℕ) (env d : Env W) {config : ProjectConfig}
    {state state' : ProjectState}
    → env.store.proj_config id ≡ some config
    → env.store.proj_state id ≡ some state
    → check_refund ctx donator id env ≡ ok state' d
    → RefundChecked ctx donator id env d config state
unfolding check_refund
check_refund-ok ctx donator id env d hc hs h = record {
  authorized = ground arith;
  has_config = hc;
  has_state = hs;
  refundable = ground arith;
  window = ground arith;
  written = λ j. ground arith;
  rest = ground arith;
}

-- A refund that gets past its checks found a project.
pub check_refund-loads :
    {W : Type 0} (ctx : Ctx) (donator : Address) (id : ℕ) (env d : Env W) {state' : ProjectState}
    → check_refund ctx donator id env ≡ ok state' d
    → (config : ProjectConfig) × (state : ProjectState) × (env.store.proj_config id ≡ some config)
      × (env.store.proj_state id ≡ some state)
unfolding check_refund
check_refund-loads ctx donator id env d h =
    let (c, hc) = some_of (env.store.proj_config id) (λ e. ground arith) in
    let (s, hs) = some_of (env.store.proj_state id) (λ e. ground arith) in (c, s, hc, hs)
