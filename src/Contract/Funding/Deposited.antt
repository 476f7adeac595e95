-- ===== src/Contract/Funding/Deposited.antt =====
-- The effect of a deposit that returns.
use pifp_stellar.Base.{
  leb, ◌^◌, false, ℕ, ◌+◌, ◌≡◌, Bool, some, arith, get_or, ◌&&◌, if◌then◌else◌, ◌==◌,
}
use pifp_stellar.Base.Int.{ℤ, pos, ◌≤ℤ◌, ◌+ℤ◌, eqb_ℤ, leb_ℤ, checked_add, i128_max}
use pifp_stellar.Base.Maps.{update₂, update₃}
use pifp_stellar.Contract.Types.{Address, ProjectConfig, ProjectState, funding, active, status_eq}
use pifp_stellar.Contract.Env.{Env, Ctx, Host, ok, >>=-ok, Storage}
use pifp_stellar.Contract.Funding.{deposit, check_deposit, record_deposit, is_first}
use pifp_stellar.Contract.Funding.Checks.{DepositChecked, check_deposit-ok}

-- The balances that the contract records, absent entries being 0.
abbrev pub recorded : Storage → ℕ → Address → ℤ
recorded s id token = get_or (pos 0) (s.token_balance id token)

abbrev pub donated : Storage → ℕ → Address → Address → ℤ
donated s id token donator = get_or (pos 0) (s.donator_balance id token donator)

-- The project's state after a deposit that brings the token's balance to `total`.
abbrev pub deposited_state : ProjectConfig → ProjectState → Address → Bool → ℤ → ProjectState
deposited_state config state token is_new total = record {
  status =
      if status_eq state.status funding
        && is_first config.accepted_tokens token
        && leb_ℤ config.goal total
      then active
      else state.status;
  donation_count = if is_new then state.donation_count + 1 else state.donation_count;
  refund_expiry = state.refund_expiry;
}

module _ {W : Type 0} (host : Host W) (ctx : Ctx) (id : ℕ) (donator token : Address)
    (amount : ℤ) where
  pub record Deposited (config : ProjectConfig) (state : ProjectState) (env e : Env W)
      : Type 0 where
    pub paid :
        host.transfer token donator ctx.current_contract_address amount env.tokens ≡ some e.tokens
    pub balances :
        e.store.token_balance
        ≡ update₂ env.store.token_balance id token (some (recorded env.store id token +ℤ amount))
    pub in_range : recorded env.store id token +ℤ amount ≤ℤ i128_max
    pub donor_in_range : donated env.store id token donator +ℤ amount ≤ℤ i128_max
    pub no_carry :
        (eqb_ℤ (donated env.store id token donator) (pos 0)
          && leb (2 ^ 32) (state.donation_count + 1))
        ≡ false
    pub donations :
        e.store.donator_balance
        ≡ update₃ env.store.donator_balance id token donator
            (some (donated env.store id token donator +ℤ amount))
    pub state_now :
        (j : ℕ)
        → e.store.proj_state j ≡ (
            if j == id
            then some (
                deposited_state config state token
                  (eqb_ℤ (donated env.store id token donator) (pos 0))
                  (recorded env.store id token +ℤ amount))
            else env.store.proj_state j)
    pub configs : e.store.proj_config ≡ env.store.proj_config
    pub count : e.store.project_count ≡ env.store.project_count
    pub roles : e.store.role ≡ env.store.role
    pub admin : e.store.super_admin ≡ env.store.super_admin
    pub fee : e.store.protocol_config ≡ env.store.protocol_config

  record_deposit-ok :
      (config : ProjectConfig) (state : ProjectState) (env e : Env W)
      → env.store.proj_state id ≡ some state
      → record_deposit host ctx id donator token amount config state env ≡ ok tt e
      → Deposited config state env e
  unfolding record_deposit checked_add
  record_deposit-ok config state env e hs h = record {
    paid = ground arith;
    balances = ground arith;
    in_range = ground arith;
    donor_in_range = ground arith;
    no_carry = ground arith;
    donations = ground arith;
    state_now = λ j. ground arith;
    configs = ground arith;
    count = ground arith;
    roles = ground arith;
    admin = ground arith;
    fee = ground arith;
  }

  -- A deposit that returns has passed its checks, the token contract has moved the amount to the
  -- contract, the token's balance and the donor's record have grown by it and are in range, a new pair
  -- of donor and token is counted without a carry, and the state is that of the deposit.
  pub deposit-Deposited :
      (env e : Env W)
      → deposit host ctx id donator token amount env ≡ ok tt e
      → (config : ProjectConfig) × (state : ProjectState) × DepositChecked ctx id donator token
          amount env config state
        × Deposited config state env e
  unfolding deposit
  deposit-Deposited env e h =
      let ((config, state), d, p, q) = >>=-ok (check_deposit ctx id donator token amount) _ env h in
      let (same, checked) = check_deposit-ok ctx id donator token amount env d p in
      (
        config,
        state,
        checked,
        record_deposit-ok config state env e checked.has_state (rw same at q),
      )
