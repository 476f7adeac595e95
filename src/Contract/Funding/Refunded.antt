-- ===== src/Contract/Funding/Refunded.antt =====
-- The effect of a refund that returns.
use pifp_stellar.Base.{ℕ, ◌≡◌, some, arith, if◌then◌else◌, ◌==◌}
use pifp_stellar.Base.Int.{pos, neg_ℤ, ◌<ℤ◌, ◌+ℤ◌, checked_add}
use pifp_stellar.Base.Maps.{update₂, update₃}
use pifp_stellar.Contract.Types.{Address, ProjectConfig, ProjectState}
use pifp_stellar.Contract.Env.{Env, Ctx, Host, ok, >>=-ok}
use pifp_stellar.Contract.Funding.{refund, check_refund, pay_refund}
use pifp_stellar.Contract.Funding.Checks.{
  RefundChecked, check_refund-ok, check_refund-loads, settled,
}
use pifp_stellar.Contract.Funding.Deposited.{recorded, donated}

module _ {W : Type 0} (host : Host W) (ctx : Ctx) (donator : Address) (id : ℕ)
    (token : Address) where
  pub record Refunded (config : ProjectConfig) (state : ProjectState) (env e : Env W) : Type 0 where
    pub owed : pos 0 <ℤ donated env.store id token donator
    pub paid :
        host.transfer token ctx.current_contract_address donator
          (donated env.store id token donator)
          env.tokens
        ≡ some e.tokens
    pub balances :
        e.store.token_balance
        ≡ update₂ env.store.token_balance id token
            (some (recorded env.store id token +ℤ neg_ℤ (donated env.store id token donator)))
    pub donations :
        e.store.donator_balance ≡ update₃ env.store.donator_balance id token donator (some (pos 0))
    pub configs : e.store.proj_config ≡ env.store.proj_config
    pub count : e.store.project_count ≡ env.store.project_count
    pub roles : e.store.role ≡ env.store.role
    pub admin : e.store.super_admin ≡ env.store.super_admin
    pub fee : e.store.protocol_config ≡ env.store.protocol_config
    pub state_now :
        (j : ℕ)
        → e.store.proj_state j
          ≡ (if j == id then some (settled ctx config state) else env.store.proj_state j)

  pay_refund-ok :
      (config : ProjectConfig) (state : ProjectState) (env d e : Env W)
      → RefundChecked ctx donator id env d config state
      → pay_refund host ctx donator id token d ≡ ok tt e
      → Refunded config state env e
  unfolding pay_refund checked_add
  pay_refund-ok config state env d e c h = record {
    owed = ground arith;
    paid = ground arith;
    balances = ground arith;
    donations = ground arith;
    configs = ground arith;
    count = ground arith;
    roles = ground arith;
    admin = ground arith;
    fee = ground arith;
    state_now = λ j. ground (arith, c.written j);
  }

  -- A refund that returns has passed its checks, pays the donor all that is recorded for the
  -- token, takes that from the project's balance and leaves the donor a record of 0.
  pub refund-Refunded :
      (env e : Env W)
      → refund host ctx donator id token env ≡ ok tt e
      → (config : ProjectConfig) × (state : ProjectState) × (d : Env W) × RefundChecked ctx donator
          id env d config state
        × Refunded config state env e
  unfolding refund
  refund-Refunded env e h =
      let (s', d, p, q) = >>=-ok (check_refund ctx donator id) _ env h in
      let (config, state, hc, hs) = check_refund-loads ctx donator id env d p in
      let checked = check_refund-ok ctx donator id env d hc hs p in
      (config, state, d, checked, pay_refund-ok config state env d e checked q)
