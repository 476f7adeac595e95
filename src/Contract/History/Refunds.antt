-- ===== src/Contract/History/Refunds.antt =====
-- When a sound contract pays refunds and accepts deposits.
use pifp_stellar.Base.{
  ℕ, ◌+◌, ◌<◌, ◌≡◌, ◌^◌, arith, refl, ap, ◌∙◌, [], ◌∷◌, some, true, if◌then◌else◌,
}
use pifp_stellar.Base.Int.{
  ℤ, pos, neg_ℤ, ◌+ℤ◌, ◌≤ℤ◌, ◌<ℤ◌, checked_add, checked_add_within, i128_max, int_laws,
}
use pifp_stellar.Base.Maps.{update, update₂, update₃}
use pifp_stellar.Contract.Types.{Address, ProjectConfig, ProjectState, is_refundable}
use pifp_stellar.Contract.Events.{Event}
use pifp_stellar.Contract.Env.{Env, Ctx, Host, ok, >>=-run, returns}
use pifp_stellar.Contract.Funding.{
  refund, check_refund, pay_refund, deposit, check_deposit, record_deposit, refund_window,
}
use pifp_stellar.Contract.Funding.Checks.{settled, is_due, expired_state, DepositChecked}
use pifp_stellar.Contract.Funding.Deposited.{recorded, donated}
use pifp_stellar.Contract.Change.Solvency.{Sound, owes}

module _ {W : Type 0} (host : Host W) (ctx : Ctx) (donator : Address) (id : ℕ) (token : Address)
    (env : Env W) (config : ProjectConfig) (state : ProjectState) where
  -- A claim that the contract should honour.
  pub record Claim : Type 0 where
    pub authorized : ctx.authorized donator ≡ true
    pub has_config : env.store.proj_config id ≡ some config
    pub has_state : env.store.proj_state id ≡ some state
    pub refundable : is_refundable (settled ctx config state).status ≡ true
    pub in_window : ctx.timestamp < (settled ctx config state).refund_expiry
    pub fits : ctx.timestamp + refund_window < 2 ^ 64
    pub owed : pos 0 <ℤ donated env.store id token donator

  abbrev after_check : Env W
  after_check = record env {
    store = record (env.store) {
      proj_state =
          if is_due ctx config state
          then update env.store.proj_state id (some (expired_state ctx state))
          else env.store.proj_state;
    };
  }

  claim-checked :
      Claim → check_refund ctx donator id env ≡ ok (settled ctx config state) after_check
  unfolding check_refund
  claim-checked c = ground arith

  claim-owed :
      Claim
      → (is_refundable state.status ≡ true → 0 < state.refund_expiry)
      → owes ctx.timestamp state ≡ true
  claim-owed c w = ground arith

  abbrev pub refunded_env : W → Env W
  refunded_env w = record env {
    store = record (env.store) {
      proj_state = after_check.store.proj_state;
      donator_balance = update₃ env.store.donator_balance id token donator (some (pos 0));
      token_balance =
          update₂ env.store.token_balance id token
            (some (recorded env.store id token +ℤ neg_ℤ (donated env.store id token donator)));
    };
    events = Event.refunded id donator (donated env.store id token donator) ∷ env.events;
    tokens = w;
  }

  pay_refund-returns :
      (w : W)
      → Claim
      → checked_add (recorded env.store id token) (neg_ℤ (donated env.store id token donator))
        ≡ some (recorded env.store id token +ℤ neg_ℤ (donated env.store id token donator))
      → host.transfer token ctx.current_contract_address donator
          (donated env.store id token donator)
          env.tokens
        ≡ some w
      → pay_refund host ctx donator id token after_check ≡ ok tt (refunded_env w)
  unfolding pay_refund
  pay_refund-returns w c a t = ground arith

  recorded-refunded :
      (w : W)
      → recorded (refunded_env w).store id token
        ≡ recorded env.store id token +ℤ neg_ℤ (donated env.store id token donator)
  recorded-refunded w = ground arith

  -- In a sound contract every claim is honoured: a donor with a recorded donation to a project that
  -- can refund gets all of it back, if the token contract makes the transfer, and keeps no claim.
  pub refund-returns :
      (w : W)
      → Sound ctx.timestamp (env.store.proj_state id) (recorded env.store id) (donated env.store id)
      → Claim
      → host.transfer token ctx.current_contract_address donator
          (donated env.store id token donator)
          env.tokens
        ≡ some w
      → (refund host ctx donator id token env ≡ ok tt (refunded_env w))
        × (donated (refunded_env w).store id token donator ≡ pos 0)
        × (recorded (refunded_env w).store id token +ℤ donated env.store id token donator
            ≡ recorded env.store id token)
        × (pos 0 ≤ℤ recorded (refunded_env w).store id token)
  unfolding refund
  refund-returns w s c t =
      let o = claim-owed c (s.window state c.has_state) in
      let cover : donated env.store id token donator ≤ℤ recorded env.store id token =
        omega (int_laws, s.solvent state c.has_state o token (donator ∷ []) (refl, tt)) in
      let low : pos 0 ≤ℤ recorded env.store id token +ℤ neg_ℤ (donated env.store id token donator) =
        omega int_laws in
      let sum =
        checked_add_within (recorded env.store id token)
          (neg_ℤ (donated env.store id token donator)) low
          (omega (int_laws, s.balance_bounded token, s.gift_nonneg token donator)) in
      (
        >>=-run (check_refund ctx donator id) _ env (claim-checked c)
            (pay_refund-returns w c sum t),
        ground arith,
        rw (recorded-refunded w) (omega int_laws),
        rw (recorded-refunded w) low,
      )

module _ {W : Type 0} (host : Host W) (ctx : Ctx) (id : ℕ) (donator token : Address) (amount : ℤ)
    (env : Env W) (config : ProjectConfig) (state : ProjectState) where
  check_deposit-returns :
      DepositChecked ctx id donator token amount env config state
      → check_deposit ctx id donator token amount env ≡ ok (config, state) env
  unfolding check_deposit
  check_deposit-returns c = ground arith

  record_deposit-returns :
      (w : W) {a b : ℤ}
      → env.store.proj_state id ≡ some state
      → state.donation_count + 1 < 2 ^ 32
      → checked_add (recorded env.store id token) amount ≡ some a
      → checked_add (donated env.store id token donator) amount ≡ some b
      → host.transfer token donator ctx.current_contract_address amount env.tokens ≡ some w
      → returns (record_deposit host ctx id donator token amount config state env) ≡ true
  unfolding record_deposit
  record_deposit-returns w hs n a b t = ground arith

  -- In a sound contract a deposit that passes its checks returns, if the donor count and the
  -- token's balance stay in range and the token contract makes the transfer: the donor's own sum
  -- never overflows.
  pub deposit-returns :
      (w : W)
      → Sound ctx.timestamp (env.store.proj_state id) (recorded env.store id) (donated env.store id)
      → DepositChecked ctx id donator token amount env config state
      → state.donation_count + 1 < 2 ^ 32
      → recorded env.store id token +ℤ amount ≤ℤ i128_max
      → host.transfer token donator ctx.current_contract_address amount env.tokens ≡ some w
      → returns (deposit host ctx id donator token amount env) ≡ true
  unfolding deposit
  deposit-returns w s c n h t =
      let cover : donated env.store id token donator ≤ℤ recorded env.store id token = omega (
        int_laws,
        s.solvent state c.has_state (ground (arith, c.open_status)) token (donator ∷ []) (refl, tt),
      ) in
      let low = s.balance_nonneg token in
      let gift = s.gift_nonneg token donator in
      let own =
        checked_add_within (donated env.store id token donator) amount
          (omega (int_laws, gift, c.positive)) (omega (int_laws, h, cover)) in
      let sum =
        checked_add_within (recorded env.store id token) amount (omega (int_laws, low, c.positive))
          h in
      ap returns
        (>>=-run (check_deposit ctx id donator token amount) _ env (check_deposit-returns c) refl)
      ∙ record_deposit-returns w c.has_state n sum own t
