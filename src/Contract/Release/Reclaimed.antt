-- ===== src/Contract/Release/Reclaimed.antt =====
-- The effect of `reclaim_expired_funds`.
use mathlib.Core.Path.{fun_ext}
use pifp_stellar.Base.{
  ℕ, ◌≡◌, ◌≢◌, ◌≤◌, ◌==◌, ◌&&◌, ◌++◌, true, false, none, some, List, [], ◌∷◌, arith, if◌then◌else◌,
  get_or,
}
use pifp_stellar.Base.Int.{ℤ}
use pifp_stellar.Contract.Types.{Address, ProjectConfig, ProjectState, accepts, is_refundable}
use pifp_stellar.Contract.Env.{Env, Ctx, Host, ok, >>=-ok, Storage}
use pifp_stellar.Contract.Storage.{Loaded, loaded}
use pifp_stellar.Contract.Funding.Deposited.{recorded}
use pifp_stellar.Contract.Release.{
  check_reclaim, reclaim_expired_funds, reclaim_tokens, reclaim_token,
}
use pifp_stellar.Contract.Release.Released.{drained, Payment, pay_all, pay_all-append, paying}
use pifp_stellar.Contract.Release.Loop.{drain_at}

-- The conditions of a reclaim.
pub record ReclaimChecked (ctx : Ctx) (caller : Address) (id : ℕ) (s : Storage)
    (config : ProjectConfig) (state : ProjectState) : Type 0 where
  pub not_paused : get_or false s.paused ≡ false
  pub authorized : ctx.authorized caller ≡ true
  pub has_config : s.proj_config id ≡ some config
  pub has_state : s.proj_state id ≡ some state
  pub own : caller ≡ config.creator
  pub refundable : is_refundable state.status ≡ true
  pub has_window : state.refund_expiry ≢ 0
  pub over : state.refund_expiry ≤ ctx.timestamp

-- The payments of a reclaim, from the balances.
unfoldable pub reclaim_plan : Address → (Address → ℤ) → List Address → List Payment
reclaim_plan creator b [] = []
reclaim_plan creator b (token ∷ rest) =
    paying token creator (b token) ++ reclaim_plan creator (drain_at b token) rest

module _ {W : Type 0} (ctx : Ctx) (caller : Address) (id : ℕ) (env d : Env W)
    {config : ProjectConfig} (h : check_reclaim ctx caller id env ≡ ok config d) where
  check_reclaim-loads : Loaded env.store id
  unfolding check_reclaim
  check_reclaim-loads =
      loaded env.store id (λ (n : env.store.proj_config id ≡ none). ground arith)
        (λ (n : env.store.proj_state id ≡ none). ground arith)

  check_reclaim-effect :
      (c : ProjectConfig) (state : ProjectState)
      → env.store.proj_config id ≡ some c
      → env.store.proj_state id ≡ some state
      → (d ≡ env) × ReclaimChecked ctx caller id env.store config state
  unfolding check_reclaim
  check_reclaim-effect c state hc hs = (ground arith, ground arith)

module _ {W : Type 0} (host : Host W) (ctx : Ctx) (id : ℕ) (creator : Address) where
  record TokenReclaimed (token : Address) (env e : Env W) : Type 0 where
    rest : e.store ≡ record (env.store) { token_balance = e.store.token_balance }
    balances :
        (j : ℕ) (t : Address)
        → recorded e.store j t ≡ (
            if j == id && t == token
            then drained (recorded env.store j t)
            else recorded env.store j t)
    paid :
        pay_all host ctx (paying token creator (recorded env.store id token)) env.tokens
        ≡ some e.tokens

  reclaim_token-ok :
      (token : Address) (env e : Env W)
      → reclaim_token host ctx id creator token env ≡ ok tt e
      → TokenReclaimed token env e
  unfolding reclaim_token pay_all
  reclaim_token-ok token env e h = record {
    rest = ground arith;
    balances = λ j t. ground arith;
    paid = ground arith;
  }

  pub record TokensReclaimed (tokens : List Address) (env e : Env W) : Type 0 where
    pub rest : e.store ≡ record (env.store) { token_balance = e.store.token_balance }
    pub balances :
        (j : ℕ) (t : Address)
        → recorded e.store j t ≡ (
            if j == id && accepts tokens t
            then drained (recorded env.store j t)
            else recorded env.store j t)
    pub paid :
        pay_all host ctx (reclaim_plan creator (recorded env.store id) tokens) env.tokens
        ≡ some e.tokens

  drained-at :
      (token : Address) (env d : Env W)
      → TokenReclaimed token env d
      → recorded d.store id ≡ drain_at (recorded env.store id) token
  drained-at token env d r = fun_ext λ t. ground (arith, r.balances id t)

  reclaim_tokens-ok :
      (tokens : List Address) (env e : Env W)
      → reclaim_tokens host ctx id creator tokens env ≡ ok tt e
      → TokensReclaimed tokens env e
  unfolding reclaim_tokens accepts reclaim_plan pay_all
  reclaim_tokens-ok [] env e h = record {
    rest = ground arith;
    balances = λ j t. ground arith;
    paid = ground arith;
  }
  reclaim_tokens-ok (token ∷ ts) env e h =
      let (_, d, p, q) = >>=-ok (reclaim_token host ctx id creator token) _ env h in
      let one : TokenReclaimed token env d = reclaim_token-ok token env d p in
      let more : TokensReclaimed ts d e = reclaim_tokens-ok ts d e q in
      record {
        rest = ground (arith, one.rest, more.rest);
        balances = λ j t. ground (arith, one.balances j t, more.balances j t);
        paid =
            pay_all-append host ctx (paying token creator (recorded env.store id token)) _
              env.tokens one.paid (rw (← drained-at token env d one) more.paid);
      }

-- A reclaim that returns has passed its checks, drains the project's accepted tokens and no other
-- balance, and pays each positive balance to the creator.
pub reclaim_expired_funds-Reclaimed :
    {W : Type 0} (host : Host W) (ctx : Ctx) (caller : Address) (id : ℕ) (env e : Env W)
    → reclaim_expired_funds host ctx caller id env ≡ ok tt e
    → (config : ProjectConfig) × (state : ProjectState) × ReclaimChecked ctx caller id env.store
        config state
      × TokensReclaimed host ctx id config.creator config.accepted_tokens env e
unfolding reclaim_expired_funds
reclaim_expired_funds-Reclaimed host ctx caller id env e h =
    let (config, d, p, q) = >>=-ok (check_reclaim ctx caller id) _ env h in
    let l = check_reclaim-loads ctx caller id env d p in
    let (same, checked) =
      check_reclaim-effect ctx caller id env d p l.config l.state l.has_config l.has_state in
    (
      config,
      l.state,
      checked,
      reclaim_tokens-ok host ctx id config.creator config.accepted_tokens env e (rw same at q),
    )
